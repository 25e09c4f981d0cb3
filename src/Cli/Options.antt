-- ===== src/Cli/Options.antt =====
-- `CliOptLevel::from_str` and `CliOutputType::from_str` of bin/bpf-linker.rs.
use bpf_linker.Prelude.{Text, codes, text_eq, if◌then◌else◌}
use bpf_linker.Outcome.{Outcome, ok, err}
use bpf_linker.Linker.Options.{
  OptLevel, no_opt, less, default, aggressive, size, size_min, OutputType, assembly, llvm_assembly,
  object,
}

pub data CliError : Type 0 where
  invalid_optimization : Text → CliError
  invalid_output_type : Text → CliError

unfoldable pub opt_level_from_str : Text → Outcome CliError OptLevel
opt_level_from_str s =
    if text_eq s (codes "0")
    then ok no_opt
    else if text_eq s (codes "1")
    then ok less
    else if text_eq s (codes "2")
    then ok default
    else if text_eq s (codes "3")
    then ok aggressive
    else if text_eq s (codes "s")
    then ok size
    else if text_eq s (codes "z")
    then ok size_min
    else err (invalid_optimization s)

unfoldable pub output_type_from_str : Text → Outcome CliError OutputType
output_type_from_str s =
    if text_eq s (codes "llvm-bc")
    then ok OutputType.bitcode
    else if text_eq s (codes "asm")
    then ok assembly
    else if text_eq s (codes "llvm-ir")
    then ok llvm_assembly
    else if text_eq s (codes "obj")
    then ok object
    else err (invalid_output_type s)
