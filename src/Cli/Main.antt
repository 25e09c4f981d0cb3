-- ===== src/Cli/Main.antt =====
-- `main` of bin/bpf-linker.rs and the parser of its `--log-file` option.
pub mod Exports
pub mod Configured
pub mod Succeeds
use bpf_linker.Prelude.{
  ◌≡◌, sym, ap, subst, ◌∙◌, ◌↔◌, Bool, true, false, ◌&&◌, Option, none, some, List, [], ◌∷◌, ◌++◌,
  map, arith, if◌then◌else◌, Text, codes, text_eq,
}
use bpf_linker.Outcome.{Outcome, ok, err, panic}
use bpf_linker.Paths.{Component, normal, components, next_back}
use bpf_linker.Linker.Options.{FilePath, LinkerError, Cpu, OptLevel, OutputType, LinkerOptions}
use bpf_linker.Linker.Diagnostics
use bpf_linker.Linker.Diagnostics.{Diagnostic, handle_all, any_fatal, handle_all_lem}
use bpf_linker.Linker.Modules.{IoResult, done, failed}
use bpf_linker.Cli.Lines.{lines}

-- What is made of the last component: only a name is taken.
abbrev pub with_name : Option (List Component × Component) → Option (List Component × Text)
with_name none = none
with_name (some (before, normal name)) = some (before, name)
with_name (some (before, _)) = none

-- The components before the last one, and the file's name.
unfoldable pub parent_and_file_name : FilePath → Option (List Component × Text)
parent_and_file_name p = with_name (next_back (components p))

-- The parsed command line. The logger's options are `clap`'s and the logger's alone.
pub record CommandLine : Type 0 where
  pub target : Option Text
  pub cpu : Cpu
  pub cpu_features : Text
  pub output : FilePath
  pub emit : List OutputType
  pub btf : Bool
  pub libs : List FilePath
  pub optimize : List OptLevel
  pub export_symbols : Option FilePath
  pub unroll_loops : Bool
  pub ignore_inline_never : Bool
  pub dump_module : Option FilePath
  pub llvm_args : List Text
  pub disable_expand_memcpy_in_order : Bool
  pub disable_memory_builtins : Bool
  pub inputs : List FilePath
  pub export : List Text
  pub fatal_errors : Bool

-- What `try_parse_from` returns: help and version are errors of their own kinds.
pub data Parsed : Type 0 where
  command_line : CommandLine → Parsed
  display : Parsed
  invalid : Text → Parsed

-- The errors that `main` ends with.
pub data MainError : Type 0 where
  invalid_arguments : Text → MainError
  no_logger : MainError
  unreadable_symbols : Text → MainError
  link_failed : LinkerError → MainError
  error_diagnostic : MainError

-- `wasm-ld` takes `-flavor` with one dash.
unfoldable pub rename_flavor : Text → Text
rename_flavor arg = if text_eq arg (codes "-flavor") then codes "--flavor" else arg

-- The first of the list, and the last: `clap` gives both options a default, so that neither list
-- is empty.
abbrev pub first {ℓ} : {A : Type ℓ} → List A → Option A
first [] = none
first (a ∷ rest) = some a

abbrev pub last {ℓ} : {A : Type ℓ} → List A → Option A
last [] = none
last (a ∷ []) = some a
last (a ∷ b ∷ rest) = last (b ∷ rest)

-- The names in the file come before those of `--export`.
unfoldable pub symbols : Option Text → List Text → List Text
symbols none export = export
symbols (some file) export = lines file ++ export

unfoldable pub linker_options : CommandLine → List Text → OutputType → OptLevel → LinkerOptions
linker_options c export_symbols output_type optimize = record {
  target = c.target;
  cpu = c.cpu;
  cpu_features = c.cpu_features;
  inputs = c.inputs;
  output = c.output;
  output_type = output_type;
  libs = c.libs;
  optimize = optimize;
  export_symbols = export_symbols;
  unroll_loops = c.unroll_loops;
  ignore_inline_never = c.ignore_inline_never;
  dump_module = c.dump_module;
  llvm_args = c.llvm_args;
  disable_expand_memcpy_in_order = c.disable_expand_memcpy_in_order;
  disable_memory_builtins = c.disable_memory_builtins;
  btf = c.btf;
}

-- What `main` needs: the parser, whether the logger could be set, `fs::read_to_string`, and what a
-- run of the linker returns with the diagnostics that LLVM issued in it.
pub record Host : Type 0 where
  pub try_parse_from : List Text → Parsed
  pub set_global_default : Bool
  pub read_to_string : FilePath → IoResult Text
  pub link : LinkerOptions → Outcome LinkerError Unit × List Diagnostic

-- `?` on what `fs::read_to_string` gave.
abbrev pub text_of : IoResult Text → Outcome MainError (Option Text)
text_of (done text) = ok (some text)
text_of (failed e) = err (unreadable_symbols e)

module _ (host : Host) where
  -- `export_symbols.map(fs::read_to_string).transpose()`.
  unfoldable pub read_symbols : Option FilePath → Outcome MainError (Option Text)
  read_symbols none = ok none
  read_symbols (some path) = text_of (host.read_to_string path)

  -- The end: an error of the linker, or diagnostics that count as one.
  unfoldable pub finish : Bool → Outcome LinkerError Unit × List Diagnostic → Outcome MainError Unit
  finish fatal_errors (err e, diagnostics) = err (link_failed e)
  finish fatal_errors (panic, diagnostics) = panic
  finish fatal_errors (ok u, diagnostics) =
      if fatal_errors && handle_all Diagnostics.new diagnostics then err error_diagnostic else ok tt

  -- The two matches that take the first output type and the last level.
  unfoldable pub chosen :
      CommandLine
      → List Text
      → Option OutputType
      → Option OptLevel
      → Outcome MainError LinkerOptions
  chosen c export_symbols none level = panic
  chosen c export_symbols (some output_type) none = panic
  chosen c export_symbols (some output_type) (some level) =
      ok (linker_options c export_symbols output_type level)

  unfoldable pub configure : CommandLine → List Text → Outcome MainError LinkerOptions
  configure c export_symbols = chosen c export_symbols (first c.emit) (last c.optimize)

  unfoldable pub link_and_finish :
      CommandLine → Outcome MainError LinkerOptions → Outcome MainError Unit
  link_and_finish c (ok options) = finish c.fatal_errors (host.link options)
  link_and_finish c (err e) = err e
  link_and_finish c panic = panic

  unfoldable pub with_symbols :
      CommandLine → Outcome MainError (Option Text) → Outcome MainError Unit
  with_symbols c (ok file) = link_and_finish c (configure c (symbols file c.export))
  with_symbols c (err e) = err e
  with_symbols c panic = panic

  unfoldable pub run_command : Parsed → Outcome MainError Unit
  run_command (command_line c) =
      if host.set_global_default
      then with_symbols c (read_symbols c.export_symbols)
      else err no_logger
  run_command display = ok tt
  run_command (invalid e) = err (invalid_arguments e)

  unfoldable pub main : List Text → Outcome MainError Unit
  main args = run_command (host.try_parse_from (map rename_flavor args))
