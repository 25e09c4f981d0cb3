-- ===== src/Tests/Settings.antt =====
-- The target machine, the diagnostics and the command line on small inputs.
use bpf_linker.Prelude.{
  ◌++◌, ℕ, ◌+◌, ◌≡◌, ◌↔◌, refl, true, false, Option, none, some, List, [], ◌∷◌, All, arith, Text,
  codes,
}
use bpf_linker.Outcome.{ok}
use bpf_linker.Llvm.Diagnostic.{ds_error, ds_warning}
use bpf_linker.Llvm.Target.{TargetApi}
use bpf_linker.Linker.Options.{generic, v2, default, size, OutputType}
use bpf_linker.Linker.Cpu.{from_str, to_str, from_str_iff}
use bpf_linker.Linker.Diagnostics.{Diagnostic, tolerated, handle_all, handle_all_lem}
use bpf_linker.Linker.TargetMachine.{create_target_machine}
use bpf_linker.Linker.TargetMachine.Creates.{Creates, create_target_machine-Creates}
use bpf_linker.Linker.Modules.{done}
use bpf_linker.Cli.Lines.{IsSymbolChar, unlines}
use bpf_linker.Cli.Main.{CommandLine, command_line, Host, read_symbols, symbols, main}
use bpf_linker.Cli.Main.Exports.{symbols-unlines}
use bpf_linker.Cli.Main.Succeeds.{Renamed, no_more, flavor, unchanged, Succeeds, main_iff}
use bpf_linker.Cli.Main.{parent_and_file_name}
use bpf_linker.Cli.LogFile.{parent_and_file_name_iff}
use bpf_linker.Paths.{normal, components}
use bpf_linker.Tests.Objects.{objects}

abbrev host_targets : TargetApi ℕ
host_targets = record {
  get_target = λ s m. codes "x86_64-unknown-linux-gnu";
  get_target_from_triple = λ triple s. ((0, 6, 0), s + 1);
  create_target_machine = λ target triple cpu features s. (7, s + 1);
}

create_target_machine_example :
    Creates
      (objects true)
      host_targets
      51
      none
      (to_str v2)
      (codes "+alu32")
      0
      (create_target_machine (objects true) host_targets 51 none v2 (codes "+alu32") 0)
create_target_machine_example =
    create_target_machine-Creates (objects true) host_targets 51 none v2 (codes "+alu32") 0

from_str_iff_example : (from_str (codes "v2") ≡ ok v2) ↔ (codes "v2" ≡ to_str v2)
from_str_iff_example = from_str_iff (codes "v2") v2

abbrev two_diagnostics : List Diagnostic
two_diagnostics =
    record { severity = ds_warning; message = codes "unused" }
    ∷ record { severity = ds_error; message = codes "stack limit" }
    ∷ []

handle_all_lem_example : handle_all false two_diagnostics ≡ true
unfolding tolerated
handle_all_lem_example = handle_all_lem false two_diagnostics

abbrev two_names : List Text
two_names = codes "foo" ∷ codes "bar" ∷ []

two_names_plain : All (All IsSymbolChar) two_names
two_names_plain = ground arith

abbrev small_line : CommandLine
small_line = record {
  target = none;
  cpu = generic;
  cpu_features = [];
  output = codes "out.o";
  emit = OutputType.object ∷ OutputType.bitcode ∷ [];
  btf = true;
  libs = [];
  optimize = default ∷ size ∷ [];
  export_symbols = some (codes "symbols");
  unroll_loops = false;
  ignore_inline_never = false;
  dump_module = none;
  llvm_args = [];
  disable_expand_memcpy_in_order = false;
  disable_memory_builtins = false;
  inputs = codes "a.bc" ∷ [];
  export = codes "baz" ∷ [];
  fatal_errors = true;
}

abbrev small_host : Host
small_host = record {
  try_parse_from = λ args. command_line small_line;
  set_global_default = true;
  read_to_string = λ path. done (unlines two_names);
  link = λ options. (ok tt, two_diagnostics);
}

symbols-unlines_example :
    (file : Option Text) × (read_symbols small_host (some (codes "symbols")) ≡ ok file)
    × (symbols file (codes "baz" ∷ []) ≡ codes "foo" ∷ codes "bar" ∷ codes "baz" ∷ [])
symbols-unlines_example =
    symbols-unlines small_host (codes "symbols") two_names (codes "baz" ∷ []) two_names_plain refl

abbrev small_args : List Text
small_args = codes "bpf-linker" ∷ codes "-flavor" ∷ []

small_args-Renamed : Renamed small_args (codes "bpf-linker" ∷ codes "--flavor" ∷ [])
small_args-Renamed =
    unchanged (codes "bpf-linker") (codes "-flavor" ∷ []) (codes "--flavor" ∷ []) (λ e. cc)
      (flavor [] [] no_more)

main_iff_example :
    (main small_host small_args ≡ ok tt) ↔ Succeeds small_host (command_line small_line)
main_iff_example =
    main_iff small_host small_args (codes "bpf-linker" ∷ codes "--flavor" ∷ []) small_args-Renamed

parent_and_file_name_example :
    (parent_and_file_name (codes "logs/out.txt")
      ≡ some (normal (codes "logs") ∷ [], codes "out.txt"))
    ↔ (components (codes "logs/out.txt")
        ≡ (normal (codes "logs") ∷ []) ++ normal (codes "out.txt") ∷ [])
parent_and_file_name_example =
    parent_and_file_name_iff (codes "logs/out.txt") (normal (codes "logs") ∷ []) (codes "out.txt")
