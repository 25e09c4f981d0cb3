-- ===== src/Linker/Args.antt =====
-- The command line that `llvm_init` of linker.rs hands to LLVM.
use bpf_linker.Prelude.{not, List, [], ◌∷◌, ◌++◌, Text, codes, if◌then◌else◌}
use bpf_linker.Linker.Options.{LinkerOptions}

-- With `u32::MAX` in decimal.
abbrev pub unroll_args : List Text
unroll_args =
    codes "--unroll-runtime"
    ∷ codes "--unroll-runtime-multi-exit"
    ∷ codes "--unroll-max-upperbound=4294967295"
    ∷ codes "--unroll-threshold=4294967295"
    ∷ []

unfoldable pub llvm_command_line : LinkerOptions → List Text
llvm_command_line options =
    let args = codes "bpf-linker" ∷ codes "--cold-callsite-rel-freq=0" ∷ [] in
    let args = if options.unroll_loops then args ++ unroll_args else args in
    let args =
      if not options.disable_expand_memcpy_in_order
      then args ++ codes "--bpf-expand-memcpy-in-order" ∷ []
      else args in
    args ++ options.llvm_args
