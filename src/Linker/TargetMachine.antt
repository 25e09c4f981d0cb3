-- ===== src/Linker/TargetMachine.antt =====
-- `create_target_machine` of linker.rs: the target is the one asked for, else the one of the input
-- modules if they are for BPF, else `bpf`.
pub mod Creates
use bpf_linker.Prelude.{Option, none, some, if◌then◌else◌, Text, codes, starts_with, is_utf8}
use bpf_linker.Outcome.{Exec, pure, abort, lift, read, map_err, ◌>>=◌}
use bpf_linker.Types.Api.{Ref}
use bpf_linker.Types.Ir.{has_nul}
use bpf_linker.Llvm.Api.{ObjectApi}
use bpf_linker.Llvm.Target
use bpf_linker.Llvm.Target.{TargetApi, target_from_triple, target_from_module}
use bpf_linker.Linker.Options.{LinkerError, invalid_target, Cpu}
use bpf_linker.Linker.Cpu.{to_str}
use bpf_linker.Linker.Modules.{ok_or}

module _ {L : Type 0} (objects : ObjectApi L) (api : TargetApi L) (module_ref : Ref) where
  -- A target with its triple, which the error names.
  unfoldable pub or_invalid : Text → Exec L Text Ref → Exec L LinkerError (Text × Ref)
  or_invalid triple m = do target ← map_err (λ _. invalid_target triple) m; pure (triple, target)

  unfoldable pub select_target : Option Text → Exec L LinkerError (Text × Ref)
  select_target (some triple) =
      if has_nul triple then abort else or_invalid triple (target_from_triple objects api triple)
  select_target none = do
    triple ← read (λ s. api.get_target s module_ref)
    if is_utf8 triple
        then (if starts_with triple (codes "bpf")
            then or_invalid triple (target_from_module objects api module_ref)
            else or_invalid (codes "bpf") (target_from_triple objects api (codes "bpf")))
        else abort

  -- The machine is what the linker keeps in `target_machine`.
  unfoldable pub create_target_machine : Option Text → Cpu → Text → Exec L LinkerError Ref
  create_target_machine target cpu cpu_features = do
    selected ← select_target target
    machine ←
        Target.create_target_machine objects api selected.1 selected.0 (to_str cpu) cpu_features
    lift (ok_or (invalid_target selected.0) machine)
