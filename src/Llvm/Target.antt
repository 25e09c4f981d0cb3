-- ===== src/Llvm/Target.antt =====
-- `target_from_triple`, `target_from_module` and `create_target_machine` of llvm/mod.rs.
use bpf_linker.Prelude.{ℕ, ◌||◌, Option, none, some, ◌==◌, if◌then◌else◌, Text}
use bpf_linker.Outcome.{Exec, pure, abort, call, read, modify, ◌>>=◌, ◌>>◌}
use bpf_linker.Types.Api.{Ref}
use bpf_linker.Types.Ir.{has_nul}
use bpf_linker.Llvm.Api.{ObjectApi}
use bpf_linker.Llvm.Message.{drop_message, fail_with}

pub record TargetApi (L : Type 0) : Type 0 where
  -- The triple of a module.
  pub get_target : L → Ref → Text
  -- The returned code, the target and the address of a message.
  pub get_target_from_triple : Text → L → (ℕ × Ref × Ref) × L
  -- At the highest code generation level, with the default relocation and code models.
  pub create_target_machine : Ref → Text → Text → Text → L → Ref × L

module _ {L : Type 0} (objects : ObjectApi L) (api : TargetApi L) where
  unfoldable pub target_from_triple : Text → Exec L Text Ref
  target_from_triple triple = do
    r ← call (api.get_target_from_triple triple)
    if r.0 == 0 then (do modify (drop_message objects r.2); pure r.1) else fail_with objects r.2

  unfoldable pub target_from_module : Ref → Exec L Text Ref
  target_from_module m = do triple ← read (λ s. api.get_target s m); target_from_triple triple

  -- `CString::new` panics on a NUL byte in one of the texts.
  unfoldable pub create_target_machine :
      {E : Type 0} → Ref → Text → Text → Text → Exec L E (Option Ref)
  create_target_machine target triple cpu features =
      if has_nul triple || (has_nul cpu || has_nul features) then abort else do
        tm ← call (api.create_target_machine target triple cpu features)
        pure (if tm == 0 then none else some tm)
