-- ===== src/Llvm/Diagnostic.antt =====
-- `diagnostic_handler` of llvm/mod.rs: the callback that LLVM calls for a diagnostic.
use bpf_linker.Prelude.{◌==◌, if◌then◌else◌, Text, is_utf8}
use bpf_linker.Outcome.{Exec, abort, read, call, modify, ◌>>=◌, ◌>>◌}
use bpf_linker.Types.Api.{Ref}
use bpf_linker.Llvm.Api.{ObjectApi}
use bpf_linker.Llvm.Message.{drop_message}

-- `LLVMDiagnosticSeverity`.
pub data Severity : Type 0 where
  ds_error ds_warning ds_remark ds_note : Severity

pub record DiagnosticApi (L : Type 0) : Type 0 where
  pub get_diag_info_severity : L → Ref → Severity
  -- The address of a message that the caller is to dispose of.
  pub get_diag_info_description : Ref → L → Ref × L

-- `H` is the type that implements the trait `LLVMDiagnosticHandler`, and `handle` is its method
-- `handle_diagnostic`.
module _ {L H : Type 0} (objects : ObjectApi L) (api : DiagnosticApi L)
    (handle : H → Severity → Text → H) where
  abbrev pub on_llvm : {A : Type 0} → (L → A × L) → H × L → A × (H × L)
  on_llvm f s = let (a, l) = f s.1 in (a, (s.0, l))

  unfoldable pub diagnostic_handler : {E : Type 0} → Ref → Exec (H × L) E Unit
  diagnostic_handler info = do
    severity ← read (λ s. api.get_diag_info_severity s.1 info)
    message ← call (on_llvm (api.get_diag_info_description info))
    if message == 0 then abort else do
      text ← read (λ s. objects.c_string s.1 message)
      if is_utf8 text
          then (do
            modify (λ s. (handle s.0 severity text, s.1))
            modify (λ s. (s.0, drop_message objects message s.1)))
          else abort
