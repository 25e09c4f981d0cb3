-- ===== src/Linker/Diagnostics/Callback.antt =====
-- `DiagnosticHandler` behind the callback that LLVM calls.
use bpf_linker.Prelude.{
  ◌≡◌, ◌≢◌, ◌∙◌, ap, Bool, true, false, ◌||◌, List, [], ◌∷◌, arith, ◌==◌, is_utf8,
}
use bpf_linker.Outcome.{ok, Exec, pure, ◌>>=◌, ◌>>◌}
use bpf_linker.Types.Api.{Ref}
use bpf_linker.Llvm.Api.{ObjectApi}
use bpf_linker.Llvm.Diagnostic.{DiagnosticApi, diagnostic_handler}
use bpf_linker.Linker.Diagnostics.{
  Diagnostic, handle_diagnostic, handle_all, any_fatal, handle_all_lem,
}

module _ {L : Type 0} (objects : ObjectApi L) (api : DiagnosticApi L) where
  -- LLVM calls back for these diagnostics, one after the other.
  unfoldable pub callbacks : {E : Type 0} → List Ref → Exec (Bool × L) E Unit
  callbacks [] = pure tt
  callbacks (info ∷ infos) = do
    diagnostic_handler objects api handle_diagnostic info
    callbacks infos

  -- From one state to another LLVM describes `infos` by `ds`, in UTF-8, and takes back each message
  -- before it makes the next one.
  abbrev pub Describes : L → List Ref → List Diagnostic → L → Type 0
  Describes s [] [] t = s ≡ t
  Describes s (info ∷ infos) (d ∷ ds) t =
      let (message, s') = api.get_diag_info_description info s in
      (api.get_diag_info_severity s info ≡ d.severity)
      × (message ≢ 0)
      × (objects.c_string s' message ≡ d.message)
      × (is_utf8 d.message ≡ true)
      × Describes (objects.dispose_message message s') infos ds t
  Describes s _ _ t = ⊥

  callbacks-handle_all :
      {E : Type 0} (infos : List Ref) (ds : List Diagnostic) (has_errors : Bool) (s t : L)
      → Describes s infos ds t
      → callbacks {E = E} infos (has_errors, s) ≡ (ok tt, (handle_all has_errors ds, t))
  unfolding callbacks handle_all diagnostic_handler ◌>>=◌ ◌>>◌
  callbacks-handle_all [] [] has_errors s t h = ap (λ x. (ok tt, (has_errors, x))) h
  callbacks-handle_all [] (d ∷ ds) has_errors s t h = elim h [ ]
  callbacks-handle_all (info ∷ infos) [] has_errors s t h = elim h [ ]
  callbacks-handle_all (info ∷ infos) (d ∷ ds) has_errors s t
        (sev, some_message, text, plain, rest) =
      let made = api.get_diag_info_description info s in
      let there : (made.0 == 0) ≡ false = ground (arith, some_message) in
      rw (there, text, plain, sev)
        (callbacks-handle_all infos ds (handle_diagnostic has_errors d.severity d.message)
          (objects.dispose_message made.0 made.1) t rest)

  -- After LLVM has called back for diagnostics that it describes in UTF-8, every message has been
  -- disposed of, and the linker has errors if it had some before, or if one of the diagnostics has
  -- the severity of an error and does not end with a tolerated message.
  pub callbacks_lem :
      {E : Type 0} (infos : List Ref) (ds : List Diagnostic) (has_errors : Bool) (s t : L)
      → Describes s infos ds t
      → callbacks {E = E} infos (has_errors, s) ≡ (ok tt, (has_errors || any_fatal ds, t))
  callbacks_lem infos ds has_errors s t h =
      callbacks-handle_all infos ds has_errors s t h
      ∙ ap (λ b. (ok tt, (b, t))) (handle_all_lem has_errors ds)
