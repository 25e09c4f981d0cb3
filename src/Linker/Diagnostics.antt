-- ===== src/Linker/Diagnostics.antt =====
-- `DiagnosticHandler` of linker.rs: which messages of LLVM count as errors.
pub mod Callback
use bpf_linker.Llvm.Diagnostic.{Severity, ds_error, ds_warning, ds_remark, ds_note}
use bpf_linker.Prelude.{
  ◌≡◌, Bool, true, false, not, ◌||◌, ◌&&◌, List, [], ◌∷◌, ◌++◌, arith, Text, codes, ends_with,
  if◌then◌else◌,
}

pub record Diagnostic : Type 0 where
  pub severity : Severity
  pub message : Text

abbrev builtin_message : Text → Text
builtin_message name =
    codes "A call to built-in function '" ++ (name ++ (codes "' is not supported." ++ 10 ∷ []))

-- `MATCHERS`: the functions that the BPF backend rejects and later removes.
abbrev matchers : List Text
matchers =
    builtin_message (codes "memcpy")
    ∷ builtin_message (codes "memmove")
    ∷ builtin_message (codes "memset")
    ∷ builtin_message (codes "memcmp")
    ∷ builtin_message (codes "bcmp")
    ∷ builtin_message (codes "strlen")
    ∷ []

pub any_ends : List Text → Text → Bool
any_ends [] message = false
any_ends (m ∷ ms) message = ends_with message m || any_ends ms message

-- Whether one of the `matchers` ends the message.
unfoldable pub tolerated : Text → Bool
unfolding any_ends
tolerated = any_ends matchers

-- `DiagnosticHandler::new`: no error so far.
abbrev pub new : Bool
new = false

-- `handle_diagnostic`, on the field `has_errors`.
unfoldable pub handle_diagnostic : Bool → Severity → Text → Bool
handle_diagnostic has_errors ds_error message = if tolerated message then has_errors else true
handle_diagnostic has_errors ds_warning message = has_errors
handle_diagnostic has_errors ds_remark message = has_errors
handle_diagnostic has_errors ds_note message = has_errors

-- The field after LLVM has issued these diagnostics, in this order.
unfoldable pub handle_all : Bool → List Diagnostic → Bool
unfolding handle_diagnostic
handle_all has_errors [] = has_errors
handle_all has_errors (d ∷ ds) = handle_all (handle_diagnostic has_errors d.severity d.message) ds

-- An error that the kernel's limits do not explain.
abbrev pub is_error : Severity → Bool
is_error ds_error = true
is_error _ = false

abbrev pub any_fatal : List Diagnostic → Bool
any_fatal [] = false
any_fatal (d ∷ ds) = is_error d.severity && not (tolerated d.message) || any_fatal ds

handle_diagnostic_lem :
    (h : Bool) (s : Severity) (m : Text)
    → handle_diagnostic h s m ≡ (h || is_error s && not (tolerated m))
unfolding handle_diagnostic
handle_diagnostic_lem h ds_error m = ground arith
handle_diagnostic_lem h _ m = ground arith

-- Once an error was seen it stays, and otherwise the linker has errors exactly if some diagnostic
-- has the severity of an error and does not end with a tolerated message.
pub handle_all_lem : (h : Bool) (ds : List Diagnostic) → handle_all h ds ≡ (h || any_fatal ds)
unfolding handle_all
handle_all_lem h [] = ground arith
handle_all_lem h (d ∷ ds) = ground (
  arith,
  handle_diagnostic_lem h d.severity d.message,
  handle_all_lem (handle_diagnostic h d.severity d.message) ds,
)
