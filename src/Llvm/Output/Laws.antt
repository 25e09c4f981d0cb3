-- ===== src/Llvm/Output/Laws.antt =====
-- The command line that is handed to LLVM, and NUL bytes.
use bpf_linker.Prelude.{
  ◌≡◌, refl, inl, inr, Bool-cases, Bool, false, ◌||◌, List, [], ◌∷◌, if◌then◌else◌, Text,
}
use bpf_linker.Outcome.{ok, panic, ◌>>=◌}
use bpf_linker.Types.Ir.{has_nul}
use bpf_linker.Llvm.Output.{OutputApi, c_string, c_strings, parse_command_line_options}

abbrev pub any_nul : List Text → Bool
any_nul [] = false
any_nul (text ∷ texts) = has_nul text || any_nul texts

c_strings_lem :
    {S E : Type 0} (texts : List Text) (s : S)
    → c_strings {E = E} texts s ≡ (if any_nul texts then (panic, s) else (ok texts, s))
unfolding c_strings c_string ◌>>=◌
c_strings_lem [] s = refl
c_strings_lem {E = E} (text ∷ texts) s = elim (Bool-cases (has_nul text)) [
  | inl e ↦ rw e refl
  | inr e ↦ elim (Bool-cases (any_nul texts)) [
    | inl f ↦ rw (e, c_strings_lem {E = E} texts s, f) refl
    | inr f ↦ rw (e, c_strings_lem {E = E} texts s, f) refl
  ]
]

module _ {L : Type 0} (api : OutputApi L) where
  -- Arguments for LLVM panic exactly if one of them or the overview has a NUL byte, before LLVM sees
  -- any of them, and else LLVM gets all of them as they are.
  pub parse_command_line_options_lem :
      {E : Type 0} (args : List Text) (overview : Text) (s : L)
      → parse_command_line_options api {E = E} args overview s ≡ (
          if any_nul args || has_nul overview
          then (panic, s)
          else (ok tt, api.parse_command_line_options args overview s))
  unfolding parse_command_line_options c_string ◌>>=◌
  parse_command_line_options_lem {E = E} args overview s = elim (Bool-cases (any_nul args)) [
    | inl e ↦ rw (c_strings_lem {E = E} args s, e) refl
    | inr e ↦ elim (Bool-cases (has_nul overview)) [
      | inl f ↦ rw (c_strings_lem {E = E} args s, e, f) refl
      | inr f ↦ rw (c_strings_lem {E = E} args s, e, f) refl
    ]
  ]
