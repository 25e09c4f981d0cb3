-- ===== src/Di/Linkage/Local.antt =====
-- `fix_subprogram_linkage` and the functions that are not exported.
use bpf_linker.Prelude.{
  ◌≡◌, refl, ap, sym, subst, ◌⊎◌, inl, inr, Bool-cases, false, Option, none, some, List, [], ◌∷◌,
  arith, ◌==◌, Among, Text,
}
use bpf_linker.Outcome.{ok, ◌>>=◌, >>=-eq-ok}
use bpf_linker.Types.Api.{Ref, Api}
use bpf_linker.Types.Ir.{function_subprogram}
use bpf_linker.Di.Sanitizer.{Sanitizer, get, reading}
use bpf_linker.Di.Linkage.{
  exports, localize, insert_found, insert_new, Replacements, fix_subprogram, fix_function,
  fix_functions, fix_subprogram_linkage,
}
use bpf_linker.Di.Linkage.Stable.{Keeps-fix_function}
use bpf_linker.Di.Linkage.Exported.{SubprogramLaws}
use bpf_linker.Di.Linkage.Localized.{
  LocalLaws, Named, IsFixed, moved, Stable-IsFixed, Keeps-Named, localize-IsFixed,
}

module _ {L : Type 0} (api : Api L)
    (same : (m : Ref) → api.value_as_metadata (api.metadata_as_value m) ≡ m)
    (laws : SubprogramLaws api) (IsLocal : L → Ref → Type 0) (flags : LocalLaws api IsLocal) where
  module _ (w : Ref) (name : Text) where
    insert_found-state :
        (replace : Replacements) (key m : Ref) (found : Option Ref) (s t : Sanitizer L)
        (r : Replacements)
        → insert_found api replace key m found s ≡ (ok r, t)
        → s ≡ t
    unfolding insert_found ◌>>=◌
    insert_found-state replace key m none s t r h = ap (λ q. q.1) h
    insert_found-state replace key m (some old) s t r h = cc

    fix_subprogram-IsFixed :
        (builder : Ref) (replace : Replacements) (found : Option Ref) (s t : Sanitizer L)
        (r : Replacements)
        → (found ≡ none → IsFixed api same laws IsLocal flags w name s.llvm)
        → fix_subprogram api builder w replace found s ≡ (ok r, t)
        → IsFixed api same laws IsLocal flags w name t.llvm
    unfolding fix_subprogram insert_new ◌>>=◌
    fix_subprogram-IsFixed builder replace none s t r h e =
        subst (λ q. IsFixed api same laws IsLocal flags w name q.1.llvm) e (h refl)
    fix_subprogram-IsFixed builder replace (some sub) s t r h e =
        let (new_program, s1, e1, rest) = >>=-eq-ok (localize api builder w sub) _ s e in
        subst (λ q. IsFixed api same laws IsLocal flags w name q.llvm)
          (insert_found-state replace sub _ (get sub replace) s1 t r rest)
          (localize-IsFixed api same laws IsLocal flags w name builder sub s s1 new_program e1)

    module _ (es : List Text) (builder : Ref) where
      -- The function itself, when its turn comes.
      turn-IsFixed :
          (replace : Replacements) (s t : Sanitizer L) (r : Replacements)
          → exports es name ≡ false
          → Named api same laws IsLocal flags w name s.llvm
          → fix_function api builder es w replace s ≡ (ok r, t)
          → IsFixed api same laws IsLocal flags w name t.llvm
      unfolding fix_function reading ◌>>=◌
      turn-IsFixed replace s t r hidden named e =
          fix_subprogram-IsFixed builder replace (function_subprogram api s.llvm w) s t r nothing
            (rw (named, hidden) at e)
        where
          nothing :
              function_subprogram api s.llvm w ≡ none
              → IsFixed api same laws IsLocal flags w name s.llvm
          nothing h = elim (Bool-cases (api.get_subprogram s.llvm w == 0)) [
            | inl null ↦ inl (ground arith)
            | inr found ↦ let h' = (rw found at h) in cc
          ]

      -- What holds of the function after its turn, the later turns keep.
      later-IsFixed :
          (fs : List Ref) (replace : Replacements) (s t : Sanitizer L) (r : Replacements)
          → exports es name ≡ false
          → Named api same laws IsLocal flags w name s.llvm
          → IsFixed api same laws IsLocal flags w name s.llvm
          → fix_functions api builder es fs replace s ≡ (ok r, t)
          → IsFixed api same laws IsLocal flags w name t.llvm
      unfolding fix_functions ◌>>=◌
      later-IsFixed [] replace s t r hidden named fixed e =
          subst (λ q. IsFixed api same laws IsLocal flags w name q.1.llvm) e fixed
      later-IsFixed (f ∷ fs) replace s t r hidden named fixed e =
          let (replace', s1, e1, rest) = >>=-eq-ok (fix_function api builder es f replace) _ s e in
          let named1 : Named api same laws IsLocal flags w name s1.llvm =
            subst (λ q. Named api same laws IsLocal flags w name q.1.llvm) e1
              ((Keeps-Named api same laws IsLocal flags w name builder f es replace).at s named) in
          later-IsFixed fs replace' s1 t r hidden named1 (here f replace' s1 e1) rest
        where
          here :
              (f : Ref) (replace' : Replacements) (s1 : Sanitizer L)
              → fix_function api builder es f replace s ≡ (ok replace', s1)
              → IsFixed api same laws IsLocal flags w name s1.llvm
          here f replace' s1 e1 = elim (Bool-cases (w == f)) [
            | inl same ↦
                let same' : f ≡ w = ground arith in
                turn-IsFixed replace s s1 replace' hidden named (
                  subst (λ g. fix_function api builder es g replace s ≡ (ok replace', s1)) same' e1)
            | inr other ↦
                subst (λ q. IsFixed api same laws IsLocal flags w name q.1.llvm) e1
                  ((Keeps-fix_function api (IsFixed api same laws IsLocal flags w name)
                      (Stable-IsFixed api same laws IsLocal flags w name) f
                      (λ q l.
                        moved api same laws IsLocal flags w name l _
                          (ground
                            (arith, other, laws.subprogram-set f (api.value_as_metadata q) l w))
                          (flags.local-set f _ l))
                      builder es replace).at
                    s fixed)
          ]

      fix_functions-IsFixed :
          (fs : List Ref) (replace : Replacements) (s t : Sanitizer L) (r : Replacements)
          → exports es name ≡ false
          → Named api same laws IsLocal flags w name s.llvm
          → Among w fs
          → fix_functions api builder es fs replace s ≡ (ok r, t)
          → IsFixed api same laws IsLocal flags w name t.llvm
      unfolding fix_functions ◌>>=◌
      fix_functions-IsFixed [] replace s t r hidden named among e = elim among [ ]
      fix_functions-IsFixed (f ∷ fs) replace s t r hidden named among e =
          let (replace', s1, e1, rest) = >>=-eq-ok (fix_function api builder es f replace) _ s e in
          let named1 : Named api same laws IsLocal flags w name s1.llvm =
            subst (λ q. Named api same laws IsLocal flags w name q.1.llvm) e1
              ((Keeps-Named api same laws IsLocal flags w name builder f es replace).at s named) in
          elim among [
            | inr later ↦ fix_functions-IsFixed fs replace' s1 t r hidden named1 later rest
            | inl here ↦
                later-IsFixed fs replace' s1 t r hidden named1
                  (turn-IsFixed replace s s1 replace' hidden named (
                    subst (λ g. fix_function api builder es g replace s ≡ (ok replace', s1))
                      (sym here) e1))
                  rest
          ]

    -- Where the pass over the functions returns, a function of the module whose name is not exported
    -- has no subprogram, or one that is local to its unit.
    pub fix_subprogram_linkage_local :
        (es : List Text) (functions : L → Ref → List Ref) (s t : Sanitizer L) (r : Replacements)
        → exports es name ≡ false
        → api.value_name s.llvm w ≡ some name
        → Among w (functions s.llvm s.module_ref)
        → fix_subprogram_linkage api functions es s ≡ (ok r, t)
        → (api.get_subprogram t.llvm w ≡ 0) ⊎ IsLocal t.llvm (api.get_subprogram t.llvm w)
    unfolding fix_subprogram_linkage
    fix_subprogram_linkage_local es functions s t r hidden named among e =
        fix_functions-IsFixed es s.builder (functions s.llvm s.module_ref) [] s t r hidden named
          among e
