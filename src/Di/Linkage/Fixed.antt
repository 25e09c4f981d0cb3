-- ===== src/Di/Linkage/Fixed.antt =====
-- The loop of `fix_subprogram_linkage` and what is live.
use mathlib.Core.Option.{none-ne-some, some-injective}
use bpf_linker.Prelude.{
  refl, Option-cases, ◌≡◌, sym, subst, inl, inr, Bool-cases, Option, none, some, List, [], ◌∷◌,
  ◌++◌, ◌==◌, arith, All, All-mono, All-append, Text,
}
use bpf_linker.Outcome.{Outcome, ok, pure, ◌>>=◌, >>=-eq-ok}
use bpf_linker.Types.Api.{Ref, Api}
use bpf_linker.Types.Ir.{function_subprogram}
use bpf_linker.Types.Laws.{MetadataLaws}
use bpf_linker.Types.Live.{LiveLaws}
use bpf_linker.Di.Sanitizer.{Sanitizer, Stop, get, reading}
use bpf_linker.Di.Linkage.{
  exports, localize, insert_found, insert_new, Replacements, fix_subprogram, fix_function,
  fix_functions, fix_subprogram_linkage,
}
use bpf_linker.Di.Linkage.Live.{BuilderLaws, localize-Alive}

module _ {L : Type 0} (api : Api L) (instructions : L → Ref → List Ref) (IsLive : L → Ref → Type 0)
    (laws : MetadataLaws api) (live : LiveLaws api instructions IsLive)
    (builds : BuilderLaws api IsLive) where
  module _ (home : Ref) where
    -- What is live in one state is live in the other, and the new subprograms are live in it.
    pub record Fixed (s t : Sanitizer L) (r : Replacements) : Type 0 where
      pub home_same : t.module_ref ≡ home
      pub kept : (w : Ref) → IsLive s.llvm w → IsLive t.llvm w
      pub made : All (λ e. IsLive t.llvm (api.metadata_as_value e.1)) r

    abbrev FixedBy : Sanitizer L → Outcome Stop Replacements → Sanitizer L → Type 0
    FixedBy s (ok r) t = Fixed s t r
    FixedBy s _ t = Unit

    -- The action only returns what it is given.
    Fixed-pure :
        (s t u : Sanitizer L) (r r' : Replacements)
        → Fixed s t r
        → pure {E = Stop} r t ≡ (ok r', u)
        → Fixed s u r'
    unfolding ◌>>=◌
    Fixed-pure s t u r r' h e = subst (λ q. FixedBy s q.0 q.1) e h

    Fixed-trans :
        (s t u : Sanitizer L) (r r' : Replacements) → Fixed s t r → Fixed t u r' → Fixed s u r'
    Fixed-trans s t u r r' p q = record {
      home_same = q.home_same;
      kept = λ w h. q.kept w (p.kept w h);
      made = q.made;
    }

    insert_found-Fixed :
        (replace : Replacements) (key m : Ref) (found : Option Ref) (s t u : Sanitizer L)
        (r : Replacements)
        → Fixed s t replace
        → IsLive t.llvm (api.metadata_as_value m)
        → insert_found api replace key m found t ≡ (ok r, u)
        → Fixed s u r
    unfolding insert_found ◌>>=◌
    insert_found-Fixed replace key m none s t u r h alive e =
        Fixed-pure s t u (replace ++ (key, m) ∷ []) r
          (record {
            home_same = h.home_same;
            kept = h.kept;
            made = All-append _ replace ((key, m) ∷ []) h.made (alive, tt);
          })
          e
    insert_found-Fixed replace key m (some old) s t u r h alive e = cc

    fix_subprogram-Fixed :
        (builder f : Ref) (replace : Replacements) (found : Option Ref) (s t : Sanitizer L)
        (r : Replacements)
        → Fixed s s replace
        → ((sub : Ref) → found ≡ some sub → IsLive s.llvm sub)
        → fix_subprogram api builder f replace found s ≡ (ok r, t)
        → Fixed s t r
    unfolding fix_subprogram insert_new
    fix_subprogram-Fixed builder f replace none s t r h sub_live e = Fixed-pure s s t replace r h e
    fix_subprogram-Fixed builder f replace (some sub) s t r h sub_live e =
        let (new_program, s1, e1, rest) = >>=-eq-ok (localize api builder f sub) _ s e in
        let alive = sub_live sub refl in
        let after = λ (w : Ref) (k : IsLive s.llvm w).
          localize-Alive api instructions IsLive laws live builds home w builder f sub s s1
            new_program (h.home_same, (k, tt)) alive e1 in
        let same = sym (laws.metadata_of_value new_program) in
        insert_found-Fixed replace sub (api.value_as_metadata new_program) (get sub replace) s s1 t
          r
          (record {
            home_same = (after sub alive).0.0;
            kept = λ w k. (after w k).0.1.0;
            made = All-mono _ _ (λ x k. (after (api.metadata_as_value x.1) k).0.1.0) replace h.made;
          })
          (subst (IsLive s1.llvm) same (after sub alive).1) rest

    -- A function's subprogram is live.
    found_live :
        (l : L) (f sub : Ref) → IsLive l f → function_subprogram api l f ≡ some sub → IsLive l sub
    found_live l f sub alive e = elim (Bool-cases (api.get_subprogram l f == 0)) [
      | inl null ↦ absurd (none-ne-some sub (rw null at e))
      | inr found ↦ elim (builds.live-subprogram l f alive) [
        | inl null ↦ absurd (ground (arith, null, found))
        | inr here ↦ subst (IsLive l) (some-injective _ _ (rw found at e)) here
      ]
    ]

    fix_function-Fixed :
        (builder : Ref) (es : List Text) (f : Ref) (replace : Replacements) (s t : Sanitizer L)
        (r : Replacements)
        → Fixed s s replace
        → IsLive s.llvm f
        → fix_function api builder es f replace s ≡ (ok r, t)
        → Fixed s t r
    unfolding fix_function reading ◌>>=◌
    fix_function-Fixed builder es f replace s t r h alive e =
        elim (Option-cases (api.value_name s.llvm f)) [
          | inl none_there ↦ let stops = (rw none_there at e) in cc
          | inr (name, named) ↦ elim (Bool-cases (exports es name)) [
            | inl skip ↦ Fixed-pure s s t replace r h (rw (named, skip) at e)
            | inr fix ↦
                fix_subprogram-Fixed builder f replace (function_subprogram api s.llvm f) s t r h
                  (λ sub. found_live s.llvm f sub alive) (rw (named, fix) at e)
          ]
        ]

    fix_functions-Fixed :
        (builder : Ref) (es : List Text) (fs : List Ref) (replace : Replacements)
        (s t : Sanitizer L) (r : Replacements)
        → Fixed s s replace
        → All (IsLive s.llvm) fs
        → fix_functions api builder es fs replace s ≡ (ok r, t)
        → Fixed s t r
    unfolding fix_functions
    fix_functions-Fixed builder es [] replace s t r h alive e = Fixed-pure s s t replace r h e
    fix_functions-Fixed builder es (f ∷ fs) replace s t r h alive e =
        let (replace', s1, e1, rest) = >>=-eq-ok (fix_function api builder es f replace) _ s e in
        let first = fix_function-Fixed builder es f replace s s1 replace' h alive.0 e1 in
        let again : Fixed s1 s1 replace' = record {
          home_same = first.home_same;
          kept = λ w k. k;
          made = first.made;
        } in
        Fixed-trans s s1 t replace' r first (
          fix_functions-Fixed builder es fs replace' s1 t r again
            (All-mono _ _ first.kept fs alive.1) rest)

  -- The whole pass over the functions of a module that is live.
  pub fix_subprogram_linkage-Fixed :
      (functions : L → Ref → List Ref) (es : List Text) (s t : Sanitizer L) (r : Replacements)
      → All (IsLive s.llvm) (functions s.llvm s.module_ref)
      → fix_subprogram_linkage api functions es s ≡ (ok r, t)
      → Fixed s.module_ref s t r
  unfolding fix_subprogram_linkage
  fix_subprogram_linkage-Fixed functions es s t r alive e =
      fix_functions-Fixed s.module_ref s.builder es (functions s.llvm s.module_ref) [] s t r
        (record { home_same = refl; kept = λ w k. k; made = tt }) alive e
