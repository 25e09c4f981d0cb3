-- ===== src/Di/Linkage/Total.antt =====
-- Actions of the sanitizer that return from every state, and `localize` for a subprogram that is
-- described.
use bpf_linker.Prelude.{
  ◌≡◌, refl, inl, inr, Bool-cases, Bool, true, false, Option, none, some, [], ◌==◌, arith, Text,
}
use bpf_linker.Outcome.{Outcome, ok, err, panic, pure, continue, ◌>>=◌, ◌>>◌}
use bpf_linker.Types.Api.{Ref, Api}
use bpf_linker.Types.Ir.{set_function_subprogram}
use bpf_linker.Types.Di.{
  checked_string, unit, retained_nodes, set_unit, set_retained_nodes, scope_operand,
}
use bpf_linker.Types.Text.{TextOrNull}
use bpf_linker.Di.Sanitizer.{Sanitizer, Stop, Visit, reading, changing, calling}
use bpf_linker.Di.Linkage.{set_optional, create_local, localize}
use bpf_linker.Di.Linkage.Extends.{Described}

-- An action that returns from every state.
record Total {L A : Type 0} (m : Visit L A) : Type 0 where
  at : (s : Sanitizer L) → (a : A) × ((m s).0 ≡ ok a)

module _ {L A B : Type 0} where
  Total-continue :
      (r : Outcome Stop A) (f : A → Visit L B) (s : Sanitizer L) (a : A)
      → r ≡ ok a
      → ((a : A) → Total (f a))
      → (b : B) × ((continue r f s).0 ≡ ok b)
  Total-continue (ok a) f s _ e k = (k a).at s
  Total-continue (err x) f s a e k = cc
  Total-continue panic f s a e k = cc

  Total-bind :
      (m : Visit L A) (f : A → Visit L B) → Total m → ((a : A) → Total (f a)) → Total (m >>= f)
  unfolding ◌>>=◌
  Total-bind m f km kf = record {
    at = λ s. let (a, e) = km.at s in Total-continue (m s).0 f (m s).1 a e kf;
  }

  Total-then : (m : Visit L A) (k : Visit L B) → Total m → Total k → Total (m >> k)
  unfolding ◌>>◌ ◌>>=◌
  Total-then m k km kk = Total-bind m (λ _. k) km (λ _. kk)

module _ {L : Type 0} where
  Total-pure : {A : Type 0} (a : A) → Total {L = L} (pure a)
  unfolding ◌>>=◌
  Total-pure a = record { at = λ s. (a, refl) }

  Total-reading : {A : Type 0} (f : L → A) → Total (reading f)
  unfolding reading
  Total-reading f = record { at = λ s. (f s.llvm, refl) }

  Total-changing : (f : L → L) → Total (changing f)
  unfolding changing
  Total-changing f = record { at = λ s. (tt, refl) }

  Total-calling : {A : Type 0} (f : L → A × L) → Total (calling f)
  unfolding calling
  Total-calling f = record { at = λ s. ((f s.llvm).0, refl) }

abbrev returned : {A : Type 0} → Outcome Stop A → Bool
returned (ok a) = true
returned _ = false

value_of_returned : {A : Type 0} (r : Outcome Stop A) → returned r ≡ true → (a : A) × (r ≡ ok a)
value_of_returned (ok a) h = (a, refl)
value_of_returned (err e) h = cc
value_of_returned panic h = cc

ruleset total_rules =
    (Total-bind, Total-then, Total-pure, Total-reading, Total-changing, Total-calling)

module _ {L : Type 0} (api : Api L) where
  Total-set_optional : (set : Ref → L → L) (r : Option Ref) → Total (set_optional api set r)
  unfolding set_optional
  Total-set_optional set none = search total_rules
  Total-set_optional set (some r) = search total_rules

  checked_string_text :
      (l : L) (r : Ref)
      → TextOrNull api l r
      → (name : Option Text) × (checked_string api l r ≡ some name)
  checked_string_text l r (inl null) = let e : (r == 0) ≡ true = ground arith in (none, rw e refl)
  checked_string_text l r (inr (t, text)) = elim (Bool-cases (r == 0)) [
    | inl e ↦ (none, rw e refl)
    | inr e ↦ (some t, rw (e, text) refl)
  ]

  module _ (builder sub : Ref) (s : Sanitizer L) (d : Described api s.llvm sub) where
    create_local_returns : (r : Ref) × ((create_local api builder sub s).0 ≡ ok r)
    unfolding create_local reading calling changing ◌>>=◌ ◌>>◌
    create_local_returns =
        let named : (api.operand s.llvm sub 2 == 0) ≡ false = ground (arith, d.named) in
        let scoped : (api.operand s.llvm sub scope_operand == 0) ≡ false =
          ground (arith, d.scoped) in
        let (linkage, e) = checked_string_text s.llvm _ d.linkage in
        value_of_returned (create_local api builder sub s).0 (rw (named, d.name.1, e, scoped) refl)

    pub localize_returns :
        (f : Ref) → (r : Ref) × (t : Sanitizer L) × (localize api builder f sub s ≡ (ok r, t))
    unfolding localize ◌>>=◌
    localize_returns f =
        let (p, e) = create_local_returns in
        let (r, e') =
          Total-continue (create_local api builder sub s).0
            (λ new_program.
              changing (set_function_subprogram api f new_program)
              >> (reading (λ l. unit api l sub) >>= λ u.
                  set_optional api (set_unit api new_program) u
                  >> (reading (λ l. retained_nodes api l sub) >>= λ nodes.
                      set_optional api (set_retained_nodes api new_program) nodes
                      >> (calling (api.md_node_in_context []) >>= λ empty_node.
                          changing (set_retained_nodes api sub empty_node) >> pure new_program))))
            (create_local api builder sub s).1 p e
            (λ new_program. search (total_rules, Total-set_optional) depth 18) in
        (r, (localize api builder f sub s).1, λ i. (e' i, (localize api builder f sub s).1))
