-- ===== src/Llvm/Iter/Laws.antt =====
-- The items that a loop over an iterator sees, on a list that is linked as LLVM links it.
use bpf_linker.Prelude.{
  ℕ, zero, suc, ◌<◌, ◌≡◌, ◌≢◌, refl, ap, ◌∙◌, inl, inr, Bool-cases, true, false, none, some, List,
  [], ◌∷◌, length, arith, ◌==◌,
}
use bpf_linker.Outcome.{ok}
use bpf_linker.Types.Api.{Ref}
use bpf_linker.Llvm.Iter.{ListApi, iter, advance, prepend, follow, collect, elements_of}

module _ (api : ListApi) (end : Ref) where
  -- The elements from one on are linked by `get_next`, and only the last of them is `end`.
  abbrev pub Linked : Ref → List Ref → Type 0
  Linked r [] = r ≡ 0
  Linked r (x ∷ []) = (r ≡ x) × (x ≢ 0) × (x ≡ end) × (api.get_next x ≡ 0)
  Linked r (x ∷ y ∷ rest) =
      (r ≡ x) × (x ≢ 0) × (x ≢ end) × (y ≢ 0) × (api.get_next x ≡ y) × Linked y (y ∷ rest)

  advance-none : (r : Ref) → r ≡ 0 → advance api (record { next = r; last = end }) ≡ ok none
  unfolding advance
  advance-none r h = let test : (r == 0) ≡ true = ground arith in rw test refl

  -- One step: the assertion holds if the element is the last exactly where none follows.
  advance-some :
      (r n : Ref)
      → r ≢ 0
      → api.get_next r ≡ n
      → (n == 0) ≡ (r == end)
      → advance api (record { next = r; last = end })
        ≡ ok (some (r, record { next = n; last = end }))
  unfolding advance
  advance-some r n h e ends =
      let test : (r == 0) ≡ false = ground arith in
      rw (test, e, ends) (elim (Bool-cases (r == end)) [ inl b ↦ rw b refl | inr b ↦ rw b refl ])

  collect_lem :
      (fuel : ℕ) (r : Ref) (rs : List Ref)
      → length rs < fuel
      → Linked r rs
      → collect api fuel (record { next = r; last = end }) ≡ ok rs
  unfolding collect
  collect_lem zero r rs h linked = absurd (omega (arith, h))
  collect_lem (suc fuel) r [] h linked = ap (follow api (collect api fuel)) (advance-none r linked)
  collect_lem (suc fuel) r (x ∷ []) h linked =
      let step = advance-some r 0 (ground arith) (ground arith) (ground arith) in
      ap (follow api (collect api fuel)) step
      ∙ (ap (prepend api r) (collect_lem fuel 0 [] (ground arith) refl)
          ∙ ap (λ z. ok (z ∷ [])) linked.0)
  collect_lem (suc fuel) r (x ∷ y ∷ rest) h linked =
      let (e, nonnull, inner, more, next, linked') = linked in
      let step = advance-some r y (ground arith) (ground arith) (ground arith) in
      ap (follow api (collect api fuel)) step
      ∙ (ap (prepend api r) (collect_lem fuel y (y ∷ rest) (ground arith) linked')
          ∙ ap (λ z. ok (z ∷ y ∷ rest)) e)

  end-nonnull : (r x : Ref) (rest : List Ref) → Linked r (x ∷ rest) → end ≢ 0
  end-nonnull r x [] h z = h.1 (h.2 ∙ z)
  end-nonnull r x (y ∷ rest) h z = end-nonnull y y rest h.5 z

-- What LLVM keeps of a list: an empty one has neither a first nor a last element.
abbrev pub IsListOf : ListApi → Ref → List Ref → Type 0
IsListOf api container [] = (api.get_first container ≡ 0) × (api.get_last container ≡ 0)
IsListOf api container (x ∷ rest) =
    Linked api (api.get_last container) (api.get_first container) (x ∷ rest)

Linked-first :
    (api : ListApi) (end r x : Ref) (rest : List Ref) → Linked api end r (x ∷ rest) → r ≢ 0
Linked-first api end r x [] h = ground arith
Linked-first api end r x (y ∷ rest) h = ground arith

-- A loop over a list that is linked from its first element to its last sees all its elements, each
-- once and in their order, and no assertion of the iterator fails.
pub elements_of_lem :
    (api : ListApi) (container : Ref) (rs : List Ref) (fuel : ℕ)
    → length rs < fuel
    → IsListOf api container rs
    → elements_of api fuel container ≡ ok rs
unfolding elements_of iter
elements_of_lem api container [] fuel h (first, last) =
    rw (first, last) (collect_lem api 0 fuel 0 [] h refl)
elements_of_lem api container (x ∷ rest) fuel h linked =
    let start : (api.get_first container == 0) ≡ false =
      ground (arith, Linked-first api _ _ x rest linked) in
    let stop : (api.get_last container == 0) ≡ false =
      ground (arith, end-nonnull api _ _ x rest linked) in
    rw (start, stop)
      (collect_lem api (api.get_last container) fuel (api.get_first container) (x ∷ rest) h linked)
