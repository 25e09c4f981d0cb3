-- ===== src/Di/Visit/Marks.antt =====
-- The visited set: what the traversal puts there.
use bpf_linker.Prelude.{
  ◌⊎◌, ◌∙◌, ℕ, zero, suc, ◌≡◌, refl, sym, subst, inl, inr, Bool-cases, false, List, [], ◌∷◌, arith,
  ◌==◌, All,
}
use bpf_linker.Outcome.{ok, abort, ◌>>=◌, ◌>>◌, >>=-eq-ok}
use bpf_linker.Types.Api.{Ref, Api}
use bpf_linker.Di.Names.{DefaultHasher}
use bpf_linker.Di.Sanitizer.{Sanitizer, Visit, contains}
use bpf_linker.Di.Visit.{
  Item, value_ref, is_operand, Blocks, first_visit, visit_all, visit_value, visit_with, visit_item,
}
use bpf_linker.Di.Visit.Grows.{Visited, Grows, Grows-visit_all, after_first, Grows-visit_item}

-- Where the action returns, the address has been visited.
pub record Marks {L A : Type 0} (id : Ref) (m : Visit L A) : Type 0 where
  pub at : (s t : Sanitizer L) (a : A) → m s ≡ (ok a, t) → Visited id t

module _ {L A B : Type 0} {id : Ref} where
  -- The address is visited in the first action, or in every one that may follow.
  pub Marks-first :
      (m : Visit L A) (f : A → Visit L B)
      → Marks id m
      → ((a : A) → Grows id (f a))
      → Marks id (m >>= f)
  Marks-first m f km kf = record {
    at = λ s t b h.
        let (a, s', e, rest) = >>=-eq-ok m f s h in
        subst (λ r. Visited id r.1) rest ((kf a).at s' (km.at s s' a e));
  }

  pub Marks-rest :
      (m : Visit L A) (f : A → Visit L B) → ((a : A) → Marks id (f a)) → Marks id (m >>= f)
  Marks-rest m f kf = record {
    at = λ s t b h. let (a, s', e, rest) = >>=-eq-ok m f s h in (kf a).at s' t b rest;
  }

module _ {L : Type 0} (hasher : DefaultHasher) (api : Api L) (blocks : Blocks L) (id : Ref) where
  Marks-first_visit : Marks id (first_visit hasher api blocks id)
  unfolding first_visit
  Marks-first_visit = record {
    at = λ s t a h. elim (Bool-cases (contains id s.visited_nodes)) [
      | inl e ↦ subst (λ r. Visited id r.1) (rw e at h) e
      | inr e ↦ subst (λ r. Visited id r.1) (rw e at h) (ground arith)
    ];
  }

  Marks-abort : {A : Type 0} → Marks {L = L} {A = A} id abort
  unfolding ◌>>=◌
  Marks-abort = record { at = λ s t a h. cc }

  Marks-skip : {A B : Type 0} (m : Visit L A) (k : Visit L B) → Marks id k → Marks id (m >> k)
  unfolding ◌>>◌ ◌>>=◌
  Marks-skip m k kk = Marks-rest m (λ _. k) (λ _. kk)

  module _ (fuel : ℕ) (item : Item) (e : value_ref item ≡ id) where
    Marks-visit_value :
        Marks id (visit_value hasher api blocks (visit_item hasher api blocks fuel) item)
    unfolding visit_value
    Marks-visit_value = Marks-rest _ _ λ value. Marks-skip _ _ (
        Marks-first _ _
          (subst (λ r. Marks id (first_visit hasher api blocks r)) (sym e) Marks-first_visit)
          λ first.
            after_first hasher api blocks id _ (Grows-visit_item hasher api blocks id fuel) item
              value first)

    Marks-visit_with :
        is_operand item ≡ false
        → Marks id (visit_with hasher api blocks (visit_item hasher api blocks fuel) item)
    unfolding visit_with
    Marks-visit_with plain = elim (Bool-cases (value_ref item == 0)) [
      | inl z ↦ rw (z, plain) Marks-abort
      | inr z ↦ rw z Marks-visit_value
    ]

  Leads-visit_with :
      (fuel : ℕ) (item : Item) (s t : Sanitizer L)
      → value_ref item ≡ id
      → visit_with hasher api blocks (visit_item hasher api blocks fuel) item s ≡ (ok tt, t)
      → (id ≡ 0) ⊎ Visited id t
  unfolding visit_with ◌>>=◌
  Leads-visit_with fuel item s t e h = elim (Bool-cases (value_ref item == 0)) [
    | inl z ↦ let null : value_ref item ≡ 0 = ground arith in inl (sym e ∙ null)
    | inr z ↦ inr ((Marks-visit_value fuel item e).at s t tt (rw z at h))
  ]

  -- Where the visit of an item returns, its value is null or has been visited.
  pub Leads-visit_item :
      (fuel : ℕ) (item : Item) (s t : Sanitizer L)
      → value_ref item ≡ id
      → visit_item hasher api blocks fuel item s ≡ (ok tt, t)
      → (id ≡ 0) ⊎ Visited id t
  unfolding visit_item ◌>>=◌
  Leads-visit_item zero item s t e h = cc
  Leads-visit_item (suc fuel) item s t e h = Leads-visit_with fuel item s t e h

  pub Marks-visit_item :
      (fuel : ℕ) (item : Item)
      → value_ref item ≡ id
      → is_operand item ≡ false
      → Marks id (visit_item hasher api blocks fuel item)
  unfolding visit_item ◌>>=◌
  Marks-visit_item zero item e plain = record { at = λ s t a h. cc }
  Marks-visit_item (suc fuel) item e plain = Marks-visit_with fuel item e plain

module _ {L : Type 0} (hasher : DefaultHasher) (api : Api L) (blocks : Blocks L) where
  pub visit_all-marks :
      (fuel : ℕ) (items : List Item) (s t : Sanitizer L)
      → All (λ item. is_operand item ≡ false) items
      → visit_all hasher api blocks (visit_item hasher api blocks fuel) items s ≡ (ok tt, t)
      → All (λ item. Visited (value_ref item) t) items
  unfolding visit_all ◌>>◌ ◌>>=◌
  visit_all-marks fuel [] s t plain h = tt
  visit_all-marks fuel (item ∷ items) s t plain h =
      let visit = visit_item hasher api blocks fuel in
      let (u, s', e, rest) =
        >>=-eq-ok (visit item) (λ _. visit_all hasher api blocks visit items) s h in
      let id = value_ref item in
      let first = (Marks-visit_item hasher api blocks id fuel item refl plain.0).at s s' u e in
      let kept =
        (Grows-visit_all hasher api blocks id visit (Grows-visit_item hasher api blocks id fuel)
            items).at
          s' first in
      (subst (λ r. Visited id r.1) rest kept, visit_all-marks fuel items s' t plain.1 rest)
