-- ===== src/Di/Sort/Laws.antt =====
-- The order of sorted lists, and their elements.
use mathlib.Core.List.{Perm}
use mathlib.Core.List.Perm
use bpf_linker.Prelude.{
  ℕ, ◌≤◌, ◌≡◌, refl, inl, inr, List, [], ◌∷◌, leb, ◌==◌, if◌then◌else◌, arith, All, Bool-cases,
  leb→le,
}
use bpf_linker.Di.Sort.{insert, sort_by_key}

module _ {ℓ} {A : Type ℓ} (key : A → ℕ) where
  -- Each key is at most every later one.
  abbrev pub IsSorted : List A → Type 0
  IsSorted [] = Unit
  IsSorted (x ∷ xs) = All (λ y. key x ≤ key y) xs × IsSorted xs

  -- The elements with one key, in their order.
  abbrev pub with_key : ℕ → List A → List A
  with_key k [] = []
  with_key k (x ∷ xs) = if key x == k then x ∷ with_key k xs else with_key k xs

  All-insert {κ} : (P : A → Type κ) (x : A) (xs : List A) → P x → All P xs → All P (insert key x xs)
  unfolding insert
  All-insert P x [] h hs = (h, tt)
  All-insert P x (y ∷ ys) h hs = elim (Bool-cases (leb (key x) (key y))) [
    | inl e ↦ rw e (h, hs)
    | inr e ↦ rw e (hs.0, All-insert P x ys h hs.1)
  ]

  pub All-sort_by_key {κ} : (P : A → Type κ) (xs : List A) → All P xs → All P (sort_by_key key xs)
  unfolding sort_by_key
  All-sort_by_key P [] h = tt
  All-sort_by_key P (x ∷ xs) h = All-insert P x (sort_by_key key xs) h.0 (All-sort_by_key P xs h.1)

  All-mono : (m n : ℕ) (xs : List A) → m ≤ n → All (λ y. n ≤ key y) xs → All (λ y. m ≤ key y) xs
  All-mono m n [] h hs = tt
  All-mono m n (x ∷ xs) h hs = (omega arith, All-mono m n xs h hs.1)

  IsSorted-insert : (x : A) (xs : List A) → IsSorted xs → IsSorted (insert key x xs)
  unfolding insert
  IsSorted-insert x [] h = (tt, tt)
  IsSorted-insert x (y ∷ ys) h = elim (Bool-cases (leb (key x) (key y))) [
    | inl e ↦ rw e ((leb→le _ _ e, All-mono (key x) (key y) ys (leb→le _ _ e) h.0), h)
    | inr e ↦
        rw e (All-insert (λ z. key y ≤ key z) x ys (ground arith) h.0, IsSorted-insert x ys h.1)
  ]

  pub IsSorted-sort_by_key : (xs : List A) → IsSorted (sort_by_key key xs)
  unfolding sort_by_key
  IsSorted-sort_by_key [] = tt
  IsSorted-sort_by_key (x ∷ xs) = IsSorted-insert x (sort_by_key key xs) (IsSorted-sort_by_key xs)

  perm-insert : (x : A) (xs : List A) → Perm (insert key x xs) (x ∷ xs)
  unfolding insert
  perm-insert x [] = Perm.refl _
  perm-insert x (y ∷ ys) = elim (Bool-cases (leb (key x) (key y))) [
    | inl e ↦ rw e (Perm.refl _)
    | inr e ↦ rw e (Perm.trans (Perm.cons y (perm-insert x ys)) (Perm.swap _ _ _))
  ]

  pub perm-sort_by_key : (xs : List A) → Perm (sort_by_key key xs) xs
  unfolding sort_by_key
  perm-sort_by_key [] = Perm.refl _
  perm-sort_by_key (x ∷ xs) =
      Perm.trans (perm-insert x (sort_by_key key xs)) (Perm.cons x (perm-sort_by_key xs))

  with_key-insert :
      (k : ℕ) (x : A) (xs : List A) → with_key k (insert key x xs) ≡ with_key k (x ∷ xs)
  unfolding insert
  with_key-insert k x [] = refl
  with_key-insert k x (y ∷ ys) = ground (arith, with_key-insert k x ys)

  pub with_key-sort_by_key : (k : ℕ) (xs : List A) → with_key k (sort_by_key key xs) ≡ with_key k xs
  unfolding sort_by_key
  with_key-sort_by_key k [] = refl
  with_key-sort_by_key k (x ∷ xs) =
      rw (with_key-insert k x (sort_by_key key xs), with_key-sort_by_key k xs)
