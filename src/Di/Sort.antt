-- ===== src/Di/Sort.antt =====
-- `sort_by_cached_key` of the standard library: a stable sort by a key.
pub mod Laws
use bpf_linker.Prelude.{ℕ, Bool, List, [], ◌∷◌, leb, if◌then◌else◌}

module _ {ℓ} {A : Type ℓ} (key : A → ℕ) where
  -- Before the first element whose key is not smaller.
  pub insert : A → List A → List A
  insert x [] = x ∷ []
  insert x (y ∷ ys) = if leb (key x) (key y) then x ∷ y ∷ ys else y ∷ insert x ys

  unfoldable pub sort_by_key : List A → List A
  unfolding insert
  sort_by_key [] = []
  sort_by_key (x ∷ xs) = insert x (sort_by_key xs)
