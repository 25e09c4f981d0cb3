-- ===== src/Outcome.antt =====
-- How a call of the program ends: with a value, with an error (`Result::Err`) or with a panic
-- (`unwrap`, `expect`, `panic!`, `assert!`, an index out of range). `Exec` is code that changes a
-- state on the way: what was done before an error stays done.
pub mod Keeps
use bpf_linker.Prelude.{◌≡◌, refl, Bool, true, false, Option, none, some}

pub data Outcome {ℓ} (E A : Type ℓ) : Type ℓ where
  ok : A → Outcome E A
  err : E → Outcome E A
  panic : Outcome E A

abbrev pub Exec {ℓ} : Type ℓ → Type ℓ → Type ℓ → Type ℓ
Exec S E A = S → Outcome E A × S

module _ {ℓ} {S E A : Type ℓ} where
  unfoldable pub pure : A → Exec S E A
  pure a s = (ok a, s)

  unfoldable pub fail : E → Exec S E A
  fail e s = (err e, s)

  unfoldable pub abort : Exec S E A
  abort s = (panic, s)

  -- A foreign call that changes the state.
  unfoldable pub call : (S → A × S) → Exec S E A
  call f s = let (a, s') = f s in (ok a, s')

  -- A foreign call that only reads it.
  unfoldable pub read : (S → A) → Exec S E A
  read f s = (ok (f s), s)

  -- `Option::unwrap`.
  unfoldable pub unwrap : Option A → Exec S E A
  unwrap none s = (panic, s)
  unwrap (some a) s = (ok a, s)

  unfoldable pub lift : Outcome E A → Exec S E A
  lift r s = (r, s)

-- A foreign call for its effect.
unfoldable pub modify : {S E : Type 0} → (S → S) → Exec S E Unit
modify f s = (ok tt, f s)

-- `assert!`.
unfoldable pub assert : {S E : Type 0} → Bool → Exec S E Unit
assert true s = (ok tt, s)
assert false s = (panic, s)

module _ {ℓ} {S E A B : Type ℓ} where
  abbrev pub continue : Outcome E A → (A → Exec S E B) → Exec S E B
  continue (ok a) f s = f a s
  continue (err e) f s = (err e, s)
  continue panic f s = (panic, s)

  infixl 10 ◌>>=◌ ◌>>◌
  -- Opening this opens the calls above too.
  unfoldable pub ◌>>=◌ : Exec S E A → (A → Exec S E B) → Exec S E B
  unfolding pure fail abort call read unwrap lift modify assert
  ◌>>=◌ m f s = let (r, s') = m s in continue r f s'

  unfoldable pub ◌>>◌ : Exec S E A → Exec S E B → Exec S E B
  unfolding ◌>>=◌
  ◌>>◌ m k s = let (r, s') = m s in continue r (λ _. k) s'

abbrev pub convert {ℓ} : {E F A : Type ℓ} → (E → F) → Outcome E A → Outcome F A
convert f (ok a) = ok a
convert f (err e) = err (f e)
convert f panic = panic

-- `Result::map_err`.
unfoldable pub map_err {ℓ} : {S E F A : Type ℓ} → (E → F) → Exec S E A → Exec S F A
map_err f m s = let (r, s') = m s in (convert f r, s')

module _ {ℓ} {S E A B : Type ℓ} where
  continue-eq-ok :
      (r : Outcome E A) (f : A → Exec S E B) (s : S) {b : B} {t : S}
      → continue r f s ≡ (ok b, t)
      → (a : A) × (r ≡ ok a) × (f a s ≡ (ok b, t))
  continue-eq-ok (ok a) f s h = (a, refl, h)
  continue-eq-ok (err e) f s h = cc
  continue-eq-ok panic f s h = cc

  -- Inversion of a sequence that returned.
  pub >>=-eq-ok :
      (m : Exec S E A) (f : A → Exec S E B) (s : S) {b : B} {t : S}
      → (m >>= f) s ≡ (ok b, t)
      → (a : A) × (s' : S) × (m s ≡ (ok a, s')) × (f a s' ≡ (ok b, t))
  unfolding ◌>>=◌
  >>=-eq-ok m f s h =
      let (a, e, rest) = continue-eq-ok (m s).0 f (m s).1 h in
      (a, (m s).1, λ i. (e i, (m s).1), rest)
