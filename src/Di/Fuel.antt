-- ===== src/Di/Fuel.antt =====
-- How deep the traversal of llvm/di.rs goes: actions that do not run out of fuel and never take an
-- address out of the visited set. One rule for each way to build an action.
use bpf_linker.Prelude.{
  ℕ, zero, suc, ◌+◌, ◌≤◌, ◌<◌, ◌≡◌, refl, ap, ◌∙◌, Bool, true, false, Option, none, some, List, ◌∷◌,
  arith, if◌then◌else◌,
}
use bpf_linker.Outcome.{Outcome, ok, err, panic, Exec, pure, abort, unwrap, continue, ◌>>=◌, ◌>>◌}
use bpf_linker.Types.Ir.{NulError}
use bpf_linker.Di.Sanitizer.{
  Sanitizer, Stop, out_of_fuel, Visit, contains, reading, changing, calling, unwrapped, unwrapping,
}

-- The addresses below `n` that are not in the set.
abbrev pub unseen : ℕ → List ℕ → ℕ
unseen zero vs = 0
unseen (suc n) vs = unseen n vs + (if contains n vs then 0 else 1)

pub unseen-cons-le : (n v : ℕ) (vs : List ℕ) → unseen n (v ∷ vs) ≤ unseen n vs
unseen-cons-le zero v vs = omega arith
unseen-cons-le (suc n) v vs = ground (arith, unseen-cons-le n v vs)

pub unseen-cons-lt :
    (n v : ℕ) (vs : List ℕ) → v < n → contains v vs ≡ false → unseen n (v ∷ vs) < unseen n vs
unseen-cons-lt zero v vs h e = absurd (omega arith)
unseen-cons-lt (suc n) v vs h e = ground (arith, unseen-cons-le n v vs, unseen-cons-lt n v vs)

abbrev pub Within : {A : Type 0} → Outcome Stop A → Type 0
Within (ok a) = Unit
Within (err out_of_fuel) = ⊥
Within panic = Unit

-- From any state with at most `k` unseen addresses below `n` the action does not stop for want of
-- fuel, and no address leaves the visited set.
pub record Ends {L A : Type 0} (n k : ℕ) (m : Visit L A) : Type 0 where
  pub at :
      (s : Sanitizer L)
      → unseen n s.visited_nodes ≤ k
      → Within (m s).0 × (unseen n (m s).1.visited_nodes ≤ unseen n s.visited_nodes)

-- The action reads and changes LLVM and leaves the visited set alone.
pub record Quiet {L A : Type 0} (m : Visit L A) : Type 0 where
  pub at : (s : Sanitizer L) → Within (m s).0 × ((m s).1.visited_nodes ≡ s.visited_nodes)

module _ {L A B : Type 0} where
  Quiet-continue :
      (r : Outcome Stop A) (f : A → Visit L B) (s : Sanitizer L)
      → Within r
      → ((a : A) → Quiet (f a))
      → Within (continue r f s).0 × ((continue r f s).1.visited_nodes ≡ s.visited_nodes)
  Quiet-continue (ok a) f s h kf = (kf a).at s
  Quiet-continue (err out_of_fuel) f s h kf = absurd h
  Quiet-continue panic f s h kf = (tt, refl)

  pub Quiet-bind :
      (m : Visit L A) (f : A → Visit L B) → Quiet m → ((a : A) → Quiet (f a)) → Quiet (m >>= f)
  unfolding ◌>>=◌
  Quiet-bind m f km kf = record {
    at = λ s.
        let first = km.at s in
        let rest = Quiet-continue (m s).0 f (m s).1 first.0 kf in (rest.0, rest.1 ∙ first.1);
  }

  pub Quiet-then : (m : Visit L A) (k : Visit L B) → Quiet m → Quiet k → Quiet (m >> k)
  unfolding ◌>>◌ ◌>>=◌
  Quiet-then m k km kk = Quiet-bind m (λ _. k) km (λ _. kk)

  Ends-continue :
      (n k : ℕ) (r : Outcome Stop A) (f : A → Visit L B) (s : Sanitizer L)
      → Within r
      → unseen n s.visited_nodes ≤ k
      → ((a : A) → Ends n k (f a))
      → Within (continue r f s).0
        × (unseen n (continue r f s).1.visited_nodes ≤ unseen n s.visited_nodes)
  Ends-continue n k (ok a) f s h le kf = (kf a).at s le
  Ends-continue n k (err out_of_fuel) f s h le kf = absurd h
  Ends-continue n k panic f s h le kf = (tt, omega arith)

  pub Ends-bind :
      (n k : ℕ) (m : Visit L A) (f : A → Visit L B)
      → Ends n k m
      → ((a : A) → Ends n k (f a))
      → Ends n k (m >>= f)
  unfolding ◌>>=◌
  Ends-bind n k m f km kf = record {
    at = λ s le.
        let first = km.at s le in
        let rest = Ends-continue n k (m s).0 f (m s).1 first.0 (omega (arith, first.1)) kf in
        (rest.0, omega (arith, first.1, rest.1));
  }

  pub Ends-then :
      (n k : ℕ) (m : Visit L A) (l : Visit L B) → Ends n k m → Ends n k l → Ends n k (m >> l)
  unfolding ◌>>◌ ◌>>=◌
  Ends-then n k m l km kl = Ends-bind n k m (λ _. l) km (λ _. kl)

Within-unwrapped : {A : Type 0} (r : Outcome NulError A) → Within (unwrapped r)
Within-unwrapped (ok a) = tt
Within-unwrapped (err e) = tt
Within-unwrapped panic = tt

module _ {L A : Type 0} where
  pub Ends-of_Quiet : (n k : ℕ) (m : Visit L A) → Quiet m → Ends n k m
  Ends-of_Quiet n k m q = record {
    at = λ s le. ((q.at s).0, let e = (q.at s).1 in omega (arith, ap (unseen n) e));
  }

  pub Quiet-pure : (a : A) → Quiet {L = L} (pure a)
  unfolding ◌>>=◌
  Quiet-pure a = record { at = λ s. (tt, refl) }

  pub Quiet-abort : Quiet {L = L} {A = A} abort
  unfolding ◌>>=◌
  Quiet-abort = record { at = λ s. (tt, refl) }

  pub Quiet-unwrap : (o : Option A) → Quiet {L = L} (unwrap o)
  unfolding ◌>>=◌
  Quiet-unwrap none = record { at = λ s. (tt, refl) }
  Quiet-unwrap (some a) = record { at = λ s. (tt, refl) }

  pub Quiet-reading : (f : L → A) → Quiet (reading f)
  unfolding reading
  Quiet-reading f = record { at = λ s. (tt, refl) }

  pub Quiet-calling : (f : L → A × L) → Quiet (calling f)
  unfolding calling
  Quiet-calling f = record { at = λ s. (tt, refl) }

  pub Quiet-unwrapping : (m : Exec L NulError A) → Quiet (unwrapping m)
  unfolding unwrapping
  Quiet-unwrapping m = record { at = λ s. (Within-unwrapped (m s.llvm).0, refl) }

  pub Quiet-if : (b : Bool) (m l : Visit L A) → Quiet m → Quiet l → Quiet (if b then m else l)
  Quiet-if true m l km kl = km
  Quiet-if false m l km kl = kl

pub Quiet-changing : {L : Type 0} (f : L → L) → Quiet (changing f)
unfolding changing
Quiet-changing f = record { at = λ s. (tt, refl) }

pub ruleset quiet_rules = (
  Quiet-bind, Quiet-then, Quiet-pure, Quiet-abort, Quiet-unwrap, Quiet-reading, Quiet-calling,
  Quiet-unwrapping, Quiet-changing, Quiet-if,
)
