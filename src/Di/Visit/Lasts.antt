-- ===== src/Di/Visit/Lasts.antt =====
-- Actions of the sanitizer that do not run out of fuel while what is left to visit stays within a
-- bound. One rule for each way to build an action.
use bpf_linker.Prelude.{ℕ, ◌≤◌, List, arith}
use bpf_linker.Outcome.{Outcome, ok, err, panic, pure, continue, ◌>>=◌, ◌>>◌}
use bpf_linker.Types.Api.{Ref, Api}
use bpf_linker.Di.Sanitizer.{Sanitizer, Stop, Visit, reading}
use bpf_linker.Di.Cost.{InBounds, left}

module _ {L : Type 0} (api : Api L) (instructions : L → Ref → List Ref) (frontier : L → ℕ)
    (c : ℕ) where
  -- At most `p` is left, and the frontier is at `f` or beyond.
  pub record Later (p f : ℕ) (s : Sanitizer L) : Type 0 where
    pub inside : InBounds api instructions frontier c s.replace_operands s.llvm
    pub less : left api instructions frontier c s.visited_nodes s.llvm ≤ p
    pub wider : f ≤ frontier s.llvm

  abbrev pub Lasting : {A : Type 0} → ℕ → ℕ → Outcome Stop A × Sanitizer L → Type 0
  Lasting p f (ok a, t) = Later p f t
  Lasting p f (err e, t) = ⊥
  Lasting p f (panic, t) = Unit

  pub record Lasts {A : Type 0} (p f : ℕ) (m : Visit L A) : Type 0 where
    pub at : (s : Sanitizer L) → Later p f s → Lasting p f (m s)

  pub Lasting-le :
      {A : Type 0} {p q f g : ℕ} (r : Outcome Stop A × Sanitizer L)
      → p ≤ q
      → g ≤ f
      → Lasting p f r
      → Lasting q g r
  Lasting-le (ok a, t) le ge h = record {
    inside = h.inside;
    less = omega (arith, h.less, le);
    wider = omega (arith, h.wider, ge);
  }
  Lasting-le (err e, t) le ge h = h
  Lasting-le (panic, t) le ge h = tt

  module _ {A B : Type 0} {p f : ℕ} where
    Lasting-continue :
        (r : Outcome Stop A) (g : A → Visit L B) (s : Sanitizer L)
        → Lasting p f (r, s)
        → ((a : A) → Lasts p f (g a))
        → Lasting p f (continue r g s)
    Lasting-continue (ok a) g s h kg = (kg a).at s h
    Lasting-continue (err e) g s h kg = h
    Lasting-continue panic g s h kg = tt

    pub Lasting-bind :
        (m : Visit L A) (g : A → Visit L B) (s : Sanitizer L)
        → Lasting p f (m s)
        → ((a : A) → Lasts p f (g a))
        → Lasting p f ((m >>= g) s)
    unfolding ◌>>=◌
    Lasting-bind m g s h kg = Lasting-continue (m s).0 g (m s).1 h kg

    pub Lasting-then :
        (m : Visit L A) (k : Visit L B) (s : Sanitizer L)
        → Lasting p f (m s)
        → Lasts p f k
        → Lasting p f ((m >> k) s)
    unfolding ◌>>◌ ◌>>=◌
    Lasting-then m k s h kk = Lasting-bind m (λ _. k) s h (λ _. kk)

    pub Lasts-then :
        (m : Visit L A) (k : Visit L B) → Lasts p f m → Lasts p f k → Lasts p f (m >> k)
    Lasts-then m k km kk = record { at = λ s h. Lasting-then m k s (km.at s h) kk }

    pub Lasts-reading :
        (g : L → A) (rest : A → Visit L B)
        → ((s : Sanitizer L) → Later p f s → Lasting p f (rest (g s.llvm) s))
        → Lasts p f (reading g >>= rest)
    unfolding reading ◌>>=◌
    Lasts-reading g rest k = record { at = k }

  pub Lasts-pure : {A : Type 0} {p f : ℕ} (a : A) → Lasts p f (pure a)
  unfolding ◌>>=◌
  Lasts-pure a = record { at = λ s h. h }
