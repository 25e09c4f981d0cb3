-- ===== src/Di/Visit/Safe.antt =====
-- Actions of the sanitizer that do not panic, where the names of subprograms can be read. One rule
-- for each way to build an action.
use bpf_linker.Prelude.{◌≡◌}
use bpf_linker.Outcome.{Outcome, ok, err, panic, pure, continue, ◌>>=◌, ◌>>◌}
use bpf_linker.Types.Api.{Api}
use bpf_linker.Di.Sanitizer.{Sanitizer, Stop, Visit, reading}
use bpf_linker.Di.Node.Legible.{Fit}

module _ {L : Type 0} (api : Api L) where
  abbrev pub Ready : Sanitizer L → Type 0
  Ready s = Fit api s.replace_operands s.llvm

  -- No panic; and where the action returns, all is ready for the next one.
  abbrev pub Fares : {A : Type 0} → Outcome Stop A × Sanitizer L → Type 0
  Fares (ok a, t) = Ready t
  Fares (err e, t) = Unit
  Fares (panic, t) = ⊥

  pub record Safe {A : Type 0} (m : Visit L A) : Type 0 where
    pub at : (s : Sanitizer L) → Ready s → Fares (m s)

  pub Fares-ok :
      {A : Type 0} (r : Outcome Stop A × Sanitizer L) (a : A) → r.0 ≡ ok a → Ready r.1 → Fares r
  Fares-ok (ok b, t) a e h = h
  Fares-ok (err x, t) a e h = tt
  Fares-ok (panic, t) a e h = cc

  module _ {A B : Type 0} where
    Fares-continue :
        (r : Outcome Stop A) (f : A → Visit L B) (s : Sanitizer L)
        → Fares (r, s)
        → ((a : A) → Safe (f a))
        → Fares (continue r f s)
    Fares-continue (ok a) f s h kf = (kf a).at s h
    Fares-continue (err e) f s h kf = tt
    Fares-continue panic f s h kf = absurd h

    -- What follows is safe, wherever the first action has led.
    pub Fares-bind :
        (m : Visit L A) (f : A → Visit L B) (s : Sanitizer L)
        → Fares (m s)
        → ((a : A) → Safe (f a))
        → Fares ((m >>= f) s)
    unfolding ◌>>=◌
    Fares-bind m f s h kf = Fares-continue (m s).0 f (m s).1 h kf

    pub Fares-then :
        (m : Visit L A) (k : Visit L B) (s : Sanitizer L)
        → Fares (m s)
        → Safe k
        → Fares ((m >> k) s)
    unfolding ◌>>◌ ◌>>=◌
    Fares-then m k s h kk = Fares-bind m (λ _. k) s h (λ _. kk)

    pub Safe-bind :
        (m : Visit L A) (f : A → Visit L B) → Safe m → ((a : A) → Safe (f a)) → Safe (m >>= f)
    Safe-bind m f km kf = record { at = λ s h. Fares-bind m f s (km.at s h) kf }

    pub Safe-then : (m : Visit L A) (k : Visit L B) → Safe m → Safe k → Safe (m >> k)
    Safe-then m k km kk = record { at = λ s h. Fares-then m k s (km.at s h) kk }

    -- What follows a read may rely on what was read.
    pub Safe-reading :
        (f : L → A) (rest : A → Visit L B)
        → ((s : Sanitizer L) → Ready s → Fares (rest (f s.llvm) s))
        → Safe (reading f >>= rest)
    unfolding reading ◌>>=◌
    Safe-reading f rest k = record { at = k }

  pub Safe-pure : {A : Type 0} (a : A) → Safe (pure a)
  unfolding ◌>>=◌
  Safe-pure a = record { at = λ s h. h }
