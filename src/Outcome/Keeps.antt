-- ===== src/Outcome/Keeps.antt =====
-- Actions that keep a property of the state, on every way they end. One rule for each way to build
-- an action.
use bpf_linker.Prelude.{Bool, true, false, Option, none, some, if◌then◌else◌}
use bpf_linker.Outcome.{
  Outcome, ok, err, panic, Exec, pure, fail, abort, unwrap, lift, assert, call, read, modify,
  continue, map_err, ◌>>=◌, ◌>>◌,
}

pub record Keeps {S E A : Type 0} (P : S → Type 0) (m : Exec S E A) : Type 0 where
  pub at : (s : S) → P s → P (m s).1

module _ {S E A B : Type 0} {P : S → Type 0} where
  pub Keeps-continue :
      (r : Outcome E A) (f : A → Exec S E B) (s : S)
      → P s
      → ((a : A) → Keeps P (f a))
      → P (continue r f s).1
  Keeps-continue (ok a) f s h kf = (kf a).at s h
  Keeps-continue (err e) f s h kf = h
  Keeps-continue panic f s h kf = h

  pub Keeps-bind :
      (m : Exec S E A) (f : A → Exec S E B)
      → Keeps P m
      → ((a : A) → Keeps P (f a))
      → Keeps P (m >>= f)
  unfolding ◌>>=◌
  Keeps-bind m f km kf = record { at = λ s h. Keeps-continue (m s).0 f (m s).1 (km.at s h) kf }

  pub Keeps-then : (m : Exec S E A) (k : Exec S E B) → Keeps P m → Keeps P k → Keeps P (m >> k)
  unfolding ◌>>◌ ◌>>=◌
  Keeps-then m k km kk = Keeps-bind m (λ _. k) km (λ _. kk)

module _ {S E A : Type 0} {P : S → Type 0} where
  pub Keeps-pure : (a : A) → Keeps {E = E} P (pure a)
  unfolding ◌>>=◌
  Keeps-pure a = record { at = λ s h. h }

  pub Keeps-fail : (e : E) → Keeps {A = A} P (fail e)
  unfolding ◌>>=◌
  Keeps-fail e = record { at = λ s h. h }

  pub Keeps-abort : Keeps {E = E} {A = A} P abort
  unfolding ◌>>=◌
  Keeps-abort = record { at = λ s h. h }

  pub Keeps-unwrap : (o : Option A) → Keeps {E = E} P (unwrap o)
  unfolding ◌>>=◌
  Keeps-unwrap none = record { at = λ s h. h }
  Keeps-unwrap (some a) = record { at = λ s h. h }

  pub Keeps-lift : (r : Outcome E A) → Keeps P (lift r)
  unfolding ◌>>=◌
  Keeps-lift r = record { at = λ s h. h }

  pub Keeps-read : (f : S → A) → Keeps {E = E} P (read f)
  unfolding ◌>>=◌
  Keeps-read f = record { at = λ s h. h }

  pub Keeps-call : (f : S → A × S) → ((s : S) → P s → P (f s).1) → Keeps {E = E} P (call f)
  unfolding ◌>>=◌
  Keeps-call f k = record { at = k }

  pub Keeps-if :
      (b : Bool) (m k : Exec S E A) → Keeps P m → Keeps P k → Keeps P (if b then m else k)
  Keeps-if true m k km kk = km
  Keeps-if false m k km kk = kk

module _ {S E : Type 0} {P : S → Type 0} where
  pub Keeps-modify : (f : S → S) → ((s : S) → P s → P (f s)) → Keeps {E = E} P (modify f)
  unfolding ◌>>=◌
  Keeps-modify f k = record { at = k }

  pub Keeps-assert : (b : Bool) → Keeps {E = E} P (assert b)
  unfolding ◌>>=◌
  Keeps-assert true = record { at = λ s h. h }
  Keeps-assert false = record { at = λ s h. h }

pub Keeps-map_err :
    {S E F A : Type 0} {P : S → Type 0} (f : E → F) (m : Exec S E A)
    → Keeps P m
    → Keeps P (map_err f m)
unfolding map_err
Keeps-map_err f m km = record { at = km.at }

pub ruleset keeps_rules = (
  Keeps-bind, Keeps-then, Keeps-pure, Keeps-fail, Keeps-abort, Keeps-unwrap, Keeps-lift, Keeps-read,
  Keeps-call, Keeps-if, Keeps-modify, Keeps-assert, Keeps-map_err,
)
