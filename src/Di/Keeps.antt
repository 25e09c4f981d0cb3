-- ===== src/Di/Keeps.antt =====
-- The same for the sanitizer's actions, which work on LLVM's state inside their own.
use bpf_linker.Prelude.{◌≡◌, subst}
use bpf_linker.Outcome.{ok, Exec, ◌>>=◌, ◌>>◌, >>=-eq-ok}
use bpf_linker.Outcome.Keeps.{Keeps, keeps_rules}
use bpf_linker.Types.Ir.{NulError}
use bpf_linker.Di.Sanitizer.{Sanitizer, Visit, reading, changing, calling, unwrapping}

module _ {L : Type 0} {P : Sanitizer L → Type 0} where
  pub Keeps-reading : {A : Type 0} (f : L → A) → Keeps P (reading f)
  unfolding reading
  Keeps-reading f = record { at = λ s h. h }

  pub Keeps-changing :
      (f : L → L)
      → ((s : Sanitizer L) → P s → P (record s { llvm = f s.llvm }))
      → Keeps P (changing f)
  unfolding changing
  Keeps-changing f k = record { at = k }

  pub Keeps-calling :
      {A : Type 0} (f : L → A × L)
      → ((s : Sanitizer L) → P s → P (record s { llvm = (f s.llvm).1 }))
      → Keeps P (calling f)
  unfolding calling
  Keeps-calling f k = record { at = k }

  pub Keeps-unwrapping :
      {A : Type 0} (m : Exec L NulError A)
      → ((s : Sanitizer L) → P s → P (record s { llvm = (m s.llvm).1 }))
      → Keeps P (unwrapping m)
  unfolding unwrapping
  Keeps-unwrapping m k = record { at = k }

pub ruleset visit_rules =
    (keeps_rules, Keeps-reading, Keeps-changing, Keeps-calling, Keeps-unwrapping)

-- Where the action returns, `P` still holds and `Q` of what it returns.
pub record Gives {L A : Type 0} (P : Sanitizer L → Type 0) (Q : A → L → Type 0) (m : Visit L A)
    : Type 0 where
  pub at : (s t : Sanitizer L) (a : A) → P s → m s ≡ (ok a, t) → P t × Q a t.llvm

pub Gives-bind :
    {L A B : Type 0} {P : Sanitizer L → Type 0} {Q : B → L → Type 0} (m : Visit L A)
    (f : A → Visit L B)
    → Keeps P m
    → ((a : A) → Gives P Q (f a))
    → Gives P Q (m >>= f)
Gives-bind {P = P} m f km gf = record {
  at = λ s t b p h.
      let (a, s', e, rest) = >>=-eq-ok m f s h in
      (gf a).at s' t b (subst (λ r. P r.1) e (km.at s p)) rest;
}

pub Gives-then :
    {L A B : Type 0} {P : Sanitizer L → Type 0} {Q : B → L → Type 0} (m : Visit L A) (k : Visit L B)
    → Keeps P m
    → Gives P Q k
    → Gives P Q (m >> k)
unfolding ◌>>◌
Gives-then m k km gk = Gives-bind m (λ _. k) km (λ _. gk)
