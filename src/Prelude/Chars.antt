-- ===== src/Prelude/Chars.antt =====
-- Text that the program walks, as the list of its code points or bytes.
use Prim.Native.Nat.{ℕ, ◌-◌}
use Prim.Native.Char.{code}
use Prim.Native.String.{String}
use mathlib.Core.Path.{◌≡◌, refl}
use mathlib.Core.Logic.{◌↔◌}
use mathlib.Core.Bool.{Bool, true, false, ◌&&◌}
use mathlib.Core.List.{List, [], ◌∷◌, ◌++◌}
use native.Mathlib.Omega.{arith}
use bpf_linker.Prelude.Tests.{◌==◌, leb}
use bpf_linker.Prelude.Lists.{length, drop}

abbrev pub Text : Type 0
Text = List ℕ

-- The code points of a literal: its bytes, if it is ASCII.
abbrev pub codes : String → Text
codes String.[] = []
codes (String.◌∷◌ c s) = code c ∷ codes s

abbrev pub text_eq : Text → Text → Bool
text_eq [] [] = true
text_eq [] (y ∷ ys) = false
text_eq (x ∷ xs) [] = false
text_eq (x ∷ xs) (y ∷ ys) = x == y && text_eq xs ys

-- `s.starts_with(p)`.
abbrev pub starts_with : Text → Text → Bool
starts_with s [] = true
starts_with [] (y ∷ p) = false
starts_with (x ∷ s) (y ∷ p) = x == y && starts_with s p

-- `s.ends_with(p)`: the last bytes of `s`, as many as `p` has, are `p`.
abbrev pub ends_with : Text → Text → Bool
ends_with s p = leb (length p) (length s) && text_eq (drop (length s - length p) s) p

pub text_eq_iff : (xs ys : Text) → (text_eq xs ys ≡ true) ↔ (xs ≡ ys)
text_eq_iff [] [] = (λ _. refl, λ _. refl)
text_eq_iff [] (y ∷ ys) = (λ h. cc, λ h. cc)
text_eq_iff (x ∷ xs) [] = (λ h. cc, λ h. cc)
text_eq_iff (x ∷ xs) (y ∷ ys) = ground (arith, text_eq_iff xs ys)

pub starts_with-eq : (s p : Text) → starts_with s p ≡ true → s ≡ p ++ drop (length p) s
starts_with-eq s [] h = refl
starts_with-eq [] (y ∷ p) h = cc
starts_with-eq (x ∷ s) (y ∷ p) h = ground (arith, starts_with-eq s p)

pub starts_with-append : (p r : Text) → starts_with (p ++ r) p ≡ true
starts_with-append [] r = refl
starts_with-append (x ∷ p) r = ground (arith, starts_with-append p r)

pub drop-append : (xs ys : Text) → drop (length xs) (xs ++ ys) ≡ ys
drop-append [] ys = refl
drop-append (x ∷ xs) ys = drop-append xs ys
