-- ===== src/Prelude/Utf8.antt =====
-- `str::from_utf8` and `CStr::to_str` of Rust's standard library: which byte sequences are
-- well-formed UTF-8. The decoder reads one byte at a time.
use Prim.Native.Nat.{ℕ, ◌<◌}
use mathlib.Core.Path.{◌≡◌, refl}
use mathlib.Core.Bool.{Bool, true, false, ◌&&◌}
use mathlib.Core.Option.{Option, none, some}
use mathlib.Core.List.{[], ◌∷◌}
use native.Mathlib.Omega.{arith}
use bpf_linker.Prelude.Tests.{ltb, leb, ◌==◌, if◌then◌else◌}
use bpf_linker.Prelude.Lists.{All}
use bpf_linker.Prelude.Chars.{Text, codes}

-- What the decoder waits for: a new character, one to three continuation bytes, or the second
-- byte after a lead byte that restricts it.
pub data Utf8State : Type 0 where
  start one two three after_e0 after_ed after_f0 after_f4 : Utf8State

abbrev within : ℕ → ℕ → ℕ → Bool
within lo hi b = leb lo b && leb b hi

abbrev when : Bool → Utf8State → Option Utf8State
when t s = if t then some s else none

lead : ℕ → Option Utf8State
lead b =
    if ltb b 0x80
    then some start
    else if within 0xc2 0xdf b
    then some one
    else if b == 0xe0
    then some after_e0
    else if b == 0xed
    then some after_ed
    else if within 0xe1 0xef b
    then some two
    else if b == 0xf0
    then some after_f0
    else if within 0xf1 0xf3 b
    then some three
    else if b == 0xf4
    then some after_f4
    else none

step : Utf8State → ℕ → Option Utf8State
step start b = lead b
step one b = when (within 0x80 0xbf b) start
step two b = when (within 0x80 0xbf b) one
step three b = when (within 0x80 0xbf b) two
step after_e0 b = when (within 0xa0 0xbf b) one
step after_ed b = when (within 0x80 0x9f b) one
step after_f0 b = when (within 0x90 0xbf b) two
step after_f4 b = when (within 0x80 0x8f b) two

accepts : Utf8State → Text → Bool
accepts start [] = true
accepts _ [] = false
accepts s (b ∷ bs) = elim (step s b) [ none ↦ false | some s' ↦ accepts s' bs ]

unfoldable pub is_utf8 : Text → Bool
unfolding accepts step lead
is_utf8 = accepts start

-- ASCII is well-formed.
pub is_utf8_ascii : (bs : Text) → All (λ b. b < 0x80) bs → is_utf8 bs ≡ true
unfolding is_utf8
is_utf8_ascii [] h = refl
is_utf8_ascii (b ∷ bs) h = ground (arith, is_utf8_ascii bs)

is_utf8_tests :
    (is_utf8 (0xce ∷ 0xbb ∷ []) ≡ true)
    × (is_utf8 (0xce ∷ []) ≡ false)
    × (is_utf8 (codes ".llvmbc") ≡ true)
unfolding is_utf8
is_utf8_tests = (refl, refl, refl)
