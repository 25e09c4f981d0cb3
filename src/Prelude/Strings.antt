-- ===== src/Prelude/Strings.antt =====
-- Rust's `String` as the list of its characters, with its length and its slices in bytes, and the
-- hexadecimal formats `{:X}` and `{:x}`.
use Prim.Native.Nat.{ℕ, zero, suc, ◌+◌, ◌-◌, ◌/◌, ◌%◌, ◌≤◌, ◌<◌}
use mathlib.Core.Path.{◌≡◌, refl}
use mathlib.Core.Bool.{true}
use mathlib.Core.Logic.{inl, inr}
use mathlib.Core.Option
use mathlib.Core.Option.{Option, none, some}
use mathlib.Core.List.{[], ◌∷◌, ◌++◌}
use native.Mathlib.Omega.{arith}
use bpf_linker.Prelude.Tests.{ltb, leb, ltb→lt, Bool-cases, if◌then◌else◌}
use bpf_linker.Prelude.Lists.{length, take, All, length-append, All-append}
use bpf_linker.Prelude.Chars.{Text, codes}

-- `char::len_utf8`.
abbrev pub len_utf8 : ℕ → ℕ
len_utf8 c = if ltb c 0x80 then 1 else if ltb c 0x800 then 2 else if ltb c 0x10000 then 3 else 4

-- `String::len`, which counts bytes.
abbrev pub byte_len : Text → ℕ
byte_len [] = 0
byte_len (c ∷ s) = len_utf8 c + byte_len s

-- `String::as_bytes`: the UTF-8 encoding.
encode_char : ℕ → Text
encode_char c =
    if ltb c 0x80
    then c ∷ []
    else if ltb c 0x800
    then (0xc0 + c / 0x40) ∷ (0x80 + c % 0x40) ∷ []
    else if ltb c 0x10000
    then (0xe0 + c / 0x1000) ∷ (0x80 + c / 0x40 % 0x40) ∷ (0x80 + c % 0x40) ∷ []
    else (0xf0 + c / 0x40000)
      ∷ (0x80 + c / 0x1000 % 0x40)
      ∷ (0x80 + c / 0x40 % 0x40)
      ∷ (0x80 + c % 0x40)
      ∷ []

unfoldable pub as_bytes : Text → Text
unfolding encode_char
as_bytes [] = []
as_bytes (c ∷ s) = encode_char c ++ as_bytes s

-- `&s[..n]`: `none` is the panic of an end that lies past the text or inside a character.
unfoldable pub slice_to : ℕ → Text → Option Text
slice_to zero s = some []
slice_to (suc n) [] = none
slice_to (suc n) (c ∷ s) =
    if leb (len_utf8 c) (suc n)
    then Option.map (λ r. c ∷ r) (slice_to (suc n - len_utf8 c) s)
    else none

abbrev pub IsAscii : ℕ → Type 0
IsAscii c = c < 0x80

pub byte_len_ascii : (s : Text) → All IsAscii s → byte_len s ≡ length s
byte_len_ascii [] h = refl
byte_len_ascii (c ∷ s) h = ground (arith, byte_len_ascii s)

pub slice_to_ascii :
    (n : ℕ) (s : Text) → All IsAscii s → n ≤ length s → slice_to n s ≡ some (take n s)
unfolding slice_to
slice_to_ascii zero s h l = refl
slice_to_ascii (suc n) [] h l = absurd (omega arith)
slice_to_ascii (suc n) (c ∷ s) h l =
    let one : len_utf8 c ≡ 1 = ground arith in
    let less : suc n - 1 ≡ n = omega arith in
    let within : leb 1 (suc n) ≡ true = ground arith in
    rw (one, within, less, slice_to_ascii n s h.1 (omega arith))

-- A digit, with `ten` the code of the digit ten: `b'A'` or `b'a'`.
abbrev digit : ℕ → ℕ → ℕ
digit ten d = if ltb d 10 then b'0' + d else ten + (d - 10)

-- The digits of a number of at most `fuel` digits, with no leading zero.
unfoldable pub hex : ℕ → ℕ → ℕ → Text
hex ten zero n = []
hex ten (suc fuel) n =
    let high = hex ten fuel (n / 16) in
    if ltb n 16 then digit ten n ∷ [] else high ++ digit ten (n % 16) ∷ []

-- `{:X}` of a `u32` and `{:x}` of a `u64`.
abbrev pub upper_hex : ℕ → Text
upper_hex = hex b'A' 8

abbrev pub lower_hex : ℕ → Text
lower_hex = hex b'a' 16

pub length-hex-le : (ten fuel n : ℕ) → length (hex ten fuel n) ≤ fuel
unfolding hex
length-hex-le ten zero n = omega arith
length-hex-le ten (suc fuel) n = ground (
  arith,
  length-hex-le ten fuel (n / 16),
  length-append (hex ten fuel (n / 16)) (digit ten (n % 16) ∷ []),
)

-- Every digit satisfies what the sixteen digits satisfy.
pub All-hex :
    (P : ℕ → Type 0) (ten : ℕ)
    → ((d : ℕ) → d < 16 → P (digit ten d))
    → (fuel n : ℕ) → All P (hex ten fuel n)
unfolding hex
All-hex P ten h zero n = tt
All-hex P ten h (suc fuel) n = elim (Bool-cases (ltb n 16)) [
  | inl small ↦ rw small (h n (ltb→lt n 16 small), tt)
  | inr large ↦ rw large (
      All-append P (hex ten fuel (n / 16)) _ (All-hex P ten h fuel (n / 16))
        (h (n % 16) (omega arith), tt))
]

hex_tests :
    (upper_hex 0x3c ≡ codes "3C") × (lower_hex 0x94e4085604b3142f ≡ codes "94e4085604b3142f")
unfolding hex
hex_tests = (refl, refl)
