-- ===== src/Di/Names.antt =====
-- `sanitize_type_name` of llvm/di.rs: the names of types and functions that the kernel accepts.
pub mod Valid
pub mod Laws
use bpf_linker.Prelude.{
  ℕ, zero, suc, ◌+◌, ◌-◌, ◌^◌, ◌≤◌, ◌<◌, ◌≡◌, refl, Bool, true, false, ◌||◌, ◌&&◌, Option, none,
  some, List, [], ◌∷◌, ◌++◌, arith, ltb, leb, ◌==◌, if◌then◌else◌, Text, length, codes, byte_len,
  as_bytes, slice_to, upper_hex, lower_hex,
}
use mathlib.Core.Option

-- `KSYM_NAME_LEN` of the kernel, at the value that the linker chose.
abbrev pub max_ksym_name_len : ℕ
max_ksym_name_len = 128

-- `DefaultHasher` of the standard library after one `write`, whose algorithm is not specified:
-- `finish` returns a `u64`.
pub record DefaultHasher : Type 0 where
  pub finish : Text → ℕ
  pub finish-lt : (bytes : Text) → finish bytes < 2 ^ 64

-- The characters of C names: `'0'..='9' | 'A'..='Z' | 'a'..='z' | '_'`.
abbrev pub is_name_char : ℕ → Bool
is_name_char ch =
    leb b'0' ch && leb ch b'9'
    || leb b'A' ch && leb ch b'Z'
    || leb b'a' ch && leb ch b'z'
    || ch == b'_'

unfoldable pub sanitize_char : ℕ → Text
sanitize_char ch = if is_name_char ch then ch ∷ [] else b'_' ∷ (upper_hex ch ++ b'_' ∷ [])

unfoldable pub sanitize_chars : Text → Text
unfolding sanitize_char
sanitize_chars [] = []
sanitize_chars (ch ∷ name) = sanitize_char ch ++ sanitize_chars name

-- A name that is too long keeps its beginning, and ends in the hash of the whole. `none` is the
-- panic of the slice, or of the subtraction.
unfoldable pub trim_name : DefaultHasher → Text → Option Text
trim_name hasher n =
    let hash = lower_hex (hasher.finish (as_bytes n)) in
    if leb (byte_len hash + 1) max_ksym_name_len
    then Option.map (λ kept. kept ++ b'_' ∷ hash)
        (slice_to (max_ksym_name_len - byte_len hash - 1) n)
    else none

unfoldable pub sanitize_type_name : DefaultHasher → Text → Option Text
unfolding sanitize_chars trim_name
sanitize_type_name hasher name =
    let n = sanitize_chars name in
    if ltb max_ksym_name_len (byte_len n) then trim_name hasher n else some n
