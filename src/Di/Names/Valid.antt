-- ===== src/Di/Names/Valid.antt =====
-- The names that the kernel accepts, and the steps of `sanitize_type_name`.
use bpf_linker.Prelude.{
  ℕ, ◌+◌, ◌-◌, ◌≤◌, ◌<◌, ◌≡◌, refl, inl, inr, Bool-cases, true, some, [], ◌∷◌, ◌++◌, arith, leb,
  Text, length, take, All, All-append, All-take, length-append, length-take, IsAscii, byte_len,
  byte_len_ascii, as_bytes, slice_to_ascii, upper_hex, lower_hex, length-hex-le, All-hex,
}
use bpf_linker.Di.Names.{
  max_ksym_name_len, DefaultHasher, is_name_char, sanitize_char, sanitize_chars, trim_name,
}

abbrev pub IsNameChar : ℕ → Type 0
IsNameChar ch = is_name_char ch ≡ true

-- A name that the kernel accepts: characters of C names only, and at most 128 bytes.
pub record IsKernelName (name : Text) : Type 0 where
  pub chars : All IsNameChar name
  pub short : byte_len name ≤ max_ksym_name_len

pub IsNameChar-IsAscii : (s : Text) → All IsNameChar s → All IsAscii s
IsNameChar-IsAscii [] h = tt
IsNameChar-IsAscii (c ∷ s) h = (ground arith, IsNameChar-IsAscii s h.1)

upper_hex-IsNameChar : (n : ℕ) → All IsNameChar (upper_hex n)
upper_hex-IsNameChar n = All-hex IsNameChar b'A' (λ d h. ground arith) 8 n

lower_hex-IsNameChar : (n : ℕ) → All IsNameChar (lower_hex n)
lower_hex-IsNameChar n = All-hex IsNameChar b'a' (λ d h. ground arith) 16 n

sanitize_char-IsNameChar : (ch : ℕ) → All IsNameChar (sanitize_char ch)
unfolding sanitize_char
sanitize_char-IsNameChar ch = elim (Bool-cases (is_name_char ch)) [
  | inl valid ↦ rw valid (valid, tt)
  | inr other ↦
      rw other (
        refl,
        All-append IsNameChar (upper_hex ch) (b'_' ∷ []) (upper_hex-IsNameChar ch) (refl, tt),
      )
]

pub sanitize_chars-IsNameChar : (name : Text) → All IsNameChar (sanitize_chars name)
unfolding sanitize_chars
sanitize_chars-IsNameChar [] = tt
sanitize_chars-IsNameChar (ch ∷ name) =
    All-append IsNameChar (sanitize_char ch) (sanitize_chars name) (sanitize_char-IsNameChar ch)
      (sanitize_chars-IsNameChar name)

-- A valid name is not changed.
pub sanitize_chars_fixed : (name : Text) → All IsNameChar name → sanitize_chars name ≡ name
unfolding sanitize_chars sanitize_char
sanitize_chars_fixed [] h = refl
sanitize_chars_fixed (ch ∷ name) h = rw (h.0, sanitize_chars_fixed name h.1)

-- The hash that ends a name which is too long.
abbrev pub digest : DefaultHasher → Text → Text
digest hasher n = lower_hex (hasher.finish (as_bytes n))

-- What is left of such a name: a beginning, an underscore and the hash.
abbrev pub trimmed : DefaultHasher → Text → Text
trimmed hasher n =
    take (max_ksym_name_len - length (digest hasher n) - 1) n ++ b'_' ∷ digest hasher n

module _ (hasher : DefaultHasher) (n : Text) (valid : All IsNameChar n)
    (long : max_ksym_name_len < byte_len n) where
  abbrev kept : ℕ
  kept = max_ksym_name_len - length (digest hasher n) - 1

  hash-ascii : byte_len (digest hasher n) ≡ length (digest hasher n)
  hash-ascii =
      byte_len_ascii (digest hasher n)
        (IsNameChar-IsAscii (digest hasher n) (lower_hex-IsNameChar _))

  n-IsAscii : All IsAscii n
  n-IsAscii = IsNameChar-IsAscii n valid

  pub trim_name_lem : trim_name hasher n ≡ some (trimmed hasher n)
  unfolding trim_name
  trim_name_lem =
      let fits : leb (length (digest hasher n) + 1) max_ksym_name_len ≡ true =
        ground (arith, length-hex-le b'a' 16 (hasher.finish (as_bytes n))) in
      rw (
        hash-ascii,
        fits,
        slice_to_ascii kept n n-IsAscii (omega (arith, byte_len_ascii n n-IsAscii)),
      )

  pub trimmed-IsNameChar : All IsNameChar (trimmed hasher n)
  trimmed-IsNameChar =
      All-append IsNameChar (take kept n) (b'_' ∷ digest hasher n)
        (All-take IsNameChar kept n valid) (refl, lower_hex-IsNameChar _)

  pub byte_len-trimmed : byte_len (trimmed hasher n) ≡ max_ksym_name_len
  byte_len-trimmed = omega (
    arith,
    byte_len_ascii (trimmed hasher n) (IsNameChar-IsAscii (trimmed hasher n) trimmed-IsNameChar),
    length-append (take kept n) (b'_' ∷ digest hasher n),
    length-take kept n,
    byte_len_ascii n n-IsAscii,
    length-hex-le b'a' 16 (hasher.finish (as_bytes n)),
  )
