-- ===== src/Di/Names/Laws.antt =====
-- What `sanitize_type_name` returns, on names short and long.
use bpf_linker.Prelude.{
  ◌<◌, ◌≡◌, inl, inr, Bool-cases, some, ltb, arith, Text, byte_len, ltb→lt, lt→ltb,
}
use bpf_linker.Di.Names.{max_ksym_name_len, DefaultHasher, sanitize_chars, sanitize_type_name}
use bpf_linker.Di.Names.Valid.{
  IsKernelName, sanitize_chars-IsNameChar, sanitize_chars_fixed, trimmed, trim_name_lem,
  trimmed-IsNameChar, byte_len-trimmed,
}

module _ (hasher : DefaultHasher) where
  -- For every name `sanitize_type_name` returns (no slice and no subtraction in it panics), and
  -- what it returns consists of `[0-9A-Za-z_]` alone and has at most 128 bytes.
  pub sanitize_type_name_accepted :
      (name : Text) → (san : Text) × (sanitize_type_name hasher name ≡ some san) × IsKernelName san
  unfolding sanitize_type_name
  sanitize_type_name_accepted name =
      let n = sanitize_chars name in
      let valid = sanitize_chars-IsNameChar name in
      elim (Bool-cases (ltb max_ksym_name_len (byte_len n))) [
        | inl long ↦
            let h = ltb→lt _ _ long in
            (
              trimmed hasher n,
              rw long (trim_name_lem hasher n valid h),
              record {
                chars = trimmed-IsNameChar hasher n valid h;
                short = omega (arith, byte_len-trimmed hasher n valid h);
              },
            )
        | inr fits ↦ (n, rw fits, record { chars = valid; short = ground arith })
      ]

  -- A name that the kernel accepts is returned as it is.
  sanitize_type_name_fixed :
      (name : Text) → IsKernelName name → sanitize_type_name hasher name ≡ some name
  unfolding sanitize_type_name
  sanitize_type_name_fixed name h = rw (sanitize_chars_fixed name h.chars) (ground (arith, h.short))

  -- A second pass over a sanitized name returns the same name.
  pub sanitize_type_name_idem :
      (name san : Text)
      → sanitize_type_name hasher name ≡ some san
      → sanitize_type_name hasher san ≡ some san
  sanitize_type_name_idem name san h =
      let (other, e, good) = sanitize_type_name_accepted name in
      let same : other ≡ san = cc in sanitize_type_name_fixed san (rw same at good)

  -- A name whose sanitized characters take more than 128 bytes is cut so that, with an underscore
  -- and the hash of all of them behind, it has 128 bytes exactly.
  pub sanitize_type_name_trims :
      (name : Text)
      → max_ksym_name_len < byte_len (sanitize_chars name)
      → (sanitize_type_name hasher name ≡ some (trimmed hasher (sanitize_chars name)))
        × (byte_len (trimmed hasher (sanitize_chars name)) ≡ max_ksym_name_len)
  unfolding sanitize_type_name
  sanitize_type_name_trims name long =
      let valid = sanitize_chars-IsNameChar name in
      (
        rw (lt→ltb _ _ long) (trim_name_lem hasher (sanitize_chars name) valid long),
        byte_len-trimmed hasher (sanitize_chars name) valid long,
      )
