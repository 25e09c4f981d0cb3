-- ===== src/Tests/Names.antt =====
-- Names that the sanitizer sees, among them the one of the source's own test.
use bpf_linker.Prelude.{
  ℕ, zero, suc, ◌≡◌, ◌<◌, refl, some, [], ◌∷◌, arith, Text, codes, byte_len, hex,
}
use bpf_linker.Di.Names.{max_ksym_name_len, sanitize_chars, sanitize_type_name}
use bpf_linker.Di.Names.Valid.{IsKernelName, trimmed}
use bpf_linker.Di.Names.Laws.{
  sanitize_type_name_accepted, sanitize_type_name_idem, sanitize_type_name_trims,
}
use bpf_linker.Tests.Memory.{constant_hasher}

abbrev generic_name : Text
generic_name = codes "MyStruct<u64>"

-- The test of llvm/di.rs.
sanitize_test : sanitize_type_name constant_hasher generic_name ≡ some (codes "MyStruct_3C_u64_3E_")
unfolding sanitize_type_name hex
sanitize_test = refl

-- Two names may get one.
sanitize_collision :
    sanitize_type_name constant_hasher (codes "A<B")
    ≡ sanitize_type_name constant_hasher (codes "A_3C_B")
unfolding sanitize_type_name hex
sanitize_collision = refl

sanitize_type_name_accepted_example :
    (san : Text) × (sanitize_type_name constant_hasher generic_name ≡ some san) × IsKernelName san
sanitize_type_name_accepted_example = sanitize_type_name_accepted constant_hasher generic_name

sanitize_type_name_idem_example :
    sanitize_type_name constant_hasher (codes "MyStruct_3C_u64_3E_")
    ≡ some (codes "MyStruct_3C_u64_3E_")
sanitize_type_name_idem_example =
    sanitize_type_name_idem constant_hasher generic_name (codes "MyStruct_3C_u64_3E_") sanitize_test

abbrev repeat : ℕ → Text → Text
repeat zero rest = rest
repeat (suc n) rest = b'x' ∷ repeat n rest

-- A name of 130 characters.
abbrev long_name : Text
long_name = repeat 130 []

is_long : max_ksym_name_len < byte_len (sanitize_chars long_name)
unfolding sanitize_chars
is_long = omega arith

sanitize_type_name_trims_example :
    (sanitize_type_name constant_hasher long_name
      ≡ some (trimmed constant_hasher (sanitize_chars long_name)))
    × (byte_len (trimmed constant_hasher (sanitize_chars long_name)) ≡ max_ksym_name_len)
sanitize_type_name_trims_example = sanitize_type_name_trims constant_hasher long_name is_long
