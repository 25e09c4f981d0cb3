-- ===== src/Linker/InputType.antt =====
-- `detect_input_type` of linker.rs: the kind of an input by its first bytes.
use bpf_linker.Prelude.{
  ℕ, zero, suc, ap, sym, ◌∙◌, ◌≡◌, refl, ◌≤◌, Bool, true, false, ◌||◌, Option, none, some, List, [],
  ◌∷◌, ◌++◌, arith, ltb, ◌↔◌, ◌⊎◌, length, take, length-take, text_eq_iff, Text, codes, text_eq,
  if◌then◌else◌,
}
use bpf_linker.Linker.Options.{InputType, elf, mach_o, archive}

abbrev pub Bytes : Type 0
Bytes = List ℕ

abbrev pub bitcode_magic : Bytes
bitcode_magic = 0x42 ∷ 0x43 ∷ 0xc0 ∷ 0xde ∷ []

abbrev pub wrapper_magic : Bytes
wrapper_magic = 0xde ∷ 0xc0 ∷ 0x17 ∷ 0x0b ∷ []

abbrev pub elf_magic : Bytes
elf_magic = 0x7f ∷ codes "ELF"

abbrev pub mach_o_magic : Bytes
mach_o_magic = 0xcf ∷ 0xfa ∷ 0xed ∷ 0xfe ∷ []

abbrev pub archive_magic : Bytes
archive_magic = codes "!<arch>" ++ 0x0a ∷ []

unfoldable pub detect_input_type : Bytes → Option InputType
detect_input_type bytes =
    if ltb (length bytes) 8
    then none
    else if text_eq (take 4 bytes) bitcode_magic || text_eq (take 4 bytes) wrapper_magic
    then some InputType.bitcode
    else if text_eq (take 4 bytes) elf_magic
    then some elf
    else if text_eq (take 4 bytes) mach_o_magic
    then some mach_o
    else if text_eq (take 8 bytes) archive_magic
    then some archive
    else none

take-take : (m n : ℕ) (bytes : Bytes) → m ≤ n → take m (take n bytes) ≡ take m bytes
take-take zero n bytes h = refl
take-take (suc m) zero bytes h = absurd (omega arith)
take-take (suc m) (suc n) [] h = refl
take-take (suc m) (suc n) (b ∷ bytes) h = ap (λ r. b ∷ r) (take-take m n bytes (omega arith))

archive_prefix : (bytes : Bytes) → take 8 bytes ≡ archive_magic → take 4 bytes ≡ codes "!<ar"
archive_prefix bytes h = sym (take-take 4 8 bytes (omega arith)) ∙ ap (take 4) h

-- The magic bytes of a type.
abbrev pub Starts : InputType → Bytes → Type 0
Starts InputType.bitcode bytes = (take 4 bytes ≡ bitcode_magic) ⊎ (take 4 bytes ≡ wrapper_magic)
Starts elf bytes = take 4 bytes ≡ elf_magic
Starts mach_o bytes = take 4 bytes ≡ mach_o_magic
Starts archive bytes = take 8 bytes ≡ archive_magic

-- The header that `link_modules` reads decides as the whole file does: eight bytes are enough.
pub detect_input_type-take :
    (bytes : Bytes) → detect_input_type (take 8 bytes) ≡ detect_input_type bytes
unfolding detect_input_type
detect_input_type-take bytes =
    let four : take 4 (take 8 bytes) ≡ take 4 bytes = take-take 4 8 bytes (omega arith) in
    let eight : take 8 (take 8 bytes) ≡ take 8 bytes = take-take 8 8 bytes (omega arith) in
    let long : ltb (length (take 8 bytes)) 8 ≡ ltb (length bytes) 8 =
      ground (arith, length-take 8 bytes) in
    rw (four, eight, long)

-- The ladder of tests, over their results.
abbrev ladder : Bool → Bool → Bool → Bool → Bool → Option InputType
ladder short b e m a =
    if short
    then none
    else if b
    then some InputType.bitcode
    else if e
    then some elf
    else if m
    then some mach_o
    else if a
    then some archive
    else none

abbrev Passed : InputType → Bool → Bool → Bool → Bool → Type 0
Passed InputType.bitcode b e m a = b ≡ true
Passed elf b e m a = (b ≡ false) × (e ≡ true)
Passed mach_o b e m a = (b ≡ false) × (e ≡ false) × (m ≡ true)
Passed archive b e m a = (b ≡ false) × (e ≡ false) × (m ≡ false) × (a ≡ true)

ladder_iff :
    (ty : InputType) (short b e m a : Bool)
    → (ladder short b e m a ≡ some ty) ↔ ((short ≡ false) × Passed ty b e m a)
ladder_iff InputType.bitcode short b e m a = ground arith
ladder_iff elf short b e m a = ground arith
ladder_iff mach_o short b e m a = ground arith
ladder_iff archive short b e m a = ground arith

module _ (bytes : Bytes) where
  abbrev is_bitcode : Bool
  is_bitcode = text_eq (take 4 bytes) bitcode_magic || text_eq (take 4 bytes) wrapper_magic

  -- The magic bytes exclude one another.
  other : (t u : Text) → text_eq t u ≡ false → take 4 bytes ≡ t → text_eq (take 4 bytes) u ≡ false
  other t u h e = rw e h

  not_bitcode :
      (t : Text)
      → text_eq t bitcode_magic ≡ false
      → text_eq t wrapper_magic ≡ false
      → take 4 bytes ≡ t
      → is_bitcode ≡ false
  not_bitcode t h k e = rw (other t bitcode_magic h e, other t wrapper_magic k e)

  Passed-iff :
      (ty : InputType)
      → Passed ty is_bitcode
          (text_eq (take 4 bytes) elf_magic)
          (text_eq (take 4 bytes) mach_o_magic)
          (text_eq (take 8 bytes) archive_magic)
        ↔ Starts ty bytes
  Passed-iff InputType.bitcode =
      ground
        (arith, text_eq_iff (take 4 bytes) bitcode_magic, text_eq_iff (take 4 bytes) wrapper_magic)
  Passed-iff elf = (
    λ h. (text_eq_iff _ _).0 h.1,
    λ h. (not_bitcode elf_magic refl refl h, (text_eq_iff _ _).1 h),
  )
  Passed-iff mach_o = (
    λ h. (text_eq_iff _ _).0 h.2,
    λ h. (
      not_bitcode mach_o_magic refl refl h,
      other mach_o_magic elf_magic refl h,
      (text_eq_iff _ _).1 h,
    ),
  )
  Passed-iff archive = (
    λ h. (text_eq_iff _ _).0 h.3,
    λ h.
        let p = archive_prefix bytes h in
        (
          not_bitcode (codes "!<ar") refl refl p,
          other (codes "!<ar") elf_magic refl p,
          other (codes "!<ar") mach_o_magic refl p,
          (text_eq_iff _ _).1 h,
        ),
  )

-- An input has a type exactly where it has eight bytes and begins with that type's magic bytes.
pub detect_input_type_iff :
    (bytes : Bytes) (ty : InputType)
    → (detect_input_type bytes ≡ some ty) ↔ ((8 ≤ length bytes) × Starts ty bytes)
unfolding detect_input_type
detect_input_type_iff bytes ty =
    let l = ladder_iff ty (ltb (length bytes) 8) (is_bitcode bytes) _ _ _ in
    let p = Passed-iff bytes ty in
    (λ h. let r = l.0 h in (ground arith, p.0 r.1), λ h. l.1 (ground arith, p.1 h.1))
