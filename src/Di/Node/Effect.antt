-- ===== src/Di/Node/Effect.antt =====
-- `visit_mdnode` on a structure, as one change of the state.
use bpf_linker.Prelude.{
  ◌≡◌, ◌≢◌, refl, Bool, true, false, Option, none, some, List, [], ◌∷◌, map, arith, ◌==◌, Text,
}
use bpf_linker.Outcome.{ok, ◌>>=◌, ◌>>◌}
use bpf_linker.Types.Api.{Ref, Api}
use bpf_linker.Types.Di.{
  offset_in_bits, elements, composite_name, flags, type_name_operand, replace_type_name,
}
use bpf_linker.Di.Names.{DefaultHasher}
use bpf_linker.Di.Names.Laws.{sanitize_type_name_accepted}
use bpf_linker.Di.Sort.{sort_by_key}
use bpf_linker.Di.Sanitizer.{Sanitizer, reading, changing, calling}
use bpf_linker.Di.Scan.{Scan}
use bpf_linker.Di.Scan.Laws.{summary, scan_lem}
use bpf_linker.Di.Node.{names_of, replace_members, rename, start_scan, scanning, visit_structure}
use bpf_linker.Di.Node.Writes.{set_name, set_elements, replace_name_lem, IsNameChar-nul}

-- The name that `sanitize_type_name` returns.
abbrev pub sanitized : DefaultHasher → Text → Text
sanitized hasher name = (sanitize_type_name_accepted hasher name).0

abbrev pub with_sanitized : DefaultHasher → Option Text → Option (Text × Text)
with_sanitized hasher none = none
with_sanitized hasher (some name) = some (name, sanitized hasher name)

module _ {L : Type 0} (hasher : DefaultHasher) (api : Api L) where
  -- The state of LLVM after the elements were replaced, and after the name was.
  abbrev pub after_members : Ref → Bool → List Ref → L → L
  after_members v true ms l = set_elements api v [] l
  after_members v false [] l = l
  after_members v false (m ∷ ms) l =
      set_elements api v (map api.value_as_metadata (sort_by_key (offset_in_bits api l) (m ∷ ms))) l

  abbrev pub after_rename : Ref → Bool → Option Text → L → L
  after_rename v true name l = set_name api v type_name_operand [] l
  after_rename v false none l = l
  after_rename v false (some name) l = set_name api v type_name_operand (sanitized hasher name) l

  names_of_lem :
      (name : Option Text) (s : Sanitizer L)
      → names_of hasher api name s ≡ (ok (with_sanitized hasher name), s)
  unfolding names_of ◌>>=◌
  names_of_lem none s = refl
  names_of_lem (some name) s = rw ((sanitize_type_name_accepted hasher name).1)

  replace_members_lem :
      (v : Ref) (b : Bool) (ms : List Ref) (s : Sanitizer L)
      → replace_members hasher api v b ms s
        ≡ (ok tt, record s { llvm = after_members v b ms s.llvm })
  unfolding replace_members reading changing calling ◌>>=◌
  replace_members_lem v true ms s = refl
  replace_members_lem v false [] s = refl
  replace_members_lem v false (m ∷ ms) s = refl

  rename_lem :
      (v : Ref) (b : Bool) (name : Option Text) (s : Sanitizer L)
      → rename hasher api v b (with_sanitized hasher name) s
        ≡ (ok tt, record s { llvm = after_rename v b name s.llvm })
  unfolding rename replace_type_name ◌>>=◌
  rename_lem v true name s = replace_name_lem api v type_name_operand [] s refl
  rename_lem v false none s = refl
  rename_lem v false (some name) s =
      replace_name_lem api v type_name_operand (sanitized hasher name) s
        (IsNameChar-nul _ (sanitize_type_name_accepted hasher name).2.chars)

  module _ (v : Ref) (s : Sanitizer L) where
    -- What the loop over the elements finds.
    abbrev pub found : Scan
    found =
        summary api s.llvm (with_sanitized hasher (composite_name api s.llvm v))
          (elements api s.llvm v) (start_scan hasher api s)

    abbrev pub after_structure : L
    after_structure =
        after_rename v found.remove_name (composite_name api s.llvm v)
          (after_members v found.is_data_carrying_enum found.members s.llvm)

    scanning_lem :
        scanning hasher api (with_sanitized hasher (composite_name api s.llvm v)) v s
        ≡ (ok found, record s { skipped_types = found.skipped_types })
    unfolding scanning
    scanning_lem = rw scan_lem

    -- A declaration is left alone.
    pub visit_structure_declaration :
        flags api s.llvm v ≡ api.di_flag_fwd_decl → visit_structure hasher api v s ≡ (ok tt, s)
    unfolding visit_structure ◌>>=◌ reading
    visit_structure_declaration h =
        let test : (flags api s.llvm v == api.di_flag_fwd_decl) ≡ true = ground arith in
        rw (names_of_lem (composite_name api s.llvm v) s) (rw test)

    pub visit_structure_lem :
        flags api s.llvm v ≢ api.di_flag_fwd_decl
        → visit_structure hasher api v s
          ≡ (ok tt, record s { llvm = after_structure; skipped_types = found.skipped_types })
    unfolding visit_structure ◌>>=◌ ◌>>◌ reading
    visit_structure_lem h =
        let test : (flags api s.llvm v == api.di_flag_fwd_decl) ≡ false = ground arith in
        rw (names_of_lem (composite_name api s.llvm v) s) (
          rw test (
            rw scanning_lem (
              rw (replace_members_lem v found.is_data_carrying_enum found.members)
                (rw (rename_lem v found.remove_name (composite_name api s.llvm v))))))
