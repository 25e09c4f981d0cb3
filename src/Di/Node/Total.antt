-- ===== src/Di/Node/Total.antt =====
-- `visit_mdnode` on any node: how it ends, and what becomes of pointers and subprograms.
use bpf_linker.Prelude.{
  ◌≡◌, ◌≢◌, refl, sym, ap, subst, ◌∙◌, inl, inr, Bool-cases, Option-cases, true, Option, none, some,
  [], arith, ◌==◌, Text,
}
use bpf_linker.Outcome.{ok, ◌>>=◌, pure}
use bpf_linker.Types.Api.{Ref, Api}
use bpf_linker.Types.Ir.{Metadata, composite_type, derived_type, subprogram, from_value_ref}
use bpf_linker.Types.Di.{
  tag, flags, subprogram_name, type_name_operand, subprogram_name_operand, replace_type_name,
  replace_subprogram_name,
}
use bpf_linker.Types.Laws.{MetadataLaws}
use bpf_linker.Di.Names.{DefaultHasher}
use bpf_linker.Di.Names.Laws.{sanitize_type_name_accepted}
use bpf_linker.Di.Sanitizer.{Sanitizer, reading}
use bpf_linker.Di.Node.{visit_structure, rename_subprogram, visit_metadata, visit_mdnode}
use bpf_linker.Di.Node.Writes.{set_name, replace_name_lem, IsNameChar-nul, md_string-set_name}
use bpf_linker.Di.Node.Effect.{sanitized, visit_structure_declaration, visit_structure_lem}

module _ {L : Type 0} (hasher : DefaultHasher) (api : Api L) where
  visit_structure-returns : (v : Ref) (s : Sanitizer L) → (visit_structure hasher api v s).0 ≡ ok tt
  visit_structure-returns v s = elim (Bool-cases (flags api s.llvm v == api.di_flag_fwd_decl)) [
    | inl e ↦ ap (λ r. r.0) (visit_structure_declaration hasher api v s (ground arith))
    | inr e ↦ ap (λ r. r.0) (visit_structure_lem hasher api v s (λ h. ground arith))
  ]

  pub rename_pointer_lem :
      (v : Ref) (s : Sanitizer L)
      → tag api s.llvm v ≡ api.dw_tag_pointer_type
      → visit_metadata hasher api (derived_type v) s
        ≡ (ok tt, record s { llvm = set_name api v type_name_operand [] s.llvm })
  unfolding visit_metadata reading ◌>>=◌ replace_type_name
  rename_pointer_lem v s h =
      let test : (tag api s.llvm v == api.dw_tag_pointer_type) ≡ true = ground arith in
      rw test (replace_name_lem api v type_name_operand [] s refl)

  pub rename_subprogram_lem :
      (v : Ref) (n : Text) (s : Sanitizer L)
      → rename_subprogram hasher api v (some n) s ≡ (
        ok tt,
        record s { llvm = set_name api v subprogram_name_operand (sanitized hasher n) s.llvm },
      )
  unfolding rename_subprogram replace_subprogram_name ◌>>=◌
  rename_subprogram_lem v n s = rw ((sanitize_type_name_accepted hasher n).1) (
      replace_name_lem api v subprogram_name_operand (sanitized hasher n) s
        (IsNameChar-nul _ (sanitize_type_name_accepted hasher n).2.chars))

  pub visit_subprogram_lem :
      (v : Ref) (name : Option Text) (s : Sanitizer L)
      → subprogram_name api s.llvm v ≡ some name
      → visit_metadata hasher api (subprogram v) s ≡ rename_subprogram hasher api v name s
  unfolding visit_metadata reading ◌>>=◌
  visit_subprogram_lem v name s e = rw e refl

  visit_metadata-returns :
      (m : Metadata) (s : Sanitizer L)
      → ((v : Ref) → m ≡ subprogram v → subprogram_name api s.llvm v ≢ none)
      → (visit_metadata hasher api m s).0 ≡ ok tt
  unfolding visit_metadata rename_subprogram reading ◌>>=◌ pure
  visit_metadata-returns (composite_type v) s text =
      elim (Bool-cases (tag api s.llvm v == api.dw_tag_structure_type)) [
        | inl e ↦ rw e (visit_structure-returns v s)
        | inr e ↦ rw e refl
      ]
  visit_metadata-returns (derived_type v) s text =
      elim (Bool-cases (tag api s.llvm v == api.dw_tag_pointer_type)) [
        | inl e ↦ ap (λ r. r.0) (rename_pointer_lem v s (ground arith))
        | inr e ↦ rw e refl
      ]
  visit_metadata-returns (subprogram v) s text =
      elim (Option-cases (subprogram_name api s.llvm v)) [
        | inl e ↦ absurd (text v refl e)
        | inr (none, e) ↦ ap (λ r. r.0) (visit_subprogram_lem v none s e)
        | inr (some n, e) ↦
            ap (λ r. r.0) (visit_subprogram_lem v (some n) s e ∙ rename_subprogram_lem v n s)
      ]
  visit_metadata-returns (Metadata.other v) s text = refl

  -- Unless it is a subprogram whose name is not UTF-8, visiting a node returns: no name that
  -- is written has a NUL byte, and no slice is out of range.
  pub visit_mdnode_returns :
      (mdnode : Ref) (s : Sanitizer L)
      → ((v : Ref)
          → from_value_ref api s.llvm mdnode ≡ subprogram v
          → subprogram_name api s.llvm v ≢ none)
      → (visit_mdnode hasher api mdnode s).0 ≡ ok tt
  unfolding visit_mdnode reading ◌>>=◌
  visit_mdnode_returns mdnode s text =
      visit_metadata-returns (from_value_ref api s.llvm mdnode) s text

  module _ (laws : MetadataLaws api) (mdnode v : Ref) (s : Sanitizer L) where
    abbrev after : L
    after = (visit_mdnode hasher api mdnode s).1.llvm

    -- A pointer type becomes anonymous.
    pub visit_pointer_name :
        from_value_ref api s.llvm mdnode ≡ derived_type v
        → tag api s.llvm v ≡ api.dw_tag_pointer_type
        → api.md_string after (api.operand after v type_name_operand) ≡ some []
    unfolding visit_mdnode reading ◌>>=◌
    visit_pointer_name kind pointer =
        subst (λ r. api.md_string r.1.llvm (api.operand r.1.llvm v type_name_operand) ≡ some [])
          (sym (ap (λ m. visit_metadata hasher api m s) kind ∙ rename_pointer_lem v s pointer))
          (md_string-set_name api laws v type_name_operand [] s.llvm)

    -- A subprogram that has a name gets the sanitized one.
    pub visit_subprogram_name :
        (n : Text)
        → from_value_ref api s.llvm mdnode ≡ subprogram v
        → subprogram_name api s.llvm v ≡ some (some n)
        → api.md_string after (api.operand after v subprogram_name_operand)
          ≡ some (sanitized hasher n)
    unfolding visit_mdnode reading ◌>>=◌
    visit_subprogram_name n kind named =
        subst
          (λ r.
            api.md_string r.1.llvm (api.operand r.1.llvm v subprogram_name_operand)
            ≡ some (sanitized hasher n))
          (sym (
            ap (λ m. visit_metadata hasher api m s) kind
            ∙ (visit_subprogram_lem v (some n) s named ∙ rename_subprogram_lem v n s)))
          (md_string-set_name api laws v subprogram_name_operand (sanitized hasher n) s.llvm)
