-- ===== src/Di/Node/Named.antt =====
-- The name of a node before and after `visit_mdnode`, for the nodes whose name it takes care of.
use bpf_linker.Prelude.{
  ◌≡◌, ◌≢◌, refl, sym, subst, ◌∙◌, ◌⊎◌, inl, inr, Bool-cases, Option-cases, Bool, true, false,
  Option, none, some, List, [], ◌∷◌, arith, ◌==◌, Text,
}
use bpf_linker.Outcome.{ok, ◌>>=◌, pure}
use bpf_linker.Types.Api.{Ref, Api}
use bpf_linker.Types.Ir.{composite_type, derived_type, subprogram, from_value_ref}
use bpf_linker.Types.Di.{
  tag, flags, composite_name, checked_string, subprogram_name, type_name_operand, elements_operand,
}
use bpf_linker.Types.Laws.{MetadataLaws}
use bpf_linker.Types.Live.{NullOr, SameShape, LiveLaws}
use bpf_linker.Di.Names.{DefaultHasher}
use bpf_linker.Di.Names.Valid.{IsKernelName}
use bpf_linker.Di.Names.Laws.{sanitize_type_name_accepted}
use bpf_linker.Di.Sanitizer.{Sanitizer, reading}
use bpf_linker.Di.Node.{visit_structure, rename_subprogram, visit_metadata, visit_mdnode}
use bpf_linker.Di.Node.Writes.{set_elements, md_string-set_name}
use bpf_linker.Di.Node.Effect.{sanitized, after_members, after_rename, found, visit_structure_lem}
use bpf_linker.Di.Node.Total.{visit_pointer_name, visit_subprogram_name}

module _ {L : Type 0} (api : Api L) (Other : Ref → Type 0) (l : L) (v : Ref) where
  -- The string of the name has the property, or there is none: null, or what `Other` allows.
  abbrev pub NameIs : (Text → Type 0) → Type 0
  NameIs P =
      let r = api.operand l v type_name_operand in
      NullOr Other r ⊎ ((t : Text) × (api.md_string l r ≡ some t) × P t)

  -- Pointer types are anonymous; structures, but for forward declarations, and subprograms have
  -- names that the kernel accepts.
  pub record HasKernelName : Type 0 where
    pub pointer :
        from_value_ref api l v ≡ derived_type v
        → tag api l v ≡ api.dw_tag_pointer_type
        → NameIs (λ t. t ≡ [])
    pub structure :
        from_value_ref api l v ≡ composite_type v
        → tag api l v ≡ api.dw_tag_structure_type
        → flags api l v ≢ api.di_flag_fwd_decl
        → NameIs IsKernelName
    pub program : from_value_ref api l v ≡ subprogram v → NameIs IsKernelName

empty_name : IsKernelName []
empty_name = record { chars = tt; short = omega arith }

checked_string_null :
    {L : Type 0} (api : Api L) (l : L) (r : Ref) → checked_string api l r ≡ some none → r ≡ 0
checked_string_null api l r h = elim (Bool-cases (r == 0)) [
  | inl e ↦ ground arith
  | inr e ↦ elim (Option-cases (api.md_string l r)) [
    | inl f ↦ let h' = (rw (e, f) at h) in cc
    | inr (t, f) ↦ let h' = (rw (e, f) at h) in ground (arith, h')
  ]
]

module _ {L : Type 0} (hasher : DefaultHasher) (api : Api L) (instructions : L → Ref → List Ref)
    (IsLive : L → Ref → Type 0) (laws : MetadataLaws api) (live : LiveLaws api instructions IsLive)
    (Other : Ref → Type 0) where
  -- New elements leave the name alone.
  name-set_elements :
      (v : Ref) (es : List Ref) (l : L)
      → IsLive l v
      → api.operand (set_elements api v es l) v type_name_operand
        ≡ api.operand l v type_name_operand
  name-set_elements v es l alive = ground (
    arith,
    laws.operand-replace v elements_operand
        (api.value_as_metadata (api.metadata_as_value (api.md_node_in_context es l).0))
        (api.md_node_in_context es l).1 v type_name_operand,
    live.operand-node_live es l v type_name_operand alive,
  )

  name-after_members :
      (v : Ref) (b : Bool) (ms : List Ref) (l : L)
      → IsLive l v
      → api.operand (after_members hasher api v b ms l) v type_name_operand
        ≡ api.operand l v type_name_operand
  name-after_members v true ms l alive = name-set_elements v [] l alive
  name-after_members v false [] l alive = refl
  name-after_members v false (m ∷ ms) l alive = name-set_elements v _ l alive

  after_rename-NameIs :
      (v : Ref) (b : Bool) (name : Option Text) (l : L)
      → (name ≡ none → api.operand l v type_name_operand ≡ 0)
      → NameIs api Other (after_rename hasher api v b name l) v IsKernelName
  after_rename-NameIs v true name l h =
      inr ([], md_string-set_name api laws v type_name_operand [] l, empty_name)
  after_rename-NameIs v false none l h = inl (inl (h refl))
  after_rename-NameIs v false (some n) l h = inr (
    sanitized hasher n,
    md_string-set_name api laws v type_name_operand (sanitized hasher n) l,
    (sanitize_type_name_accepted hasher n).2,
  )

  module _ (v : Ref) (s t : Sanitizer L) (alive : IsLive s.llvm v)
      (h : visit_mdnode hasher api v s ≡ (ok tt, t)) where
    visited_pointer :
        from_value_ref api s.llvm v ≡ derived_type v
        → tag api s.llvm v ≡ api.dw_tag_pointer_type
        → NameIs api Other t.llvm v (λ n. n ≡ [])
    visited_pointer kind pointer = inr (
      [],
      subst (λ r. api.md_string r.1.llvm (api.operand r.1.llvm v type_name_operand) ≡ some []) h
          (visit_pointer_name hasher api laws v v s kind pointer),
      refl,
    )

    visited_structure :
        from_value_ref api s.llvm v ≡ composite_type v
        → tag api s.llvm v ≡ api.dw_tag_structure_type
        → flags api s.llvm v ≢ api.di_flag_fwd_decl
        → NameIs api Other t.llvm v IsKernelName
    unfolding visit_mdnode visit_metadata reading ◌>>=◌
    visited_structure kind structure defined =
        let test : (tag api s.llvm v == api.dw_tag_structure_type) ≡ true = ground arith in
        let h' : visit_structure hasher api v s ≡ (ok tt, t) = (rw (kind, test) at h) in
        let old = found hasher api v s in
        subst (λ r. NameIs api Other r.1.llvm v IsKernelName)
          (sym (visit_structure_lem hasher api v s defined) ∙ h')
          (after_rename-NameIs v old.remove_name (composite_name api s.llvm v)
            (after_members hasher api v old.is_data_carrying_enum old.members s.llvm)
            (λ e.
              name-after_members v old.is_data_carrying_enum old.members s.llvm alive
              ∙ live.unnamed s.llvm v alive e))

    visited_program :
        from_value_ref api s.llvm v ≡ subprogram v → NameIs api Other t.llvm v IsKernelName
    unfolding visit_mdnode visit_metadata rename_subprogram reading ◌>>=◌ pure
    visited_program kind = elim (Option-cases (subprogram_name api s.llvm v)) [
      | inl e ↦ let h' = (rw (kind, e) at h) in cc
      | inr (none, e) ↦
          let h' = (rw (kind, e) at h) in
          subst (λ r. NameIs api Other r.1.llvm v IsKernelName) h'
            (inl (inl (checked_string_null api s.llvm _ e)))
      | inr (some n, e) ↦ inr (
        sanitized hasher n,
        subst
            (λ r.
              api.md_string r.1.llvm (api.operand r.1.llvm v type_name_operand)
              ≡ some (sanitized hasher n))
            h (visit_subprogram_name hasher api laws v v s n kind e),
        (sanitize_type_name_accepted hasher n).2,
      )
    ]

    pub visit_mdnode-HasKernelName :
        SameShape api instructions s.llvm t.llvm v → HasKernelName api Other t.llvm v
    visit_mdnode-HasKernelName shape = record {
      pointer = λ kind pointer.
          visited_pointer (sym shape.metadata ∙ kind) (sym shape.tag_same ∙ pointer);
      structure = λ kind structure defined.
          visited_structure (sym shape.metadata ∙ kind) (sym shape.tag_same ∙ structure)
            (λ e. defined (shape.flags_same ∙ e));
      program = λ kind. visited_program (sym shape.metadata ∙ kind);
    }
