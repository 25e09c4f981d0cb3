-- ===== src/Di/Node/Cost.antt =====
-- What `visit_mdnode` adds to what is left to visit: a node and a string at most.
use bpf_linker.Prelude.{
  ℕ, ◌+◌, ◌<◌, ◌≡◌, refl, sym, subst, ◌∙◌, inl, inr, Bool-cases, Option-cases, Bool, true, false,
  Option, none, some, List, [], ◌∷◌, map, arith, ◌==◌, if◌then◌else◌, All, Text,
}
use bpf_linker.Outcome.{◌>>=◌, pure}
use bpf_linker.Types.Api.{Ref, Api}
use bpf_linker.Types.Ir.{Metadata, composite_type, derived_type, subprogram, from_value_ref}
use bpf_linker.Types.Di.{
  tag, flags, offset_in_bits, elements, composite_name, subprogram_name, type_name_operand,
  elements_operand,
}
use bpf_linker.Types.Laws.{MetadataLaws}
use bpf_linker.Types.Live.{All-range_map}
use bpf_linker.Types.Frontier.{creates, FrontierLaws}
use bpf_linker.Di.Cost.{
  InBounds, Costs, Costs-refl, Costs-trans, Costs-le, set_name-Costs, set_elements-Costs,
}
use bpf_linker.Di.Names.{DefaultHasher}
use bpf_linker.Di.Sort.Laws.{All-sort_by_key}
use bpf_linker.Di.Scan.Laws.{OfField, OfField-of_kind, All-scan, scan_lem}
use bpf_linker.Di.Sanitizer.{Sanitizer, reading}
use bpf_linker.Di.Node.{
  start_scan, visit_structure, rename_subprogram, visit_metadata, visit_mdnode,
}
use bpf_linker.Di.Node.Writes.{set_name}
use bpf_linker.Di.Node.Effect.{
  sanitized, with_sanitized, after_members, after_rename, found, visit_structure_lem,
  visit_structure_declaration,
}
use bpf_linker.Di.Node.Total.{rename_pointer_lem, rename_subprogram_lem, visit_subprogram_lem}

module _ {L : Type 0} (hasher : DefaultHasher) (api : Api L) (instructions : L → Ref → List Ref)
    (frontier : L → ℕ) (c : ℕ) (laws : MetadataLaws api)
    (bounds : FrontierLaws api instructions frontier) where
  -- From one state of the sanitizer to the next, with the same sets.
  pub record Spends (n : ℕ) (s t : Sanitizer L) : Type 0 where
    pub cost : Costs api instructions frontier c n s.visited_nodes s.replace_operands s.llvm t.llvm
    pub visited : t.visited_nodes ≡ s.visited_nodes
    pub replaced : t.replace_operands ≡ s.replace_operands

  abbrev Inside : Sanitizer L → Type 0
  Inside s = InBounds api instructions frontier c s.replace_operands s.llvm

  pub Spends-refl : (n : ℕ) (s : Sanitizer L) → Inside s → Spends n s s
  Spends-refl n s h = record {
    cost = Costs-refl api instructions frontier c n s.llvm h;
    visited = refl;
    replaced = refl;
  }

  module _ (vs : List ℕ) (rs : List (ℕ × Ref)) where
    members-Costs :
        (v : Ref) (ms : List Ref) (l : L)
        → InBounds api instructions frontier c rs l
        → All (λ r. r < c + frontier l) ms
        → All (λ e. api.metadata_as_value e < c + frontier l) (map api.value_as_metadata ms)
    members-Costs v [] l h lt = tt
    members-Costs v (m ∷ ms) l h lt =
        (omega (arith, laws.metadata_of_value m, lt.0), members-Costs v ms l h lt.1)

    after_members-Costs :
        (v : Ref) (b : Bool) (ms : List Ref) (l : L)
        → InBounds api instructions frontier c rs l
        → All (λ r. r < c + frontier l) ms
        → Costs api instructions frontier c 1 vs rs l (after_members hasher api v b ms l)
    after_members-Costs v true ms l h lt =
        set_elements-Costs api instructions frontier c laws bounds vs rs v [] l h tt
    after_members-Costs v false [] l h lt = Costs-refl api instructions frontier c 1 l h
    after_members-Costs v false (m ∷ ms) l h lt =
        set_elements-Costs api instructions frontier c laws bounds vs rs v _ l h (
          members-Costs v _ l h
            (All-sort_by_key (offset_in_bits api l) (λ r. r < c + frontier l) (m ∷ ms) lt))

    after_rename-Costs :
        (v : Ref) (b : Bool) (name : Option Text) (l : L)
        → InBounds api instructions frontier c rs l
        → Costs api instructions frontier c 1 vs rs l (after_rename hasher api v b name l)
    after_rename-Costs v true name l h =
        set_name-Costs api instructions frontier c laws bounds vs rs v type_name_operand [] l h
    after_rename-Costs v false none l h = Costs-refl api instructions frontier c 1 l h
    after_rename-Costs v false (some n) l h =
        set_name-Costs api instructions frontier c laws bounds vs rs v type_name_operand
          (sanitized hasher n) l h

  found-Inside :
      (v : Ref) (s : Sanitizer L)
      → Inside s
      → All (λ r. r < c + frontier s.llvm) (found hasher api v s).members
  found-Inside v s h =
      let P = λ (r : Ref). r < c + frontier s.llvm in
      let names = with_sanitized hasher (composite_name api s.llvm v) in
      let es = api.operand s.llvm v elements_operand in
      let fields : All (OfField P) (elements api s.llvm v) =
        All-range_map (OfField P) _ 0 _ λ j low high.
          OfField-of_kind P
            (api.metadata_kind s.llvm (api.value_as_metadata (api.operand s.llvm es j))) _
            (h.operand es j) in
      subst (λ r. All P r.members)
        (scan_lem api s.llvm names (elements api s.llvm v) (start_scan hasher api s))
        (All-scan api s.llvm P names (elements api s.llvm v) (start_scan hasher api s) fields tt)

  visit_structure-Spends :
      (v : Ref) (s : Sanitizer L) → Inside s → Spends 2 s (visit_structure hasher api v s).1
  visit_structure-Spends v s h = elim (Bool-cases (flags api s.llvm v == api.di_flag_fwd_decl)) [
    | inl e ↦
        subst (λ r. Spends 2 s r.1)
          (sym (visit_structure_declaration hasher api v s (ground arith))) (Spends-refl 2 s h)
    | inr e ↦
        let old = found hasher api v s in
        let first =
          after_members-Costs s.visited_nodes s.replace_operands v old.is_data_carrying_enum
            old.members s.llvm h (found-Inside v s h) in
        let second =
          after_rename-Costs s.visited_nodes s.replace_operands v old.remove_name
            (composite_name api s.llvm v) _ first.inside in
        subst (λ r. Spends 2 s r.1) (sym (visit_structure_lem hasher api v s (λ x. ground arith)))
          (record {
            cost = Costs-trans api instructions frontier c first second;
            visited = refl;
            replaced = refl;
          })
  ]

  name-Spends :
      (v : Ref) (t : Text) (s : Sanitizer L)
      → Inside s
      → Spends 2 s (record s { llvm = set_name api v type_name_operand t s.llvm })
  name-Spends v t s h = record {
    cost = Costs-le api instructions frontier c (omega arith) (
        set_name-Costs api instructions frontier c laws bounds s.visited_nodes s.replace_operands v
          type_name_operand t s.llvm h);
    visited = refl;
    replaced = refl;
  }

  abbrev pub spending : Metadata → ℕ
  spending m = if creates m then 2 else 0

  visit_metadata-Spends :
      (m : Metadata) (s : Sanitizer L)
      → Inside s
      → Spends (spending m) s (visit_metadata hasher api m s).1
  unfolding visit_metadata rename_subprogram reading ◌>>=◌ pure
  visit_metadata-Spends (composite_type v) s h =
      elim (Bool-cases (tag api s.llvm v == api.dw_tag_structure_type)) [
        | inl e ↦ rw e (visit_structure-Spends v s h)
        | inr e ↦ rw e (Spends-refl 2 s h)
      ]
  visit_metadata-Spends (derived_type v) s h =
      elim (Bool-cases (tag api s.llvm v == api.dw_tag_pointer_type)) [
        | inl e ↦
            subst (λ r. Spends 2 s r.1) (sym (rename_pointer_lem hasher api v s (ground arith)))
              (name-Spends v [] s h)
        | inr e ↦ rw e (Spends-refl 2 s h)
      ]
  visit_metadata-Spends (subprogram v) s h = elim (Option-cases (subprogram_name api s.llvm v)) [
    | inl e ↦ rw e (Spends-refl 2 s h)
    | inr (none, e) ↦
        subst (λ r. Spends 2 s r.1) (sym (visit_subprogram_lem hasher api v none s e))
          (Spends-refl 2 s h)
    | inr (some n, e) ↦
        subst (λ r. Spends 2 s r.1)
          (sym (
            visit_subprogram_lem hasher api v (some n) s e
            ∙ rename_subprogram_lem hasher api v n s))
          (name-Spends v (sanitized hasher n) s h)
  ]
  visit_metadata-Spends (Metadata.other v) s h = Spends-refl 0 s h

  pub visit_mdnode-Spends :
      (v : Ref) (s : Sanitizer L)
      → Inside s
      → Spends (spending (from_value_ref api s.llvm v)) s (visit_mdnode hasher api v s).1
  unfolding visit_mdnode reading ◌>>=◌
  visit_mdnode-Spends v s h = visit_metadata-Spends (from_value_ref api s.llvm v) s h
