-- ===== src/Di/Node/Structure.antt =====
-- What the kernel sees of a structure after `visit_mdnode`: its elements and its name.
use mathlib.Core.List.{Perm, append-nil}
use bpf_linker.Prelude.{
  ℕ, ◌≡◌, ◌≢◌, refl, sym, ap, subst, ◌∙◌, Bool, true, false, ◌||◌, ◌&&◌, Option, none, some, List,
  [], ◌∷◌, ◌++◌, map, arith, ◌==◌, if◌then◌else◌, Text,
}
use bpf_linker.Types.Api.{Ref, Api}
use bpf_linker.Types.Ir.{Metadata}
use bpf_linker.Types.Di.{
  offset_in_bits, elements, composite_name, flags, type_name_operand, elements_operand,
}
use bpf_linker.Types.Laws.{MetadataLaws, operand_list}
use bpf_linker.Di.Names.{DefaultHasher}
use bpf_linker.Di.Sort.{sort_by_key}
use bpf_linker.Di.Sort.Laws.{
  IsSorted, with_key, IsSorted-sort_by_key, perm-sort_by_key, with_key-sort_by_key,
}
use bpf_linker.Di.Sanitizer.{Sanitizer}
use bpf_linker.Di.Scan.{log_name}
use bpf_linker.Di.Scan.Laws.{has_variant, before_variant, has_marker, fields}
use bpf_linker.Di.Node.{visit_structure}
use bpf_linker.Di.Node.Writes.{
  set_elements, operand-set_name, md_string-set_name, operand_list-set_name, operand-set_elements,
  operand_list-set_elements, operand-set_elements_ne,
}
use bpf_linker.Di.Node.Effect.{
  sanitized, with_sanitized, after_members, after_rename, found, after_structure,
  visit_structure_lem,
}

before_variant_all :
    {L : Type 0} (api : Api L) (l : L) (es : List Metadata)
    → has_variant api l es ≡ false
    → before_variant api l es ≡ es
before_variant_all api l [] h = refl
before_variant_all api l (e ∷ es) h = ground (arith, before_variant_all api l es)

module _ {L : Type 0} (hasher : DefaultHasher) (api : Api L) (laws : MetadataLaws api) where
  map-value : (vs : List Ref) → map api.metadata_as_value (map api.value_as_metadata vs) ≡ vs
  map-value [] = refl
  map-value (v ∷ vs) = cc (laws.metadata_of_value v, map-value vs)

  -- A change of the name is not a change of the elements.
  elements-after_rename :
      (v : Ref) (b : Bool) (name : Option Text) (l : L)
      → api.operand (after_rename hasher api v b name l) v elements_operand
        ≡ api.operand l v elements_operand
  elements-after_rename v true name l =
      ground (arith, operand-set_name api laws v type_name_operand [] l v elements_operand)
  elements-after_rename v false none l = refl
  elements-after_rename v false (some n) l = ground (
    arith,
    operand-set_name api laws v type_name_operand (sanitized hasher n) l v elements_operand,
  )

  operand_list-after_rename :
      (v : Ref) (b : Bool) (name : Option Text) (l : L) (w : Ref)
      → w ≢ v
      → operand_list api (after_rename hasher api v b name l) w ≡ operand_list api l w
  operand_list-after_rename v true name l w h =
      operand_list-set_name api laws v type_name_operand [] l w h
  operand_list-after_rename v false none l w h = refl
  operand_list-after_rename v false (some n) l w h =
      operand_list-set_name api laws v type_name_operand (sanitized hasher n) l w h

  named :
      (v : Ref) (b : Bool) (n : Text) (l : L)
      → api.md_string
          (after_rename hasher api v b (some n) l)
          (api.operand (after_rename hasher api v b (some n) l) v type_name_operand)
        ≡ some (if b then [] else sanitized hasher n)
  named v true n l = md_string-set_name api laws v type_name_operand [] l
  named v false n l = md_string-set_name api laws v type_name_operand (sanitized hasher n) l

  operand-after_rename_ne :
      (v : Ref) (b : Bool) (name : Option Text) (l : L) (w : Ref) (j : ℕ)
      → (w == v && j == type_name_operand) ≡ false
      → api.operand (after_rename hasher api v b name l) w j ≡ api.operand l w j
  operand-after_rename_ne v true name l w j h =
      rw (operand-set_name api laws v type_name_operand [] l w j) (rw h)
  operand-after_rename_ne v false none l w j h = refl
  operand-after_rename_ne v false (some n) l w j h =
      rw (operand-set_name api laws v type_name_operand (sanitized hasher n) l w j) (rw h)

  operand-after_members_ne :
      (v : Ref) (b : Bool) (ms : List Ref) (l : L) (w : Ref) (j : ℕ)
      → (w == v && j == elements_operand) ≡ false
      → ((es : List Ref) → w ≢ api.metadata_as_value (api.md_node_in_context es l).0)
      → api.operand (after_members hasher api v b ms l) w j ≡ api.operand l w j
  operand-after_members_ne v true ms l w j h old =
      operand-set_elements_ne api laws v [] l w j (old []) h
  operand-after_members_ne v false [] l w j h old = refl
  operand-after_members_ne v false (m ∷ ms) l w j h old =
      operand-set_elements_ne api laws v _ l w j (old _) h

  -- The elements of a structure after both changes.
  elements_after :
      (v : Ref) (b : Bool) (name : Option Text) (es : List Ref) (l : L)
      → v ≢ api.metadata_as_value (api.md_node_in_context es l).0
      → operand_list api (after_rename hasher api v b name (set_elements api v es l)) (
          api.operand
            (after_rename hasher api v b name (set_elements api v es l))
            v
            elements_operand)
        ≡ map api.metadata_as_value es
  elements_after v b name es l fresh = rw (elements-after_rename v b name) (
      rw (operand-set_elements api laws v es l fresh) (
        operand_list-after_rename v b name (set_elements api v es l) _ (λ e. fresh (sym e))
        ∙ operand_list-set_elements api laws v es l fresh))

  module _ (v : Ref) (s : Sanitizer L) (defined : flags api s.llvm v ≢ api.di_flag_fwd_decl) where
    abbrev after : Sanitizer L
    after = (visit_structure hasher api v s).1

    abbrev before_elements : List Metadata
    before_elements = elements api s.llvm v

    abbrev name : Option Text
    name = composite_name api s.llvm v

    abbrev final : Sanitizer L
    final = record s {
      llvm = after_structure hasher api v s;
      skipped_types = (found hasher api v s).skipped_types;
    }

    to_after : (P : Sanitizer L → Type 0) → P final → P after
    to_after P h = subst P (sym (ap (λ r. r.1) (visit_structure_lem hasher api v s defined))) h

    -- A data-carrying enum, that is a structure with a variant part among its elements that is no
    -- forward declaration, loses all its elements, and its name is noted as skipped, once. The node
    -- of the new elements must be another than the structure.
    pub visit_structure_enum :
        has_variant api s.llvm before_elements ≡ true
        → ((es : List Ref) → v ≢ api.metadata_as_value (api.md_node_in_context es s.llvm).0)
        → (operand_list api after.llvm (api.operand after.llvm v elements_operand) ≡ [])
          × (after.skipped_types
              ≡ s.skipped_types
                ++ log_name (with_sanitized hasher (composite_name api s.llvm v)) ∷ [])
    visit_structure_enum variant fresh =
        to_after
          (λ t.
            (operand_list api t.llvm (api.operand t.llvm v elements_operand) ≡ [])
            × (t.skipped_types
                ≡ s.skipped_types
                  ++ log_name (with_sanitized hasher (composite_name api s.llvm v)) ∷ []))
          (rw variant (elements_after v _ name [] s.llvm (fresh []), refl))

    -- Any other structure that is no forward declaration and has fields left keeps exactly the
    -- fields whose type is not the map marker, in the order of their offsets, those at one offset in
    -- their old order, and nothing is noted as skipped. The node of the new elements must be another
    -- than the structure.
    pub visit_structure_fields :
        (m : Ref) (ms : List Ref)
        → has_variant api s.llvm before_elements ≡ false
        → fields api s.llvm before_elements ≡ m ∷ ms
        → ((es : List Ref) → v ≢ api.metadata_as_value (api.md_node_in_context es s.llvm).0)
        → (sorted : List Ref) × (operand_list api after.llvm
              (api.operand after.llvm v elements_operand)
            ≡ sorted)
          × IsSorted (offset_in_bits api s.llvm) sorted
          × Perm sorted (m ∷ ms)
          × ((k : ℕ)
              → with_key (offset_in_bits api s.llvm) k sorted
                ≡ with_key (offset_in_bits api s.llvm) k (m ∷ ms))
          × (after.skipped_types ≡ s.skipped_types)
    visit_structure_fields m ms plain e fresh =
        let key = offset_in_bits api s.llvm in
        let sorted = sort_by_key key (m ∷ ms) in
        (
          sorted,
          to_after (λ t. operand_list api t.llvm (api.operand t.llvm v elements_operand) ≡ sorted)
              (rw (plain, before_variant_all api s.llvm before_elements plain, e)
                (elements_after v _ name (map api.value_as_metadata sorted) s.llvm (fresh _)
                  ∙ map-value sorted)),
          IsSorted-sort_by_key key (m ∷ ms),
          perm-sort_by_key key (m ∷ ms),
          λ k. with_key-sort_by_key key k (m ∷ ms),
          to_after (λ t. t.skipped_types ≡ s.skipped_types) (rw plain (append-nil s.skipped_types)),
        )

    -- A structure that has a name and is no forward declaration becomes anonymous if a map marker is
    -- among its fields before a variant part, and else gets the sanitized name.
    pub visit_structure_name :
        (n : Text)
        → name ≡ some n
        → api.md_string after.llvm (api.operand after.llvm v type_name_operand)
          ≡ some (
              if has_marker api s.llvm (before_variant api s.llvm before_elements)
              then []
              else sanitized hasher n)
    visit_structure_name n e =
        to_after
          (λ t.
            api.md_string t.llvm (api.operand t.llvm v type_name_operand)
            ≡ some (
                if has_marker api s.llvm (before_variant api s.llvm before_elements)
                then []
                else sanitized hasher n))
          (rw e (named v (has_marker api s.llvm (before_variant api s.llvm before_elements)) n _))

    -- Visiting a structure that is no forward declaration changes no operand of any other node that
    -- was there, and none of its own but its name and its elements.
    pub visit_structure_frame :
        (w : Ref) (j : ℕ)
        → (w == v && (j == type_name_operand || j == elements_operand)) ≡ false
        → ((es : List Ref) → w ≢ api.metadata_as_value (api.md_node_in_context es s.llvm).0)
        → api.operand after.llvm w j ≡ api.operand s.llvm w j
    visit_structure_frame w j other old =
        to_after (λ t. api.operand t.llvm w j ≡ api.operand s.llvm w j)
          (operand-after_rename_ne v (found hasher api v s).remove_name name _ w j (ground arith)
            ∙ operand-after_members_ne v (found hasher api v s).is_data_carrying_enum
                (found hasher api v s).members s.llvm w j (ground arith) old)
