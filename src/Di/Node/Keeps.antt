-- ===== src/Di/Node/Keeps.antt =====
-- The visit of a node, and a property of LLVM's state that the sanitizer's calls keep.
use bpf_linker.Prelude.{
  ℕ, inl, inr, Bool-cases, Bool, true, false, Option, none, some, List, [], ◌∷◌, map, Text,
}
use bpf_linker.Outcome.{◌>>=◌, ◌>>◌}
use bpf_linker.Outcome.Keeps.{Keeps, Keeps-bind, Keeps-if, Keeps-pure, Keeps-unwrap}
use bpf_linker.Types.Api.{Ref, Api, MetadataKind, di_composite_type, di_derived_type, di_subprogram}
use bpf_linker.Types.Ir.{of_kind, has_nul, replace_name, with_elements}
use bpf_linker.Types.Di.{
  type_name_operand, elements_operand, replace_type_name, replace_subprogram_name, replace_elements,
}
use bpf_linker.Di.Names.{DefaultHasher}
use bpf_linker.Di.Sanitizer.{Sanitizer, unwrapping, changing, calling, reading}
use bpf_linker.Di.Keeps.{
  Keeps-unwrapping, Keeps-changing, Keeps-calling, Keeps-reading, visit_rules,
}
use bpf_linker.Di.Node.{
  names_of, replace_members, rename, scanning, visit_structure, rename_subprogram, visit_metadata,
  visit_mdnode,
}
use bpf_linker.Di.Linkage.Stable.{Stable}

pub record MetadataKeeps {L : Type 0} (api : Api L) (P : L → Type 0) : Type 0 where
  pub stable : Stable api P
  pub of_replace :
      (v : Ref) (i : ℕ) (m : Ref) (l : L) → P l → P (api.replace_md_node_operand_with v i m l)
  pub of_string : (t : Text) (l : L) → P l → P (api.md_string_in_context t l).1
  pub of_operand : (v : Ref) (i : ℕ) (x : Ref) (l : L) → P l → P (api.set_operand v i x l)
  pub of_subprogram : (f p : Ref) (l : L) → P l → P (api.set_subprogram f p l)
  pub of_builder : (m : Ref) (l : L) → P l → P (api.create_di_builder m l).1
  pub of_dispose : (b : Ref) (l : L) → P l → P (api.dispose_di_builder b l)

-- A property that a node's new name, its new elements and the node of these keep.
pub record NodeKeeps {L : Type 0} (api : Api L) (P : L → Type 0) : Type 0 where
  pub of_name : (v : Ref) (x : Text) (l : L) → P l → P (replace_name api v type_name_operand x l).1
  pub of_elements : (v node : Ref) (l : L) → P l → P (replace_elements api v node l)
  pub of_members : (ms : List Ref) (l : L) → P l → P (with_elements api ms l).1

module _ {L : Type 0} (api : Api L) (P : L → Type 0) (keeps : MetadataKeeps api P) where
  name_kept : (v : Ref) (i : ℕ) (x : Text) (l : L) → P l → P (replace_name api v i x l).1
  unfolding replace_name ◌>>=◌ ◌>>◌
  name_kept v i x l h = elim (Bool-cases (has_nul x)) [
    | inl e ↦ rw e h
    | inr e ↦ rw e (keeps.of_replace v i _ _ (keeps.of_string x l h))
  ]

  pub NodeKeeps-of_MetadataKeeps : NodeKeeps api P
  NodeKeeps-of_MetadataKeeps = record {
    of_name = λ v. name_kept v type_name_operand;
    of_elements = λ v node. keeps.of_replace v elements_operand (api.value_as_metadata node);
    of_members = λ ms. keeps.stable.of_node (map api.value_as_metadata ms);
  }

-- The property may also be one of the new subprograms that are to be put in.
module _ {L : Type 0} (hasher : DefaultHasher) (api : Api L) (P : List (ℕ × Ref) → L → Type 0)
    (keeps : (rs : List (ℕ × Ref)) → NodeKeeps api (P rs)) where
  abbrev pub Holds : Sanitizer L → Type 0
  Holds s = P s.replace_operands s.llvm

  Keeps-replace_name :
      (v : Ref) (x : Text) → Keeps Holds (unwrapping (replace_name api v type_name_operand x))
  Keeps-replace_name v x = Keeps-unwrapping _ (λ s. (keeps s.replace_operands).of_name v x s.llvm)

  Keeps-names_of : (name : Option Text) → Keeps Holds (names_of hasher api name)
  unfolding names_of
  Keeps-names_of none = search visit_rules
  Keeps-names_of (some name) = search visit_rules

  Keeps-replace_elements : (v node : Ref) → Keeps Holds (changing (replace_elements api v node))
  Keeps-replace_elements v node =
      Keeps-changing _ (λ s. (keeps s.replace_operands).of_elements v node s.llvm)

  Keeps-with_elements : (ms : List Ref) → Keeps Holds (calling (with_elements api ms))
  Keeps-with_elements ms = Keeps-calling _ (λ s. (keeps s.replace_operands).of_members ms s.llvm)

  Keeps-replace_members :
      (v : Ref) (b : Bool) (ms : List Ref) → Keeps Holds (replace_members hasher api v b ms)
  unfolding replace_members
  Keeps-replace_members v true ms =
      Keeps-bind _ _ (Keeps-with_elements []) (Keeps-replace_elements v)
  Keeps-replace_members v false [] = search visit_rules
  Keeps-replace_members v false (m ∷ ms) =
      Keeps-bind _ _ (Keeps-reading _)
        λ sorted. Keeps-bind _ _ (Keeps-with_elements sorted) (Keeps-replace_elements v)

  Keeps-rename :
      (v : Ref) (b : Bool) (names : Option (Text × Text))
      → Keeps Holds (rename hasher api v b names)
  unfolding rename replace_type_name
  Keeps-rename v true names = Keeps-replace_name v []
  Keeps-rename v false none = search visit_rules
  Keeps-rename v false (some (n, x)) = Keeps-replace_name v x

  Keeps-scanning :
      (names : Option (Text × Text)) (v : Ref) → Keeps Holds (scanning hasher api names v)
  unfolding scanning
  Keeps-scanning names v = record { at = λ t h. h }

  Keeps-visit_structure : (v : Ref) → Keeps Holds (visit_structure hasher api v)
  unfolding visit_structure
  Keeps-visit_structure v =
      search (visit_rules, Keeps-names_of, Keeps-scanning, Keeps-replace_members, Keeps-rename)
        depth 14

  Keeps-rename_subprogram :
      (v : Ref) (name : Option Text) → Keeps Holds (rename_subprogram hasher api v name)
  unfolding rename_subprogram replace_subprogram_name
  Keeps-rename_subprogram v none = search visit_rules
  Keeps-rename_subprogram v (some n) = Keeps-bind _ _ (Keeps-unwrap _) (Keeps-replace_name v)

  Keeps-visit_kind :
      (k : MetadataKind) (v : Ref) → Keeps Holds (visit_metadata hasher api (of_kind k v))
  unfolding visit_metadata replace_type_name
  Keeps-visit_kind di_composite_type v = search (visit_rules, Keeps-visit_structure) depth 9
  Keeps-visit_kind di_derived_type v =
      Keeps-bind _ _ (Keeps-reading _) λ t. Keeps-if _ _ _ (Keeps-replace_name v []) (Keeps-pure tt)
  Keeps-visit_kind di_subprogram v = search (visit_rules, Keeps-rename_subprogram) depth 9
  Keeps-visit_kind _ v = search visit_rules

  pub Keeps-visit_mdnode : (v : Ref) → Keeps Holds (visit_mdnode hasher api v)
  unfolding visit_mdnode reading ◌>>=◌
  Keeps-visit_mdnode v = record {
    at = λ t h. (Keeps-visit_kind (api.metadata_kind t.llvm (api.value_as_metadata v)) v).at t h;
  }
