-- ===== src/Di/Node/Writes.antt =====
-- The two changes that `visit_mdnode` makes to a node, its name and its elements, read back through
-- LLVM's laws.
use bpf_linker.Prelude.{
  ℕ, ◌≡◌, ◌≢◌, refl, ◌∙◌, true, false, ◌&&◌, some, List, [], ◌∷◌, map, arith, ◌==◌, if◌then◌else◌,
  Text, All,
}
use bpf_linker.Outcome.{ok, ◌>>=◌}
use bpf_linker.Types.Api.{Ref, Api}
use bpf_linker.Types.Ir.{has_nul, replace_name}
use bpf_linker.Types.Di.{elements_operand}
use bpf_linker.Types.Laws.{range_map_congr, MetadataLaws, operand_list}
use bpf_linker.Di.Names.Valid.{IsNameChar}
use bpf_linker.Di.Sanitizer.{Sanitizer, unwrapping}

pub IsNameChar-nul : (t : Text) → All IsNameChar t → has_nul t ≡ false
IsNameChar-nul [] h = refl
IsNameChar-nul (c ∷ t) h = ground (arith, IsNameChar-nul t)

module _ {L : Type 0} (api : Api L) where
  -- The state after the operand `i` of `v` was set to a new string.
  abbrev pub set_name : Ref → ℕ → Text → L → L
  set_name v i t l =
      let (m, l') = api.md_string_in_context t l in api.replace_md_node_operand_with v i m l'

  -- The state after the elements of `v` were set to a new node.
  abbrev pub set_elements : Ref → List Ref → L → L
  set_elements v es l =
      let (m, l') = api.md_node_in_context es l in
      api.replace_md_node_operand_with v elements_operand
        (api.value_as_metadata (api.metadata_as_value m)) l'

  pub replace_name_lem :
      (v : Ref) (i : ℕ) (t : Text) (s : Sanitizer L)
      → has_nul t ≡ false
      → unwrapping (replace_name api v i t) s ≡ (ok tt, record s { llvm = set_name v i t s.llvm })
  unfolding unwrapping replace_name ◌>>=◌
  replace_name_lem v i t s h = rw h

  module _ (laws : MetadataLaws api) where
    pub operand-set_name :
        (v : Ref) (i : ℕ) (t : Text) (l : L) (w : Ref) (j : ℕ)
        → api.operand (set_name v i t l) w j ≡ (
            if w == v && j == i
            then api.metadata_as_value (api.md_string_in_context t l).0
            else api.operand l w j)
    operand-set_name v i t l w j = simp (laws.operand-replace, laws.operand-string)

    pub md_string-set_name :
        (v : Ref) (i : ℕ) (t : Text) (l : L)
        → api.md_string (set_name v i t l) (api.operand (set_name v i t l) v i) ≡ some t
    md_string-set_name v i t l =
        let here : (v == v && i == i) ≡ true = ground arith in
        rw (operand-set_name v i t l v i) (rw (here, laws.md_string-replace, laws.md_string-string))

    pub operand_list-set_name :
        (v : Ref) (i : ℕ) (t : Text) (l : L) (w : Ref)
        → w ≢ v
        → operand_list api (set_name v i t l) w ≡ operand_list api l w
    operand_list-set_name v i t l w h =
        rw (laws.num_operands-replace, laws.num_operands-string)
          (range_map_congr _ _ (λ j. ground (arith, operand-set_name v i t l w j)) 0
            (api.num_operands l w))

    -- The other operands of the old nodes stay.
    pub operand-set_elements_ne :
        (v : Ref) (es : List Ref) (l : L) (w : Ref) (j : ℕ)
        → w ≢ api.metadata_as_value (api.md_node_in_context es l).0
        → (w == v && j == elements_operand) ≡ false
        → api.operand (set_elements v es l) w j ≡ api.operand l w j
    operand-set_elements_ne v es l w j old other =
        rw laws.operand-replace (rw other (laws.operand-node es l w j old))

    module _ (v : Ref) (es : List Ref) (l : L)
        (fresh : v ≢ api.metadata_as_value (api.md_node_in_context es l).0) where
      abbrev node : Ref
      node = api.metadata_as_value (api.md_node_in_context es l).0

      pub operand-set_elements : api.operand (set_elements v es l) v elements_operand ≡ node
      operand-set_elements =
          let here : (v == v) ≡ true = ground arith in
          rw (laws.operand-replace) (rw (here, laws.metadata_of_value))

      -- The operands of the new node are the elements.
      pub operand_list-set_elements :
          operand_list api (set_elements v es l) node ≡ map api.metadata_as_value es
      operand_list-set_elements = rw laws.num_operands-replace (
          range_map_congr _ _
            (λ j. ground (
              arith,
              laws.operand-replace v elements_operand (api.value_as_metadata node)
                  (api.md_node_in_context es l).1 node j,
            ))
            0 _
          ∙ laws.operand_list-node es l)
