-- ===== src/Types/Ir.antt =====
-- llvm/types/ir.rs: values, metadata nodes and functions.
use bpf_linker.Prelude.{
  ℕ, zero, suc, ◌+◌, Bool, false, ◌||◌, not, Option, none, some, List, [], ◌∷◌, map, ◌==◌,
  if◌then◌else◌, Text,
}
use bpf_linker.Outcome.{Exec, fail, call, modify, ◌>>=◌}
use bpf_linker.Types.Api.{Ref, Api, MetadataKind, di_composite_type, di_derived_type, di_subprogram}

-- `NulError` of `CString::new`.
pub data NulError : Type 0 where
  nul : NulError

abbrev pub has_nul : Text → Bool
has_nul [] = false
has_nul (c ∷ s) = c == 0 || has_nul s

pub data Value : Type 0 where
  md_node : Ref → Value
  function : Ref → Value
  other : Ref → Value

-- `Metadata`; each case holds its `value_ref`.
pub data Metadata : Type 0 where
  composite_type : Ref → Metadata
  derived_type : Ref → Metadata
  subprogram : Ref → Metadata
  other : Ref → Metadata

-- `start, start + 1, …`: the values of a Rust range mapped by `f`, `n` of them.
abbrev pub range_map {ℓ} : {A : Type ℓ} → (ℕ → A) → ℕ → ℕ → List A
range_map f start zero = []
range_map f start (suc n) = f start ∷ range_map f (start + 1) n

abbrev pub of_kind : MetadataKind → Ref → Metadata
of_kind di_composite_type v = composite_type v
of_kind di_derived_type v = derived_type v
of_kind di_subprogram v = subprogram v
of_kind _ v = Metadata.other v

abbrev pub value_ref : Value → Ref
value_ref (md_node v) = v
value_ref (function v) = v
value_ref (Value.other v) = v

module _ {L : Type 0} (api : Api L) where
  -- `Value::new`.
  abbrev pub new : L → Ref → Value
  new s v =
      if api.is_a_md_node s v
      then md_node v
      else if api.is_a_function s v
      then function v
      else Value.other v

  -- `Value::operands`: how many operands are to be read, `none` where the value has none to offer.
  abbrev pub operands : L → Value → Option ℕ
  operands s (md_node v) = some (api.num_operands s v)
  operands s (function v) = some (api.num_operands s v)
  operands s (Value.other v) = if api.is_a_user s v then some (api.num_operands s v) else none

  -- `Value::metadata_entries` and `MetadataEntries::new`.
  abbrev pub metadata_entries : L → Value → Option (List (Ref × ℕ))
  metadata_entries s value =
      let v = value_ref value in
      if not (api.is_a_global_object s v || api.is_a_instruction s v)
      then none
      else api.global_copy_all_metadata s v

  -- `Metadata::from_value_ref`.
  abbrev pub from_value_ref : L → Ref → Metadata
  from_value_ref s v = of_kind (api.metadata_kind s (api.value_as_metadata v)) v

  -- `Function::params`.
  abbrev pub params : L → Ref → List Ref
  params s f = range_map (api.param s f) 0 (api.count_params s f)

  -- `Function::subprogram` and `Function::set_subprogram`.
  abbrev pub function_subprogram : L → Ref → Option Ref
  function_subprogram s f =
      let p = api.get_subprogram s f in if p == 0 then none else some (api.metadata_as_value p)

  abbrev pub set_function_subprogram : Ref → Ref → L → L
  set_function_subprogram f p = api.set_subprogram f (api.value_as_metadata p)

  -- `MDNode::empty` and `MDNode::with_elements`.
  abbrev pub empty_node : L → Ref × L
  empty_node s = let (m, s') = api.md_node_in_context [] s in (api.metadata_as_value m, s')

  abbrev pub with_elements : List Ref → L → Ref × L
  with_elements es s =
      let (m, s') = api.md_node_in_context (map api.value_as_metadata es) s in
      (api.metadata_as_value m, s')

  -- `replace_name`.
  unfoldable pub replace_name : Ref → ℕ → Text → Exec L NulError Unit
  replace_name v index name = if has_nul name then fail nul else do
    n ← call (api.md_string_in_context name)
    modify (api.replace_md_node_operand_with v index n)
