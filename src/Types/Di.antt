-- ===== src/Types/Di.antt =====
-- llvm/types/di.rs: the debug information that the sanitizer reads and changes.
use bpf_linker.Prelude.{ℕ, Option, none, some, List, ◌==◌, if◌then◌else◌, Text}
use bpf_linker.Outcome.{Exec}
use bpf_linker.Types.Api.{Ref, Api}
use bpf_linker.Types.Ir.{Metadata, NulError, range_map, from_value_ref, replace_name}

-- `DITypeOperand`, `DIDerivedTypeOperand`, `DICompositeTypeOperand` and `DISubprogramOperand`: the
-- places of the operands in their nodes.
abbrev pub type_name_operand : ℕ
type_name_operand = 2

abbrev pub base_type_operand : ℕ
base_type_operand = 3

abbrev pub elements_operand : ℕ
elements_operand = 4

abbrev pub scope_operand : ℕ
scope_operand = 1

abbrev pub subprogram_name_operand : ℕ
subprogram_name_operand = 2

abbrev pub linkage_name_operand : ℕ
linkage_name_operand = 3

abbrev pub ty_operand : ℕ
ty_operand = 4

abbrev pub unit_operand : ℕ
unit_operand = 5

abbrev pub retained_nodes_operand : ℕ
retained_nodes_operand = 7

-- `NonNull::new(operand).map(…)`.
abbrev pub non_null {ℓ} : {A : Type ℓ} → (Ref → A) → Ref → Option A
non_null f r = if r == 0 then none else some (f r)

module _ {L : Type 0} (api : Api L) where
  -- `DIType::offset_in_bits`.
  abbrev pub offset_in_bits : L → Ref → ℕ
  offset_in_bits s v = api.di_type_offset_in_bits s (api.value_as_metadata v)

  -- `DIDerivedType::base_type`.
  abbrev pub base_type : L → Ref → Metadata
  base_type s v = from_value_ref api s (api.operand s v base_type_operand)

  -- `tag` of `DIDerivedType` and of `DICompositeType`.
  abbrev pub tag : L → Ref → ℕ
  tag s v = api.di_node_tag s (api.value_as_metadata v)

  -- `replace_name` of `DIDerivedType` and of `DICompositeType`.
  unfoldable pub replace_type_name : Ref → Text → Exec L NulError Unit
  replace_type_name v name = replace_name api v type_name_operand name

  -- `DICompositeType::elements`.
  abbrev pub elements : L → Ref → List Metadata
  elements s v =
      let es = api.operand s v elements_operand in
      range_map (λ i. from_value_ref api s (api.operand s es i)) 0
        (if es == 0 then 0 else api.num_operands s es)

  -- `DICompositeType::name`, `flags`, `line` and `file().filename()`.
  abbrev pub composite_name : L → Ref → Option Text
  composite_name s v = api.di_type_name s (api.value_as_metadata v)

  abbrev pub flags : L → Ref → ℕ
  flags s v = api.di_type_flags s (api.value_as_metadata v)

  abbrev pub line : L → Ref → ℕ
  line s v = api.di_type_line s (api.value_as_metadata v)

  abbrev pub filename : L → Ref → Option Text
  filename s v = api.di_file_filename s (api.di_scope_file s (api.value_as_metadata v))

  -- `DICompositeType::replace_elements`.
  abbrev pub replace_elements : Ref → Ref → L → L
  replace_elements v node =
      api.replace_md_node_operand_with v elements_operand (api.value_as_metadata node)

  -- `DISubprogram::name` and `linkage_name`: the outer `none` is the panic on text that is not
  -- UTF-8, the inner one a null operand.
  abbrev pub checked_string : L → Ref → Option (Option Text)
  checked_string s r =
      if r == 0
      then some none
      else elim (api.md_string s r) [ none ↦ none | some t ↦ some (some t) ]

  abbrev pub subprogram_name : L → Ref → Option (Option Text)
  subprogram_name s v = checked_string s (api.operand s v subprogram_name_operand)

  abbrev pub linkage_name : L → Ref → Option (Option Text)
  linkage_name s v = checked_string s (api.operand s v linkage_name_operand)

  -- `DISubprogram::ty`, `file`, `line`, `type_flags`.
  abbrev pub ty : L → Ref → Ref
  ty s v = api.value_as_metadata (api.operand s v ty_operand)

  abbrev pub subprogram_file : L → Ref → Ref
  subprogram_file s v = api.di_scope_file s (api.value_as_metadata v)

  abbrev pub subprogram_line : L → Ref → ℕ
  subprogram_line s v = api.di_subprogram_line s (api.value_as_metadata v)

  abbrev pub type_flags : L → Ref → ℕ
  type_flags s v = api.di_type_flags s (api.value_as_metadata v)

  unfoldable pub replace_subprogram_name : Ref → Text → Exec L NulError Unit
  replace_subprogram_name v name = replace_name api v subprogram_name_operand name

  -- `DISubprogram::scope`, `unit` and `retained_nodes`.
  abbrev pub scope : L → Ref → Option Ref
  scope s v = non_null api.value_as_metadata (api.operand s v scope_operand)

  abbrev pub unit : L → Ref → Option Ref
  unit s v = non_null api.value_as_metadata (api.operand s v unit_operand)

  abbrev pub retained_nodes : L → Ref → Option Ref
  retained_nodes s v = non_null api.value_as_metadata (api.operand s v retained_nodes_operand)

  -- `DISubprogram::set_unit` and `set_retained_nodes`.
  abbrev pub set_unit : Ref → Ref → L → L
  set_unit v u = api.replace_md_node_operand_with v unit_operand u

  abbrev pub set_retained_nodes : Ref → Ref → L → L
  set_retained_nodes v nodes = api.replace_md_node_operand_with v retained_nodes_operand nodes
