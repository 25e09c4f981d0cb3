-- ===== src/Types/Api.antt =====
-- What the linker calls of LLVM's C interface to walk and change values and metadata. LLVM is not
-- part of the repository: `L` is everything that LLVM owns, and the calls are parameters.
use bpf_linker.Prelude.{ℕ, Bool, Option, List, Text}

-- `LLVMValueRef`, `LLVMMetadataRef` and the other pointers: an address, and 0 is null.
abbrev pub Ref : Type 0
Ref = ℕ

-- `LLVMMetadataKind`, as llvm/types/ir.rs lists it.
pub data MetadataKind : Type 0 where
  di_composite_type di_derived_type di_subprogram : MetadataKind
  di_global_variable di_common_block md_string constant_as_metadata local_as_metadata : MetadataKind
  distinct_md_operand_placeholder md_tuple di_location di_expression : MetadataKind
  di_global_variable_expression generic_di_node di_subrange di_enumerator di_basic_type :
      MetadataKind
  di_subroutine_type di_file di_compile_unit di_lexical_block di_lexical_block_file : MetadataKind
  di_namespace di_module di_template_type_parameter di_template_value_parameter : MetadataKind
  di_local_variable di_label di_obj_c_property di_imported_entity di_macro di_macro_file :
      MetadataKind
  di_string_type di_generic_subrange di_arg_list di_assign_id : MetadataKind

-- The arguments of `LLVMDIBuilderCreateFunction`.
pub record FunctionArgs : Type 0 where
  pub scope : Ref
  pub name : Text
  pub linkage_name : Option Text
  pub file : Ref
  pub line : ℕ
  pub ty : Ref
  pub is_local_to_unit : ℕ
  pub is_definition : ℕ
  pub scope_line : ℕ
  pub flags : ℕ
  pub is_optimized : ℕ

-- The calls, without their prefix `LLVM`. A test `LLVMIsA…` is whether it returns a pointer.
pub record Api (L : Type 0) : Type 0 where
  -- Constants of the `gimli` and `llvm-sys` crates.
  pub dw_tag_pointer_type : ℕ
  pub dw_tag_structure_type : ℕ
  pub dw_tag_variant_part : ℕ
  pub di_flag_fwd_decl : ℕ
  pub metadata_as_value : Ref → Ref
  pub value_as_metadata : Ref → Ref
  pub is_a_md_node : L → Ref → Bool
  pub is_a_function : L → Ref → Bool
  pub is_a_user : L → Ref → Bool
  pub is_a_global_object : L → Ref → Bool
  pub is_a_instruction : L → Ref → Bool
  pub num_operands : L → Ref → ℕ
  pub operand : L → Ref → ℕ → Ref
  pub count_params : L → Ref → ℕ
  pub param : L → Ref → ℕ → Ref
  -- The metadata attached to a value with its kinds, `none` for a null pointer.
  pub global_copy_all_metadata : L → Ref → Option (List (Ref × ℕ))
  pub metadata_kind : L → Ref → MetadataKind
  pub di_node_tag : L → Ref → ℕ
  pub di_type_flags : L → Ref → ℕ
  pub di_type_line : L → Ref → ℕ
  pub di_type_offset_in_bits : L → Ref → ℕ
  -- C strings, as `to_string_lossy` reads them; `none` for a null pointer.
  pub di_type_name : L → Ref → Option Text
  pub di_file_filename : L → Ref → Option Text
  pub di_scope_file : L → Ref → Ref
  pub di_subprogram_line : L → Ref → ℕ
  -- `none` where the bytes are not UTF-8.
  pub md_string : L → Ref → Option Text
  pub value_name : L → Ref → Option Text
  pub get_subprogram : L → Ref → Ref
  pub set_subprogram : Ref → Ref → L → L
  pub replace_md_node_operand_with : Ref → ℕ → Ref → L → L
  pub set_operand : Ref → ℕ → Ref → L → L
  pub md_string_in_context : Text → L → Ref × L
  pub md_node_in_context : List Ref → L → Ref × L
  pub create_di_builder : Ref → L → Ref × L
  pub dispose_di_builder : Ref → L → L
  pub di_builder_create_function : Ref → FunctionArgs → L → Ref × L
  pub di_builder_finalize_subprogram : Ref → Ref → L → L
