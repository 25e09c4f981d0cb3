-- ===== src/Tests/Traversal.antt =====
-- A graph with a cycle, on which the sanitizer's pass ends.
use bpf_linker.Prelude.{
  refl, ◌≡◌, ℕ, ◌||◌, ◌+◌, ◌≢◌, false, none, some, [], ◌∷◌, arith, ltb, ◌==◌, if◌then◌else◌, codes,
}
use bpf_linker.Outcome.{◌>>=◌, ◌>>◌, ok, err}
use bpf_linker.Types.Api.{Ref, Api, md_tuple}
use bpf_linker.Di.Sanitizer.{out_of_fuel, new}
use bpf_linker.Di.Visit.{Blocks}
use bpf_linker.Di.Visit.Ends.{AddressesBelow}
use bpf_linker.Di.Run.{run}
use bpf_linker.Di.Run.Ends.{RootsBelow, run_terminates}
use bpf_linker.Di.Run.{module_of, visit_roots}
use bpf_linker.Di.Node.{visit_mdnode, visit_metadata}
use bpf_linker.Di.Visit.{
  function_item, visit_all, visit_item, visit_with, visit_value, replace_operand, first_visit,
  visit_children, visit_operands_of, visit_operands, visit_entries, visit_function, visit_node,
  replace_found,
}
use bpf_linker.Di.Sanitizer.{Sanitizer, reading}
use bpf_linker.Tests.Memory.{constant_hasher}

abbrev small : Ref → Ref
small r = if ltb r 9 then r else 0

-- Function 1 has the operands 2 and 3, and these two have one another for operand.
abbrev cycle_operand : Ref → ℕ → Ref
cycle_operand v i =
    if v == 1 then (if i == 0 then 2 else 3) else if v == 2 then 3 else if v == 3 then 2 else 0

abbrev cycle_api : Api ℕ
cycle_api = record {
  dw_tag_pointer_type = 15;
  dw_tag_structure_type = 19;
  dw_tag_variant_part = 51;
  di_flag_fwd_decl = 4;
  metadata_as_value = small;
  value_as_metadata = λ v. v;
  is_a_md_node = λ s v. v == 2 || v == 3;
  is_a_function = λ s v. v == 1;
  is_a_user = λ s v. false;
  is_a_global_object = λ s v. v == 1;
  is_a_instruction = λ s v. v == 5;
  num_operands = λ s v. if v == 1 then 2 else 1;
  operand = λ s v i. cycle_operand v i;
  count_params = λ s f. 1;
  param = λ s f i. 4;
  global_copy_all_metadata = λ s v. if v == 1 then some ((3, 0) ∷ []) else none;
  metadata_kind = λ s v. md_tuple;
  di_node_tag = λ s v. 0;
  di_type_flags = λ s v. 0;
  di_type_line = λ s v. 0;
  di_type_offset_in_bits = λ s v. 0;
  di_type_name = λ s v. none;
  di_file_filename = λ s v. none;
  di_scope_file = λ s v. 0;
  di_subprogram_line = λ s v. 0;
  md_string = λ s v. none;
  value_name = λ s v. some (codes "entry");
  get_subprogram = λ s f. 0;
  set_subprogram = λ f p s. s + 1;
  replace_md_node_operand_with = λ v i m s. s + 1;
  set_operand = λ v i w s. s + 1;
  md_string_in_context = λ t s. (6, s + 1);
  md_node_in_context = λ es s. (6, s + 1);
  create_di_builder = λ m s. (7, s + 1);
  dispose_di_builder = λ b s. s + 1;
  di_builder_create_function = λ b args s. (8, s + 1);
  di_builder_finalize_subprogram = λ b p s. s + 1;
}

abbrev cycle_blocks : Blocks ℕ
cycle_blocks = record {
  instructions = λ s f. 5 ∷ [];
  globals = λ s m. [];
  global_aliases = λ s m. [];
  functions = λ s m. 1 ∷ [];
}

cycle_below : AddressesBelow cycle_api cycle_blocks 10
cycle_below = record {
  operand-lt = λ s v i. ground arith;
  metadata_as_value-lt = λ m. ground arith;
  param-lt = λ s f i. omega arith;
  instructions-lt = λ s f. (omega arith, tt);
}

cycle_roots : RootsBelow cycle_blocks 10
cycle_roots = record {
  globals-lt = λ s m. tt;
  global_aliases-lt = λ s m. tt;
  functions-lt = λ s m. (omega arith, tt);
}

run_terminates_example :
    (run constant_hasher cycle_api cycle_blocks 11 (codes "entry" ∷ []) (new cycle_api 50 51 0)).0
    ≢ err out_of_fuel
run_terminates_example =
    run_terminates constant_hasher cycle_api cycle_blocks 10 cycle_below cycle_roots 11
      (omega arith) (codes "entry" ∷ []) 50 51 0

abbrev cycle_start : Sanitizer ℕ
cycle_start = record {
  llvm = 0;
  context = 50;
  module_ref = 51;
  builder = 7;
  visited_nodes = [];
  replace_operands = [];
  skipped_types = [];
}

cycle_returns :
    (visit_roots constant_hasher cycle_api cycle_blocks 5 cycle_blocks.functions function_item
      cycle_start).0
    ≡ ok tt
unfolding visit_roots ◌>>=◌ module_of reading visit_all ◌>>◌ visit_item visit_with visit_value
    replace_operand first_visit visit_children visit_operands_of visit_operands visit_entries
    visit_function visit_node visit_mdnode visit_metadata replace_found
cycle_returns = refl
