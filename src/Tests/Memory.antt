-- ===== src/Tests/Memory.antt =====
-- A small memory of metadata nodes that keeps the laws of LLVM's calls, with one structure in it.
use bpf_linker.Prelude.{
  ℕ, zero, suc, ◌+◌, ◌≡◌, refl, sym, ap, subst, ◌∙◌, true, false, ◌&&◌, Option, none, some, List,
  [], ◌∷◌, map, length, arith, ◌==◌, if◌then◌else◌, Text, codes,
}
use bpf_linker.Types.Api.{Ref, Api, MetadataKind, di_composite_type, di_derived_type}
use bpf_linker.Types.Ir.{range_map}
use bpf_linker.Types.Laws.{MetadataLaws}
use bpf_linker.Di.Names.{DefaultHasher}
use bpf_linker.Di.Sanitizer.{Sanitizer}

pub record Memory : Type 0 where
  pub next : ℕ
  pub operand_at : Ref → ℕ → Ref
  pub count : Ref → ℕ
  pub text : Ref → Option Text

abbrev pub nth : List Ref → ℕ → Ref
nth [] i = 0
nth (r ∷ rs) zero = r
nth (r ∷ rs) (suc i) = nth rs i

-- The parts of the debug information that no call of the sanitizer changes.
pub record Shape : Type 0 where
  pub kind : Ref → MetadataKind
  pub tag : Ref → ℕ
  pub offset : Ref → ℕ
  pub type_name : Ref → Option Text

abbrev pub put : Ref → ℕ → Ref → Memory → Memory
put v i m s = record s { operand_at = λ w j. if w == v && j == i then m else s.operand_at w j }

abbrev pub new_node : List Ref → Memory → Ref × Memory
new_node es s = (
  s.next,
  record {
    next = suc s.next;
    operand_at = λ w j. if w == s.next then nth es j else s.operand_at w j;
    count = λ w. if w == s.next then length es else s.count w;
    text = s.text;
  },
)

abbrev pub new_string : Text → Memory → Ref × Memory
new_string t s =
    (s.next, record s { next = suc s.next; text = λ w. if w == s.next then some t else s.text w })

abbrev pub memory_api : Shape → Api Memory
memory_api shape = record {
  dw_tag_pointer_type = 15;
  dw_tag_structure_type = 19;
  dw_tag_variant_part = 51;
  di_flag_fwd_decl = 4;
  metadata_as_value = λ m. m;
  value_as_metadata = λ v. v;
  is_a_md_node = λ s v. true;
  is_a_function = λ s v. false;
  is_a_user = λ s v. false;
  is_a_global_object = λ s v. false;
  is_a_instruction = λ s v. false;
  num_operands = λ s v. s.count v;
  operand = λ s v i. s.operand_at v i;
  count_params = λ s f. 0;
  param = λ s f i. 0;
  global_copy_all_metadata = λ s v. none;
  metadata_kind = λ s v. shape.kind v;
  di_node_tag = λ s v. shape.tag v;
  di_type_flags = λ s v. 0;
  di_type_line = λ s v. 0;
  di_type_offset_in_bits = λ s v. shape.offset v;
  di_type_name = λ s v. shape.type_name v;
  di_file_filename = λ s v. none;
  di_scope_file = λ s v. 0;
  di_subprogram_line = λ s v. 0;
  md_string = λ s v. s.text v;
  value_name = λ s v. none;
  get_subprogram = λ s f. 0;
  set_subprogram = λ f p s. s;
  replace_md_node_operand_with = put;
  set_operand = λ v i w s. s;
  md_string_in_context = new_string;
  md_node_in_context = new_node;
  create_di_builder = λ m s. (7, s);
  dispose_di_builder = λ b s. s;
  di_builder_create_function = λ b args s. (8, s);
  di_builder_finalize_subprogram = λ b p s. s;
}

pub range_map-nth :
    (f : ℕ → Ref) (start : ℕ) (es : List Ref)
    → ((i : ℕ) → f (start + i) ≡ nth es i)
    → range_map f start (length es) ≡ es
range_map-nth f start [] h = refl
range_map-nth f start (e ∷ es) h =
    let first : f start ≡ e = subst (λ k. f k ≡ e) (omega arith) (h 0) in
    let rest : range_map f (start + 1) (length es) ≡ es =
      range_map-nth f (start + 1) es (λ i. subst (λ k. f k ≡ nth es i) (omega arith) (h (suc i))) in
    cc

pub map-same : (es : List Ref) → map (λ m. m) es ≡ es
map-same [] = refl
map-same (e ∷ es) = ap (λ r. e ∷ r) (map-same es)

pub memory_laws : (shape : Shape) → MetadataLaws (memory_api shape)
memory_laws shape = record {
  value_of_metadata = λ m. refl;
  metadata_of_value = λ v. refl;
  operand-replace = λ v i m s w j. refl;
  num_operands-replace = λ v i m s w. refl;
  md_string-replace = λ v i m s w. refl;
  md_string-string = λ t s. ground arith;
  operand-string = λ t s w j. refl;
  num_operands-string = λ t s w. refl;
  operand_list-node = λ es s.
      let same : (s.next == s.next) ≡ true = ground arith in
      rw same (range_map-nth _ 0 es (λ i. rw same (ap (nth es) (omega arith))) ∙ sym (map-same es));
  operand-node = λ es s w j h. ground arith;
}

abbrev pub constant_hasher : DefaultHasher
constant_hasher = record { finish = λ bytes. 255; finish-lt = λ bytes. omega arith }

-- Node 1 is a structure, whose elements node 2 lists: node 4 at offset 32 and node 3 at offset 0.
-- The argument is the tag of node 3 if this is a composite type, and else 0.
abbrev pub pair_shape : ℕ → Shape
pair_shape variant = record {
  kind = λ r.
      if r == 3
      then (if variant == 0 then di_derived_type else di_composite_type)
      else if r == 4
      then di_derived_type
      else di_composite_type;
  tag = λ r. if r == 1 then 19 else if r == 3 then variant else 0;
  offset = λ r. if r == 4 then 32 else 0;
  type_name = λ r. if r == 1 then some (codes "Pair<u32>") else some (codes "u32");
}

abbrev pub pair_memory : Memory
pair_memory = record {
  next = 100;
  operand_at = λ v i.
      if v == 1 && i == 4
      then 2
      else if v == 2
      then (if i == 0 then 4 else 3)
      else if i == 3
      then 5
      else 0;
  count = λ v. if v == 2 then 2 else 0;
  text = λ v. none;
}

abbrev pub pair_start : Sanitizer Memory
pair_start = record {
  llvm = pair_memory;
  context = 50;
  module_ref = 51;
  builder = 52;
  visited_nodes = [];
  replace_operands = [];
  skipped_types = [];
}
