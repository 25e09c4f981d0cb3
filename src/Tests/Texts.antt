-- ===== src/Tests/Texts.antt =====
-- A module with one function, whose subprogram has a name, over a heap that keeps the laws of LLVM's
-- calls.
use bpf_linker.Prelude.{
  ℕ, zero, suc, ◌≡◌, ◌≢◌, refl, sym, ap, subst, ◌∙◌, inl, inr, ◌&&◌, true, false, Bool-cases, not,
  none, some, List, [], ◌∷◌, ◌++◌, length, arith, ◌==◌, if◌then◌else◌, All, Text, codes,
}
use mathlib.Core.Option.{none-ne-some, some-injective}
use bpf_linker.Outcome.{panic}
use bpf_linker.Types.Api.{
  Ref, Api, MetadataKind, di_subprogram, di_composite_type, di_derived_type, md_tuple,
}
use bpf_linker.Types.Ir.{subprogram, of_kind}
use bpf_linker.Types.Laws.{MetadataLaws}
use bpf_linker.Types.Text.{TextLaws, Legible}
use bpf_linker.Di.Linkage.Extends.{CreateLaws}
use bpf_linker.Di.Linkage.Exported.{SubprogramLaws}
use bpf_linker.Di.Linkage.Attached.{Attached, IsAttached}
use bpf_linker.Di.Sanitizer.{new}
use bpf_linker.Di.Visit.{Blocks}
use bpf_linker.Di.Visit.Returns.{NoNull}
use bpf_linker.Di.Run.{run}
use bpf_linker.Di.Run.Returns.{NoNullRoots, run-ne-panic}
use bpf_linker.Tests.Memory.{nth, range_map-nth, map-same, constant_hasher}
use bpf_linker.Tests.Heap.{
  Cell, node, program, string, kind_at, text_at, text_at-append, kind_at-string, kind_at-node,
  text_at-new, kind_at-end, text_at-program, kind_at-program, kind_at-created,
}

pub record Heap : Type 0 where
  pub cells : List Cell
  pub operand_at : Ref → ℕ → Ref
  pub count : Ref → ℕ
  pub program_of : Ref → Ref

abbrev pub put : Ref → ℕ → Ref → Heap → Heap
put v i m s = record s { operand_at = λ w j. if w == v && j == i then m else s.operand_at w j }

-- A new cell with its operands.
abbrev pub add : Cell → List Ref → Heap → Ref × Heap
add c es s =
    let r = suc (length s.cells) in
    (
      r,
      record s {
        cells = s.cells ++ c ∷ [];
        operand_at = λ w j. if w == r then nth es j else s.operand_at w j;
        count = λ w. if w == r then length es else s.count w;
      },
    )

abbrev pub add_string : Text → Heap → Ref × Heap
add_string t s = (suc (length s.cells), record s { cells = s.cells ++ string t ∷ [] })

-- 1 is a function.
abbrev pub heap_api : Api Heap
heap_api = record {
  dw_tag_pointer_type = 15;
  dw_tag_structure_type = 19;
  dw_tag_variant_part = 51;
  di_flag_fwd_decl = 4;
  metadata_as_value = λ m. m;
  value_as_metadata = λ v. v;
  is_a_md_node = λ s v. not (v == 1);
  is_a_function = λ s v. v == 1;
  is_a_user = λ s v. v == 1;
  is_a_global_object = λ s v. v == 1;
  is_a_instruction = λ s v. false;
  num_operands = λ s v. s.count v;
  operand = λ s v i. s.operand_at v i;
  count_params = λ s f. 0;
  param = λ s f i. 1;
  global_copy_all_metadata = λ s v. if v == 1 then some ((2, 0) ∷ []) else none;
  metadata_kind = λ s v. kind_at s.cells v;
  di_node_tag = λ s v. 0;
  di_type_flags = λ s v. 0;
  di_type_line = λ s v. 0;
  di_type_offset_in_bits = λ s v. 0;
  di_type_name = λ s v. none;
  di_file_filename = λ s v. none;
  di_scope_file = λ s v. 0;
  di_subprogram_line = λ s v. 0;
  md_string = λ s v. text_at s.cells v;
  value_name = λ s v. some (codes "helper");
  get_subprogram = λ s f. s.program_of f;
  set_subprogram = λ f p s. record s { program_of = λ w. if w == f then p else s.program_of w };
  replace_md_node_operand_with = put;
  set_operand = put;
  md_string_in_context = add_string;
  md_node_in_context = add node;
  create_di_builder = λ m s. (7, s);
  dispose_di_builder = λ b s. s;
  di_builder_create_function = λ b args. add program [];
  di_builder_finalize_subprogram = λ b p s. s;
}

pub heap_laws : MetadataLaws heap_api
heap_laws = record {
  value_of_metadata = λ m. refl;
  metadata_of_value = λ v. refl;
  operand-replace = λ v i m s w j. refl;
  num_operands-replace = λ v i m s w. refl;
  md_string-replace = λ v i m s w. refl;
  md_string-string = λ t s. text_at-new t s.cells;
  operand-string = λ t s w j. refl;
  num_operands-string = λ t s w. refl;
  operand_list-node = λ es s.
      let r = suc (length s.cells) in
      let same : (r == r) ≡ true = ground arith in
      rw same (range_map-nth _ 0 es (λ i. rw same (ap (nth es) (omega arith))) ∙ sym (map-same es));
  operand-node = λ es s w j h. ground arith;
}

pub kind_of_subprogram :
    (k : MetadataKind) (w : Ref) → of_kind k w ≡ subprogram w → k ≡ di_subprogram
kind_of_subprogram di_composite_type w h = cc
kind_of_subprogram di_derived_type w h = cc
kind_of_subprogram di_subprogram w h = refl
kind_of_subprogram _ w h = cc

of_kind_same :
    (k m : MetadataKind) (w : Ref)
    → k ≡ m
    → (of_kind k w ≡ subprogram w → of_kind m w ≡ subprogram w)
      × (of_kind m w ≡ subprogram w → of_kind k w ≡ subprogram w)
of_kind_same k m w e =
    (subst (λ x. of_kind x w ≡ subprogram w) e, subst (λ x. of_kind x w ≡ subprogram w) (sym e))

pub heap_texts : TextLaws heap_api
heap_texts = record {
  subprogram-replace = λ v i m s w. (λ h. h, λ h. h);
  subprogram-set = λ v i x s w. (λ h. h, λ h. h);
  subprogram-string = λ t s w. of_kind_same _ _ w (kind_at-string t s.cells w);
  subprogram-node = λ es s w. of_kind_same _ _ w (kind_at-node s.cells w);
  not_subprogram = λ es s h.
      let e = kind_of_subprogram _ (suc (length s.cells)) h in
      let e' = sym (kind_at-node s.cells (suc (length s.cells)) ∙ kind_at-end s.cells) ∙ e in cc;
  not_string = λ s w h. text_at-program s.cells w (kind_of_subprogram _ w h);
  string-set = λ v i x s w t h. h;
  string-string = λ x s w t h. text_at-append (string x) s.cells w t h;
  string-node = λ es s w t h. text_at-append node s.cells w t h;
  operand-set = λ v i x s w j. refl;
}

pub heap_creates : CreateLaws heap_api
heap_creates = record {
  extends-create = λ b args s. record {
    subprogram = λ w h.
        let e = kind_at-program s.cells w (kind_of_subprogram _ w h) in ap (λ k. of_kind k w) e;
    operand = λ w j h lt. elim (Bool-cases (w == suc (length s.cells))) [
      | inl e ↦
          let same : w ≡ suc (length s.cells) = ground (arith, e) in
          let k : kind_at s.cells w ≡ di_subprogram = kind_of_subprogram _ w h in
          let none_there : kind_at s.cells w ≡ md_tuple =
            ap (kind_at s.cells) same ∙ kind_at-end s.cells in
          cc
      | inr e ↦ rw e refl
    ];
    string = λ w x h. text_at-append program s.cells w x h;
  };
  extends-finalize =
      λ b p s. record { subprogram = λ w h. h; operand = λ w j h lt. refl; string = λ w x h. h };
  extends-subprogram =
      λ f p s. record { subprogram = λ w h. h; operand = λ w j h lt. refl; string = λ w x h. h };
  created = λ b args s w h. elim (kind_at-created s.cells w (kind_of_subprogram _ w h)) [
    | inl old ↦ inl (ap (λ k. of_kind k w) old)
    | inr e ↦
        let here : (w == suc (length s.cells)) ≡ true = ground (arith, e) in
        inr (inl (rw here refl))
  ];
  finalized = λ b p s w h. h;
  attached = λ f p s w h. h;
}

pub heap_subprograms : SubprogramLaws heap_api
heap_subprograms = record {
  name-set = λ f p l w. refl;
  name-replace = λ v i m l w. refl;
  name-node = λ es l w. refl;
  name-create = λ b args l w. refl;
  name-finalize = λ b p l w. refl;
  subprogram-set = λ f p l w. refl;
  subprogram-replace = λ v i m l w. refl;
  subprogram-node = λ es l w. refl;
  subprogram-create = λ b args l w. refl;
  subprogram-finalize = λ b p l w. refl;
}

abbrev pub heap_blocks : Blocks Heap
heap_blocks = record {
  instructions = λ s f. [];
  globals = λ s m. [];
  global_aliases = λ s m. [];
  functions = λ s m. 1 ∷ [];
}

pub heap_nonull : NoNull heap_api heap_blocks
heap_nonull = record {
  param-ne = λ s f i lt. omega arith;
  instructions-ne = λ s f. tt;
  entries-ne = λ s v es h. elim (Bool-cases (v == 1)) [
    | inl here ↦ subst (All (λ e. e.0 ≢ 0)) (some-injective _ _ (rw here at h)) (omega arith, tt)
    | inr other ↦ absurd (none-ne-some es (rw other at h))
  ];
}

pub heap_roots : NoNullRoots heap_blocks
heap_roots = record {
  globals-ne = λ s m. tt;
  global_aliases-ne = λ s m. tt;
  functions-ne = λ s m. (omega arith, tt);
}

-- The subprogram 2 has the name and the scope 3.
abbrev pub heap_start : Heap
heap_start = record {
  cells = node ∷ program ∷ string (codes "helper<u32>") ∷ [];
  operand_at = λ v i. if v == 1 then 2 else if v == 2 then 3 else 0;
  count = λ v. if v == 1 then 1 else if v == 2 then 5 else 0;
  program_of = λ f. if f == 1 then 2 else 0;
}

abbrev pub helper : Attached
helper = record { function = 1; name = codes "helper"; program = 2 }

kind_at_start : (w : Ref) → kind_at heap_start.cells w ≡ di_subprogram → w ≡ 2
kind_at_start zero h = cc
kind_at_start (suc zero) h = cc
kind_at_start (suc (suc zero)) h = refl
kind_at_start (suc (suc (suc zero))) h = cc
kind_at_start (suc (suc (suc (suc w)))) h = cc

pub start-Legible : Legible heap_api heap_start
start-Legible = record {
  name = λ w is.
      let here : (w == 2) ≡ true = ground (arith, kind_at_start w (kind_of_subprogram _ w is)) in
      let other : (w == 1) ≡ false = ground (arith, kind_at_start w (kind_of_subprogram _ w is)) in
      inr (codes "helper<u32>", rw (other, here) refl);
}

pub helper-IsAttached : IsAttached heap_api [] heap_start helper
helper-IsAttached = record {
  named = refl;
  subprogram = refl;
  described = λ e n. record {
    is_subprogram = refl;
    named = omega arith;
    name = (codes "helper<u32>", refl);
    linkage = inr (codes "helper<u32>", refl);
    scoped = omega arith;
  };
}

run-ne-panic_example :
    (run constant_hasher heap_api heap_blocks 9 [] (new heap_api 50 9 heap_start)).0 ≢ panic
unfolding new
run-ne-panic_example =
    run-ne-panic constant_hasher heap_api heap_blocks heap_laws heap_texts heap_nonull heap_roots
      heap_creates heap_subprograms 9 [] 50 9 heap_start (helper ∷ []) refl start-Legible
      (helper-IsAttached, tt) (tt, tt)
