-- ===== src/Tests/Graph.antt =====
-- A module with a cycle in its debug information, over a memory of which every reachable part is
-- live.
use mathlib.Core.Option.{none-ne-some, some-injective}
use bpf_linker.Prelude.{
  Text, subst, ℕ, zero, suc, ◌≡◌, ◌≤◌, ◌<◌, refl, inl, inr, ◌&&◌, ◌||◌, Bool-cases, some, none,
  List, [], ◌∷◌, All, ◌==◌, if◌then◌else◌, arith, codes,
}
use bpf_linker.Types.Api.{Ref, Api, md_tuple, di_derived_type}
use bpf_linker.Types.Laws.{MetadataLaws}
use bpf_linker.Types.Live.{NullOr, SameShape, LiveLaws}
use bpf_linker.Di.Linkage.Live.{BuilderLaws}
use bpf_linker.Di.Visit.{Blocks}
use bpf_linker.Di.Run.Top.{LiveRoots, TopLaws}
use bpf_linker.Di.Node.Keeps.{MetadataKeeps}
use bpf_linker.Tests.Memory.{Memory, Shape, memory_api, memory_laws, nth, put, new_node, new_string}

-- Node 2 is a pointer type.
abbrev graph_shape : Shape
graph_shape = record {
  kind = λ r. if r == 2 then di_derived_type else md_tuple;
  tag = λ r. if r == 2 then 15 else 0;
  offset = λ r. 0;
  type_name = λ r. none;
}

-- 1 is a function of the module 9, with the parameter 4 and the instruction 5.
abbrev pub graph_api : Api Memory
graph_api = record (memory_api graph_shape) {
  is_a_md_node = λ s v. v == 2 || v == 3;
  is_a_function = λ s v. v == 1;
  is_a_global_object = λ s v. v == 1;
  is_a_instruction = λ s v. v == 5;
  count_params = λ s f. 1;
  param = λ s f i. 4;
  global_copy_all_metadata = λ s v. if v == 1 then some ((3, 0) ∷ []) else none;
  value_name = λ s v. some (codes "entry");
  set_operand = put;
  di_type_name = λ s v.
      if s.operand_at v 2 == 0
      then none
      else some (elim (s.text (s.operand_at v 2)) [ none ↦ [] | some t ↦ t ]);
  di_builder_create_function = λ b args s. new_node [] s;
}

abbrev pub graph_blocks : Blocks Memory
graph_blocks = record {
  instructions = λ s f. 5 ∷ [];
  globals = λ s m. [];
  global_aliases = λ s m. [];
  functions = λ s m. 1 ∷ [];
}

-- Function 1 has the operands 2 and 3, and these two have one another for operand.
abbrev pub graph_memory : Memory
graph_memory = record {
  next = 10;
  operand_at = λ v i.
      if i == 0
      then (if v == 1 then 2 else if v == 2 then 3 else if v == 3 then 2 else 0)
      else if i == 1 && v == 1
      then 3
      else 0;
  count = λ v. if v == 1 then 2 else if v == 2 then 3 else if v == 3 then 1 else 0;
  text = λ v. none;
}

-- The fixed values are there, and every operand is an address that was handed out.
record IsClosed (s : Memory) : Type 0 where
  enough : 10 ≤ s.next
  operands : (w : Ref) (i : ℕ) → NullOr (λ r. r < s.next) (s.operand_at w i)

pub record IsLive (s : Memory) (v : Ref) : Type 0 where
  closed : IsClosed s
  below : v < s.next

same_shape :
    (s t : Memory) (w : Ref)
    → t.count w ≡ s.count w
    → t.text w ≡ s.text w
    → SameShape graph_api graph_blocks.instructions s t w
same_shape s t w e same_text = record {
  md_node = refl;
  function = refl;
  user = refl;
  global_object = refl;
  is_instruction = refl;
  count = e;
  entries = refl;
  param_count = refl;
  param = λ i. refl;
  instruction_list = refl;
  metadata = refl;
  tag_same = refl;
  flags_same = refl;
  text = same_text;
}

IsClosed-put :
    (v : Ref) (i : ℕ) (x : Ref) (s : Memory)
    → NullOr (IsLive s) x
    → IsClosed s
    → IsClosed (put v i x s)
IsClosed-put v i x s (inl null) h = record {
  enough = h.enough;
  operands = λ w j. elim (Bool-cases (w == v && j == i)) [
    | inl e ↦ rw e (inl null)
    | inr e ↦ rw e (h.operands w j)
  ];
}
IsClosed-put v i x s (inr k) h = record {
  enough = h.enough;
  operands = λ w j. elim (Bool-cases (w == v && j == i)) [
    | inl e ↦ rw e (inr k.below)
    | inr e ↦ rw e (h.operands w j)
  ];
}

weaken : (n r : ℕ) → NullOr (λ x. x < n) r → NullOr (λ x. x < suc n) r
weaken n r (inl null) = inl null
weaken n r (inr lt) = inr (omega (arith, lt))

nth-below :
    (s : Memory) (es : List Ref) (i : ℕ)
    → All (NullOr (IsLive s)) es
    → NullOr (λ x. x < s.next) (nth es i)
nth-below s [] i h = inl refl
nth-below s (e ∷ es) zero (inl null, hs) = inl null
nth-below s (e ∷ es) zero (inr k, hs) = inr k.below
nth-below s (e ∷ es) (suc i) h = nth-below s es i h.1

IsClosed-string : (t : Text) (s : Memory) → IsClosed s → IsClosed (new_string t s).1
IsClosed-string t s h = record {
  enough = omega (arith, h.enough);
  operands = λ w j. weaken s.next _ (h.operands w j);
}

IsClosed-node :
    (es : List Ref) (s : Memory)
    → All (NullOr (IsLive s)) es
    → IsClosed s
    → IsClosed (new_node es s).1
IsClosed-node es s k h = record {
  enough = omega (arith, h.enough);
  operands = λ w j. elim (Bool-cases (w == s.next)) [
    | inl e ↦ rw e (weaken s.next _ (nth-below s es j k))
    | inr e ↦ rw e (weaken s.next _ (h.operands w j))
  ];
}

IsLive-node :
    (es : List Ref) (s : Memory) (w : Ref)
    → All (NullOr (IsLive s)) es
    → IsLive s w
    → IsLive (new_node es s).1 w
IsLive-node es s w k h = record {
  closed = IsClosed-node es s k h.closed;
  below = omega (arith, h.below);
}

IsLive-node_new :
    (es : List Ref) (s : Memory) (w : Ref)
    → All (NullOr (IsLive s)) es
    → IsLive s w
    → IsLive (new_node es s).1 s.next
IsLive-node_new es s w k h = record { closed = IsClosed-node es s k h.closed; below = omega arith }

fixed_live : (s : Memory) (v w : Ref) → w < 10 → IsLive s v → IsLive s w
fixed_live s v w lt h = record { closed = h.closed; below = omega (arith, h.closed.enough, lt) }

pub graph_live : LiveLaws graph_api graph_blocks.instructions IsLive
graph_live = record {
  live-operand = λ s v i h. elim (h.closed.operands v i) [
    | inl z ↦ inl z
    | inr l ↦ inr (record { closed = h.closed; below = l })
  ];
  live-entries = λ s v es h e. elim (Bool-cases (v == 1)) [
    | inl here ↦
        subst (All (λ e. IsLive s e.0)) (some-injective _ _ (rw here at e))
          (fixed_live s v 3 (omega arith) h, tt)
    | inr other ↦ absurd (none-ne-some es (rw other at e))
  ];
  live-param = λ s f i h lt. fixed_live s f 4 (omega arith) h;
  live-instructions = λ s f h. (fixed_live s f 5 (omega arith) h, tt);
  live-replace =
      λ v i m s w k h. record { closed = IsClosed-put v i m s k h.closed; below = h.below };
  live-set = λ v i x s w k h. record { closed = IsClosed-put v i x s k h.closed; below = h.below };
  live-string =
      λ t s w h. record { closed = IsClosed-string t s h.closed; below = omega (arith, h.below) };
  live-string_new =
      λ t s w h. record { closed = IsClosed-string t s h.closed; below = omega arith };
  live-node = IsLive-node;
  live-node_new = IsLive-node_new;
  shape-replace = λ v i m s w h. same_shape s (put v i m s) w refl refl;
  shape-set = λ v i x s w h. same_shape s (put v i x s) w refl refl;
  shape-string = λ t s w h. same_shape s (new_string t s).1 w refl (ground (arith, h.below));
  shape-node = λ es s w h. same_shape s (new_node es s).1 w (ground (arith, h.below)) refl;
  operand-set = λ v i x s w j. refl;
  operand-node_live = λ es s w j h. ground (arith, h.below);
  unnamed = λ s v h e. ground (arith, e);
}

pub graph_builds : BuilderLaws graph_api IsLive
graph_builds = record {
  live-builder = λ m s w h. h;
  live-set_subprogram = λ f p s w h. h;
  live-create = λ b args s w h. IsLive-node [] s w tt h;
  live-create_new = λ b args s w h. IsLive-node_new [] s w tt h;
  live-finalize = λ b p s w h. h;
  live-subprogram = λ s f h. inl refl;
}

pub graph_roots : LiveRoots graph_blocks IsLive
graph_roots = record {
  live-globals = λ s m h. tt;
  live-global_aliases = λ s m h. tt;
  live-functions = λ s m h. (fixed_live s m 1 (omega arith) h, tt);
}

pub graph_laws : MetadataLaws graph_api
graph_laws =
    let same = memory_laws graph_shape in
    record {
      value_of_metadata = same.value_of_metadata;
      metadata_of_value = same.metadata_of_value;
      operand-replace = same.operand-replace;
      num_operands-replace = same.num_operands-replace;
      md_string-replace = same.md_string-replace;
      md_string-string = same.md_string-string;
      operand-string = same.operand-string;
      num_operands-string = same.num_operands-string;
      operand_list-node = same.operand_list-node;
      operand-node = same.operand-node;
    }

pub module_live : IsLive graph_memory 9
module_live = record {
  closed = record { enough = omega arith; operands = λ w i. inr (ground arith) };
  below = omega arith;
}

graph_keeps : (P : Memory → Type 0) → ((s t : Memory) → P s → P t) → MetadataKeeps graph_api P
graph_keeps P k = record {
  stable = record {
    of_replace = λ v i m l place. k _ _;
    of_node = λ es l. k _ _;
    of_create = λ b args l. k _ _;
    of_finalize = λ b p l. k _ _;
  };
  of_replace = λ v i m l. k _ _;
  of_string = λ t l. k _ _;
  of_operand = λ v i x l. k _ _;
  of_subprogram = λ f p l. k _ _;
  of_builder = λ m l. k _ _;
  of_dispose = λ b l. k _ _;
}

pub graph_tops : TopLaws graph_api graph_blocks
graph_tops = record {
  keeps-globals = λ m rs. graph_keeps _ (λ s t h. h);
  keeps-global_aliases = λ m rs. graph_keeps _ (λ s t h. h);
  keeps-functions = λ m rs. graph_keeps _ (λ s t h. h);
}
