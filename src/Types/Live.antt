-- ===== src/Types/Live.antt =====
-- What the traversal relies on: LLVM's calls keep what is live, and change of a live value only the
-- operand that was asked for. (A node that LLVM merges with an equal one when its operand changes is
-- not covered.)
use bpf_linker.Prelude.{
  ◌<◌, ◌≤◌, arith, zero, suc, ◌+◌, ℕ, ◌≡◌, refl, ◌∙◌, ◌⊎◌, none, some, List, ◌&&◌, ◌==◌,
  if◌then◌else◌, All, Text,
}
use bpf_linker.Types.Api.{Ref, Api}
use bpf_linker.Types.Ir.{range_map, from_value_ref}
use bpf_linker.Types.Di.{tag, flags, composite_name, type_name_operand}

-- Beside its operands a value has the same parts in both states.
pub record SameShape {L : Type 0} (api : Api L) (instructions : L → Ref → List Ref) (s t : L)
    (v : Ref) : Type 0 where
  pub md_node : api.is_a_md_node t v ≡ api.is_a_md_node s v
  pub function : api.is_a_function t v ≡ api.is_a_function s v
  pub user : api.is_a_user t v ≡ api.is_a_user s v
  pub global_object : api.is_a_global_object t v ≡ api.is_a_global_object s v
  pub is_instruction : api.is_a_instruction t v ≡ api.is_a_instruction s v
  pub count : api.num_operands t v ≡ api.num_operands s v
  pub entries : api.global_copy_all_metadata t v ≡ api.global_copy_all_metadata s v
  pub param_count : api.count_params t v ≡ api.count_params s v
  pub param : (i : ℕ) → api.param t v i ≡ api.param s v i
  pub instruction_list : instructions t v ≡ instructions s v
  pub metadata : from_value_ref api t v ≡ from_value_ref api s v
  pub tag_same : tag api t v ≡ tag api s v
  pub flags_same : flags api t v ≡ flags api s v
  pub text : api.md_string t v ≡ api.md_string s v

-- What an operand may be: null, or an address of which `P` holds.
abbrev pub NullOr : (Ref → Type 0) → Ref → Type 0
NullOr P r = (r ≡ 0) ⊎ P r

-- `IsLive s v`: in the state `s` there is a value or a metadata node at the address `v`.
pub record LiveLaws {L : Type 0} (api : Api L) (instructions : L → Ref → List Ref)
    (IsLive : L → Ref → Type 0) : Type 0 where
  pub live-operand : (s : L) (v : Ref) (i : ℕ) → IsLive s v → NullOr (IsLive s) (api.operand s v i)
  pub live-entries :
      (s : L) (v : Ref) (es : List (Ref × ℕ))
      → IsLive s v
      → api.global_copy_all_metadata s v ≡ some es
      → All (λ e. IsLive s (api.metadata_as_value e.0)) es
  pub live-param :
      (s : L) (f : Ref) (i : ℕ) → IsLive s f → i < api.count_params s f → IsLive s (api.param s f i)
  pub live-instructions : (s : L) (f : Ref) → IsLive s f → All (IsLive s) (instructions s f)
  pub live-replace :
      (v : Ref) (i : ℕ) (m : Ref) (s : L) (w : Ref)
      → NullOr (IsLive s) (api.metadata_as_value m)
      → IsLive s w
      → IsLive (api.replace_md_node_operand_with v i m s) w
  pub live-set :
      (v : Ref) (i : ℕ) (x : Ref) (s : L) (w : Ref)
      → NullOr (IsLive s) x
      → IsLive s w
      → IsLive (api.set_operand v i x s) w
  pub live-string :
      (t : Text) (s : L) (w : Ref) → IsLive s w → IsLive (api.md_string_in_context t s).1 w
  -- In a state with a live value the new string is live too, and so is the new node below.
  pub live-string_new :
      (t : Text) (s : L) (w : Ref)
      → IsLive s w
      → let (m, s') = api.md_string_in_context t s in IsLive s' (api.metadata_as_value m)
  pub live-node :
      (es : List Ref) (s : L) (w : Ref)
      → All (λ e. NullOr (IsLive s) (api.metadata_as_value e)) es
      → IsLive s w
      → IsLive (api.md_node_in_context es s).1 w
  pub live-node_new :
      (es : List Ref) (s : L) (w : Ref)
      → All (λ e. NullOr (IsLive s) (api.metadata_as_value e)) es
      → IsLive s w
      → let (m, s') = api.md_node_in_context es s in IsLive s' (api.metadata_as_value m)
  pub shape-replace :
      (v : Ref) (i : ℕ) (m : Ref) (s : L) (w : Ref)
      → IsLive s w
      → SameShape api instructions s (api.replace_md_node_operand_with v i m s) w
  pub shape-set :
      (v : Ref) (i : ℕ) (x : Ref) (s : L) (w : Ref)
      → IsLive s w
      → SameShape api instructions s (api.set_operand v i x s) w
  pub shape-string :
      (t : Text) (s : L) (w : Ref)
      → IsLive s w
      → SameShape api instructions s (api.md_string_in_context t s).1 w
  pub shape-node :
      (es : List Ref) (s : L) (w : Ref)
      → IsLive s w
      → SameShape api instructions s (api.md_node_in_context es s).1 w
  pub operand-set :
      (v : Ref) (i : ℕ) (x : Ref) (s : L) (w : Ref) (j : ℕ)
      → api.operand (api.set_operand v i x s) w j
        ≡ (if w == v && j == i then x else api.operand s w j)
  pub operand-node_live :
      (es : List Ref) (s : L) (w : Ref) (j : ℕ)
      → IsLive s w
      → api.operand (api.md_node_in_context es s).1 w j ≡ api.operand s w j
  -- A type without a name has no string in the name's place.
  pub unnamed :
      (s : L) (v : Ref)
      → IsLive s v
      → composite_name api s v ≡ none
      → api.operand s v type_name_operand ≡ 0

module _ {L : Type 0} {api : Api L} {instructions : L → Ref → List Ref} where
  pub SameShape-refl : (s : L) (v : Ref) → SameShape api instructions s s v
  SameShape-refl s v = record {
    md_node = refl;
    function = refl;
    user = refl;
    global_object = refl;
    is_instruction = refl;
    count = refl;
    entries = refl;
    param_count = refl;
    param = λ i. refl;
    instruction_list = refl;
    metadata = refl;
    tag_same = refl;
    flags_same = refl;
    text = refl;
  }

  pub SameShape-trans :
      {s t u : L} {v : Ref}
      → SameShape api instructions s t v
      → SameShape api instructions t u v
      → SameShape api instructions s u v
  SameShape-trans p q = record {
    md_node = q.md_node ∙ p.md_node;
    function = q.function ∙ p.function;
    user = q.user ∙ p.user;
    global_object = q.global_object ∙ p.global_object;
    is_instruction = q.is_instruction ∙ p.is_instruction;
    count = q.count ∙ p.count;
    entries = q.entries ∙ p.entries;
    param_count = q.param_count ∙ p.param_count;
    param = λ i. q.param i ∙ p.param i;
    instruction_list = q.instruction_list ∙ p.instruction_list;
    metadata = q.metadata ∙ p.metadata;
    tag_same = q.tag_same ∙ p.tag_same;
    flags_same = q.flags_same ∙ p.flags_same;
    text = q.text ∙ p.text;
  }

pub All-range_map {ℓ} :
    {A : Type ℓ} (P : A → Type 0) (f : ℕ → A) (i n : ℕ)
    → ((j : ℕ) → i ≤ j → j < i + n → P (f j))
    → All P (range_map f i n)
All-range_map P f i zero h = tt
All-range_map P f i (suc n) h = (
  h i (omega arith) (omega arith),
  All-range_map P f (i + 1) n (λ j low high. h j (omega (arith, low)) (omega (arith, high))),
)
