-- ===== src/Types/Laws.antt =====
-- What the sanitizer relies on of LLVM's metadata calls: an operand that was set is read back, a
-- new string or node has the content that was asked for, and nothing else changes. (LLVM may return
-- an existing node of the same content for a new one, which has the same operands.)
use bpf_linker.Prelude.{
  zero, suc, ◌+◌, refl, ℕ, ◌≡◌, ◌≢◌, ◌&&◌, ◌==◌, some, List, if◌then◌else◌, map, Text,
}
use bpf_linker.Types.Api.{Ref, Api}
use bpf_linker.Types.Ir.{range_map}

-- The operands of a node, in order.
abbrev pub operand_list : {L : Type 0} → Api L → L → Ref → List Ref
operand_list api s v = range_map (api.operand s v) 0 (api.num_operands s v)

pub record MetadataLaws {L : Type 0} (api : Api L) : Type 0 where
  pub value_of_metadata : (m : Ref) → api.value_as_metadata (api.metadata_as_value m) ≡ m
  pub metadata_of_value : (v : Ref) → api.metadata_as_value (api.value_as_metadata v) ≡ v
  pub operand-replace :
      (v : Ref) (i : ℕ) (m : Ref) (s : L) (w : Ref) (j : ℕ)
      → api.operand (api.replace_md_node_operand_with v i m s) w j
        ≡ (if w == v && j == i then api.metadata_as_value m else api.operand s w j)
  pub num_operands-replace :
      (v : Ref) (i : ℕ) (m : Ref) (s : L) (w : Ref)
      → api.num_operands (api.replace_md_node_operand_with v i m s) w ≡ api.num_operands s w
  pub md_string-replace :
      (v : Ref) (i : ℕ) (m : Ref) (s : L) (w : Ref)
      → api.md_string (api.replace_md_node_operand_with v i m s) w ≡ api.md_string s w
  pub md_string-string :
      (t : Text) (s : L)
      → api.md_string
          (api.md_string_in_context t s).1
          (api.metadata_as_value (api.md_string_in_context t s).0)
        ≡ some t
  pub operand-string :
      (t : Text) (s : L) (w : Ref) (j : ℕ)
      → api.operand (api.md_string_in_context t s).1 w j ≡ api.operand s w j
  pub num_operands-string :
      (t : Text) (s : L) (w : Ref)
      → api.num_operands (api.md_string_in_context t s).1 w ≡ api.num_operands s w
  pub operand_list-node :
      (es : List Ref) (s : L)
      → operand_list api
          (api.md_node_in_context es s).1
          (api.metadata_as_value (api.md_node_in_context es s).0)
        ≡ map api.metadata_as_value es
  pub operand-node :
      (es : List Ref) (s : L) (w : Ref) (j : ℕ)
      → w ≢ api.metadata_as_value (api.md_node_in_context es s).0
      → api.operand (api.md_node_in_context es s).1 w j ≡ api.operand s w j

pub range_map_congr {ℓ} :
    {A : Type ℓ} (f g : ℕ → A)
    → ((i : ℕ) → f i ≡ g i)
    → (i n : ℕ) → range_map f i n ≡ range_map g i n
range_map_congr f g h i zero = refl
range_map_congr f g h i (suc n) = cc (h i, range_map_congr f g h (i + 1) n)
