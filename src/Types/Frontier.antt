-- ===== src/Types/Frontier.antt =====
-- The addresses that LLVM has handed out, and how much there is left to visit among them.
use bpf_linker.Prelude.{
  ℕ, zero, suc, ◌+◌, ◌≤◌, ◌<◌, ◌≡◌, ◌⊎◌, inl, inr, Bool-cases, Bool, true, false, some, List, ◌∷◌,
  map, arith, ◌&&◌, ◌==◌, if◌then◌else◌, All, Among, Text,
}
use bpf_linker.Types.Api.{Ref, Api}
use bpf_linker.Types.Ir.{Metadata, from_value_ref}
use bpf_linker.Di.Sanitizer.{contains}

-- The nodes for which the sanitizer may make new ones.
abbrev pub creates : Metadata → Bool
creates (Metadata.other v) = false
creates _ = true

-- The addresses that were handed out lie below the frontier. A new string or node moves it by one at
-- most, and is no node for which others are made.
pub record FrontierLaws {L : Type 0} (api : Api L) (instructions : L → Ref → List Ref)
    (frontier : L → ℕ) : Type 0 where
  pub kind-replace :
      (v : Ref) (i : ℕ) (m : Ref) (s : L) (w : Ref)
      → from_value_ref api (api.replace_md_node_operand_with v i m s) w ≡ from_value_ref api s w
  pub kind-set :
      (v : Ref) (i : ℕ) (x : Ref) (s : L) (w : Ref)
      → from_value_ref api (api.set_operand v i x s) w ≡ from_value_ref api s w
  pub kind-string :
      (t : Text) (s : L) (w : Ref)
      → creates (from_value_ref api (api.md_string_in_context t s).1 w) ≡ true
      → creates (from_value_ref api s w) ≡ true
  pub kind-node :
      (es : List Ref) (s : L) (w : Ref)
      → creates (from_value_ref api (api.md_node_in_context es s).1 w) ≡ true
      → creates (from_value_ref api s w) ≡ true
  pub kind-lt : (s : L) (w : Ref) → creates (from_value_ref api s w) ≡ true → w < frontier s
  pub frontier-replace :
      (v : Ref) (i : ℕ) (m : Ref) (s : L)
      → frontier (api.replace_md_node_operand_with v i m s) ≡ frontier s
  pub frontier-set :
      (v : Ref) (i : ℕ) (x : Ref) (s : L) → frontier (api.set_operand v i x s) ≡ frontier s
  pub string-le : (t : Text) (s : L) → frontier (api.md_string_in_context t s).1 ≤ suc (frontier s)
  pub string-ge : (t : Text) (s : L) → frontier s ≤ frontier (api.md_string_in_context t s).1
  pub string-lt :
      (t : Text) (s : L)
      → let (m, s') = api.md_string_in_context t s in api.metadata_as_value m < frontier s'
  pub node-le :
      (es : List Ref) (s : L) → frontier (api.md_node_in_context es s).1 ≤ suc (frontier s)
  pub node-ge : (es : List Ref) (s : L) → frontier s ≤ frontier (api.md_node_in_context es s).1
  pub node-lt :
      (es : List Ref) (s : L)
      → let (m, s') = api.md_node_in_context es s in api.metadata_as_value m < frontier s'
  -- The operands of a new node are the elements, and null behind them.
  pub operand-new :
      (es : List Ref) (s : L) (j : ℕ)
      → let (m, s') = api.md_node_in_context es s in
        let r = api.operand s' (api.metadata_as_value m) j in
        (r ≡ 0) ⊎ Among r (map api.metadata_as_value es)
  pub operand-set :
      (v : Ref) (i : ℕ) (x : Ref) (s : L) (w : Ref) (j : ℕ)
      → api.operand (api.set_operand v i x s) w j
        ≡ (if w == v && j == i then x else api.operand s w j)
  pub param-lt : (s : L) (f : Ref) (i : ℕ) → api.param s f i < frontier s
  pub instructions-lt : (s : L) (f : Ref) → All (λ i. i < frontier s) (instructions s f)
  pub entries-lt :
      (s : L) (v : Ref) (es : List (Ref × ℕ))
      → api.global_copy_all_metadata s v ≡ some es
      → All (λ e. api.metadata_as_value e.0 < frontier s) es

module _ {L : Type 0} (api : Api L) where
  -- A node for which two others may be made counts for three.
  abbrev pub weight : L → Ref → ℕ
  weight l w = if creates (from_value_ref api l w) then 3 else 1

  -- What the addresses below `n` that are not in the set count for.
  pub weigh : ℕ → List ℕ → L → ℕ
  weigh zero vs l = 0
  weigh (suc n) vs l = weigh n vs l + (if contains n vs then 0 else weight l n)

  pub weigh-le :
      (n : ℕ) (vs : List ℕ) (l l' : L)
      → ((w : Ref)
          → creates (from_value_ref api l' w) ≡ true
          → creates (from_value_ref api l w) ≡ true)
      → weigh n vs l' ≤ weigh n vs l
  unfolding weigh
  weigh-le zero vs l l' h = omega arith
  weigh-le (suc n) vs l l' h = ground (arith, weigh-le n vs l l' h, h n)

  -- Further addresses that are no such nodes count for one each.
  pub weigh_more :
      (n : ℕ) (vs : List ℕ) (l : L)
      → creates (from_value_ref api l n) ≡ false
      → weigh (suc n) vs l ≤ suc (weigh n vs l)
  unfolding weigh
  weigh_more n vs l h = ground (arith, h)

  pub weigh-cons-le : (n v : ℕ) (vs : List ℕ) (l : L) → weigh n (v ∷ vs) l ≤ weigh n vs l
  unfolding weigh
  weigh-cons-le zero v vs l = omega arith
  weigh-cons-le (suc n) v vs l = ground (arith, weigh-cons-le n v vs l)

  pub weigh-cons :
      (n v : ℕ) (vs : List ℕ) (l : L)
      → v < n
      → contains v vs ≡ false
      → weigh n (v ∷ vs) l + weight l v ≤ weigh n vs l
  unfolding weigh
  weigh-cons zero v vs l h e = absurd (omega arith)
  weigh-cons (suc n) v vs l h e = elim (Bool-cases (v == n)) [
    | inl same ↦
        let e' : v ≡ n = ground (arith, same) in ground (arith, weigh-cons-le n v vs l, e, e')
    | inr other ↦ ground (arith, weigh-cons n v vs l, h, e, other)
  ]
