-- ===== src/Di/Visit/Ends.antt =====
-- The fuel of the traversal, measured by the addresses that have not been visited.
use bpf_linker.Prelude.{
  ℕ, zero, suc, ◌+◌, ◌-◌, ◌<◌, ◌≡◌, refl, inl, inr, Bool-cases, Bool, true, false, Option, none,
  some, List, [], ◌∷◌, map, arith, ◌==◌, All,
}
use bpf_linker.Outcome.{◌>>=◌}
use bpf_linker.Types.Api.{Ref, Api}
use bpf_linker.Types.Ir.{Value, md_node, function, params, range_map}
use bpf_linker.Di.Names.{DefaultHasher}
use bpf_linker.Di.Sanitizer.{Visit, contains, get, reading}
use bpf_linker.Di.Fuel.{
  unseen-cons-lt, Quiet, Ends, Ends-bind, Ends-then, Ends-of_Quiet, Quiet-pure, Quiet-abort,
  Quiet-if, Quiet-reading, quiet_rules,
}
use bpf_linker.Di.Node.Quiet.{Quiet-visit_mdnode}
use bpf_linker.Di.Visit.{
  Operand, Item, function_param, instruction, operand, value_ref, is_operand, Blocks, replace_found,
  replace_operand, first_visit, visit_node, visit_all, visit_operands, entry_items, visit_entries,
  visit_operands_of, visit_function, visit_children, visit_value, visit_with, visit_item,
}

-- Every address that the traversal gets from LLVM lies below `n`. On a machine with addresses of 64
-- bits that is so for `2 ^ 64`.
pub record AddressesBelow {L : Type 0} (api : Api L) (blocks : Blocks L) (n : ℕ) : Type 0 where
  pub operand-lt : (s : L) (v : Ref) (i : ℕ) → api.operand s v i < n
  pub metadata_as_value-lt : (m : Ref) → api.metadata_as_value m < n
  pub param-lt : (s : L) (f : Ref) (i : ℕ) → api.param s f i < n
  pub instructions-lt : (s : L) (f : Ref) → All (λ i. i < n) (blocks.instructions s f)

module _ {L : Type 0} (hasher : DefaultHasher) (api : Api L) (blocks : Blocks L) where
  pub Quiet-visit_node : (value : Value) → Quiet (visit_node hasher api blocks value)
  unfolding visit_node
  Quiet-visit_node (md_node v) = Quiet-visit_mdnode hasher api v
  Quiet-visit_node _ = Quiet-pure tt

  Quiet-replace_found : (o : Operand) (r : Option Ref) → Quiet (replace_found hasher api blocks o r)
  unfolding replace_found
  Quiet-replace_found o none = search quiet_rules
  Quiet-replace_found o (some r) = search quiet_rules

  pub Quiet-replace_operand : (item : Item) → Quiet (replace_operand hasher api blocks item)
  unfolding replace_operand
  Quiet-replace_operand (operand o) = record {
    at = λ s. (Quiet-replace_found o (get o.value s.replace_operands)).at s;
  }
  Quiet-replace_operand _ = record { at = λ s. (tt, refl) }

  -- Only a first visit goes on, with one unseen address less.
  Ends-first_visit :
      (n k id : ℕ) (rest : Bool → Visit L Unit)
      → id < n
      → Ends n k (rest false)
      → ((k' : ℕ) → suc k' ≡ k → Ends n k' (rest true))
      → Ends n k (first_visit hasher api blocks id >>= rest)
  unfolding ◌>>=◌ first_visit
  Ends-first_visit n k id rest lt old fresh = record {
    at = λ s le. elim (Bool-cases (contains id s.visited_nodes)) [
      | inl e ↦ rw e (old.at s le)
      | inr e ↦
          let fewer = unseen-cons-lt n id s.visited_nodes lt e in
          let r =
            (fresh (k - 1) (omega (arith, fewer))).at
              (record s { visited_nodes = id ∷ s.visited_nodes }) (omega (arith, fewer)) in
          rw e (r.0, omega (arith, fewer, r.1))
    ];
  }

module _ {L : Type 0} (hasher : DefaultHasher) (api : Api L) (blocks : Blocks L) (n k : ℕ)
    (below : AddressesBelow api blocks n) where
  abbrev pub InRange : Item → Type 0
  InRange item = value_ref item < n

  pub All-map-InRange :
      (c : Ref → Item)
      → ((r : Ref) → value_ref (c r) ≡ r)
      → (rs : List Ref) → All (λ r. r < n) rs
      → All InRange (map c rs)
  All-map-InRange c h [] hs = tt
  All-map-InRange c h (r ∷ rs) hs = (rw (h r) hs.0, All-map-InRange c h rs hs.1)

  All-range : (f : ℕ → Ref) → ((i : ℕ) → f i < n) → (i m : ℕ) → All (λ r. r < n) (range_map f i m)
  All-range f h i zero = tt
  All-range f h i (suc m) = (h i, All-range f h (i + 1) m)

  All-entry_items : (i : ℕ) (es : List (Ref × ℕ)) → All InRange (entry_items hasher api blocks i es)
  All-entry_items i [] = tt
  All-entry_items i ((m, kind) ∷ es) = (below.metadata_as_value-lt m, All-entry_items (i + 1) es)

  module _ (visit : Item → Visit L Unit)
      (ends : (item : Item) → value_ref item < n → Ends n k (visit item)) where
    pub Ends-visit_all :
        (items : List Item) → All InRange items → Ends n k (visit_all hasher api blocks visit items)
    unfolding visit_all
    Ends-visit_all [] h = Ends-of_Quiet n k _ (Quiet-pure tt)
    Ends-visit_all (item ∷ items) h = Ends-then n k _ _ (ends item h.0) (Ends-visit_all items h.1)

    Ends-reading : {A : Type 0} (f : L → A) → Ends n k (reading f)
    Ends-reading f = Ends-of_Quiet n k _ (Quiet-reading f)

    -- A read that only yields addresses in range.
    pub Ends-reading_then :
        {A B : Type 0} (P : A → Type 0) (f : L → A) (rest : A → Visit L B)
        → ((s : L) → P (f s))
        → ((a : A) → P a → Ends n k (rest a))
        → Ends n k (reading f >>= rest)
    unfolding ◌>>=◌ reading
    Ends-reading_then P f rest h kr = record { at = λ s le. (kr (f s.llvm) (h s.llvm)).at s le }

    Ends-visit_operands :
        (parent i m : ℕ) → Ends n k (visit_operands hasher api blocks visit parent i m)
    unfolding visit_operands
    Ends-visit_operands parent i zero = Ends-of_Quiet n k _ (Quiet-pure tt)
    Ends-visit_operands parent i (suc m) =
        Ends-reading_then (λ o. o < n) (λ s. api.operand s parent i) _
          (λ s. below.operand-lt s parent i)
          λ o h. Ends-then n k _ _ (ends _ h) (Ends-visit_operands parent (i + 1) m)

    Ends-visit_entries :
        (es : Option (List (Ref × ℕ))) → Ends n k (visit_entries hasher api blocks visit es)
    unfolding visit_entries
    Ends-visit_entries none = Ends-of_Quiet n k _ (Quiet-pure tt)
    Ends-visit_entries (some es) = Ends-visit_all _ (All-entry_items 0 es)

    Ends-visit_operands_of :
        (parent : Ref) (m : Option ℕ)
        → Ends n k (visit_operands_of hasher api blocks visit parent m)
    unfolding visit_operands_of
    Ends-visit_operands_of parent none = Ends-of_Quiet n k _ (Quiet-pure tt)
    Ends-visit_operands_of parent (some m) = Ends-visit_operands parent 0 m

    Ends-visit_function : (value : Value) → Ends n k (visit_function hasher api blocks visit value)
    unfolding visit_function
    Ends-visit_function (function f) =
        Ends-reading_then (All (λ r. r < n)) (λ s. params api s f) _
          (λ s. All-range (api.param s f) (below.param-lt s f) 0 (api.count_params s f))
          λ ps hs.
            Ends-then n k _ _ (Ends-visit_all _ (All-map-InRange function_param (λ r. refl) ps hs))
              (Ends-reading_then (All (λ r. r < n)) (λ s. blocks.instructions s f) _
                (λ s. below.instructions-lt s f)
                λ is his. Ends-visit_all _ (All-map-InRange instruction (λ r. refl) is his))
    Ends-visit_function _ = Ends-of_Quiet n k _ (Quiet-pure tt)

    Ends-visit_children :
        (item : Item) (value : Value) → Ends n k (visit_children hasher api blocks visit item value)
    unfolding visit_children
    Ends-visit_children item value =
        Ends-then n k _ _ (Ends-of_Quiet n k _ (Quiet-visit_node hasher api blocks value)) (
          Ends-bind n k _ _ (Ends-reading _) λ m.
            Ends-then n k _ _ (Ends-visit_operands_of (value_ref item) m) (
              Ends-bind n k _ _ (Ends-reading _)
                λ es. Ends-then n k _ _ (Ends-visit_entries es) (Ends-visit_function value)))

module _ {L : Type 0} (hasher : DefaultHasher) (api : Api L) (blocks : Blocks L) (n : ℕ)
    (below : AddressesBelow api blocks n) where
  module _ (k : ℕ) (visit : Item → Visit L Unit)
      (ends : (k' : ℕ)
        → suc k' ≡ k
        → (item : Item) → value_ref item < n
        → Ends n k' (visit item)) where
    Ends-visit_value :
        (item : Item) → value_ref item < n → Ends n k (visit_value hasher api blocks visit item)
    unfolding visit_value
    Ends-visit_value item lt = Ends-bind n k _ _ (Ends-of_Quiet n k _ (Quiet-reading _)) λ value.
        Ends-then n k _ _ (Ends-of_Quiet n k _ (Quiet-replace_operand hasher api blocks item)) (
          Ends-first_visit hasher api blocks n k (value_ref item) _ lt
            (Ends-of_Quiet n k _ (Quiet-pure tt))
            λ k' e. Ends-visit_children hasher api blocks n k' below visit (ends k' e) item value)

    Ends-visit_with :
        (item : Item) → value_ref item < n → Ends n k (visit_with hasher api blocks visit item)
    unfolding visit_with
    Ends-visit_with item lt = elim (Bool-cases (value_ref item == 0)) [
      | inl e ↦
          rw e (Ends-of_Quiet n k _ (Quiet-if (is_operand item) _ _ (Quiet-pure tt) Quiet-abort))
      | inr e ↦ rw e (Ends-visit_value item lt)
    ]

  pub Ends-visit_item :
      (fuel k : ℕ)
      → k < fuel
      → (item : Item) → value_ref item < n
      → Ends n k (visit_item hasher api blocks fuel item)
  unfolding visit_item
  Ends-visit_item zero k h item lt = elim h [ ]
  Ends-visit_item (suc fuel) k h item lt =
      Ends-visit_with k (visit_item hasher api blocks fuel)
        (λ k' e. Ends-visit_item fuel k' (omega arith)) item lt
