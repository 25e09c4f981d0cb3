-- ===== src/Di/Visit/Returns.antt =====
-- The traversal without a panic.
use mathlib.Core.Option.{none-ne-some}
use bpf_linker.Prelude.{
  ℕ, zero, suc, ◌+◌, ◌≡◌, ◌≢◌, ◌<◌, refl, inl, inr, Bool-cases, Bool, true, false, not, ◌||◌,
  Option, none, some, List, [], ◌∷◌, map, arith, ◌==◌, if◌then◌else◌, All,
}
use bpf_linker.Outcome.{pure, ◌>>=◌}
use bpf_linker.Types.Api.{Ref, Api}
use bpf_linker.Types.Ir
use bpf_linker.Types.Ir.{Value, md_node, function, new, operands, metadata_entries, params}
use bpf_linker.Types.Laws.{MetadataLaws}
use bpf_linker.Types.Live.{All-range_map}
use bpf_linker.Types.Text.{TextLaws}
use bpf_linker.Di.Names.{DefaultHasher}
use bpf_linker.Di.Sanitizer.{Sanitizer, Visit, reading}
use bpf_linker.Di.Visit.Safe.{
  Ready, Fares, Safe, Fares-then, Safe-bind, Safe-then, Safe-reading, Safe-pure,
}
use bpf_linker.Di.Visit.{
  Item, global_variable, global_alias, function_item, operand, function_param, instruction,
  metadata_entry, value_ref, is_operand, Blocks, replace_operand, visit_all, visit_operands,
  entry_items, visit_entries, visit_operands_of, visit_function, visit_children, visit_value,
  visit_with, visit_item,
}
use bpf_linker.Di.Visit.Fits.{Fits, Fares-replace_operand, Safe-first_visit, Safe-visit_node}

-- LLVM hands out no null pointer for a parameter, an instruction or a node that is attached to a
-- value.
pub record NoNull {L : Type 0} (api : Api L) (blocks : Blocks L) : Type 0 where
  pub param-ne : (s : L) (f : Ref) (i : ℕ) → i < api.count_params s f → api.param s f i ≢ 0
  pub instructions-ne : (s : L) (f : Ref) → All (λ i. i ≢ 0) (blocks.instructions s f)
  pub entries-ne :
      (s : L) (v : Ref) (es : List (Ref × ℕ))
      → api.global_copy_all_metadata s v ≡ some es
      → All (λ e. api.metadata_as_value e.0 ≢ 0) es

module _ {L : Type 0} (hasher : DefaultHasher) (api : Api L) (blocks : Blocks L)
    (laws : MetadataLaws api) (texts : TextLaws api) where
  -- Items that fit in any state.
  abbrev AlwaysFits : Item → Type 0
  AlwaysFits item = (s : Sanitizer L) → Fits hasher api blocks laws texts s item

  pub map-Fits :
      (c : Ref → Item)
      → ((r : Ref) → r ≢ 0 → (s : Sanitizer L) → Fits hasher api blocks laws texts s (c r))
      → (rs : List Ref) → All (λ r. r ≢ 0) rs
      → All (λ item. (s : Sanitizer L) → Fits hasher api blocks laws texts s item) (map c rs)
  map-Fits c k [] h = tt
  map-Fits c k (r ∷ rs) h = (k r h.0, map-Fits c k rs h.1)

  entry_items-AlwaysFits :
      (i : ℕ) (es : List (Ref × ℕ))
      → All (λ e. api.metadata_as_value e.0 ≢ 0) es
      → All AlwaysFits (entry_items hasher api blocks i es)
  entry_items-AlwaysFits i [] h = tt
  entry_items-AlwaysFits i ((m, kind) ∷ es) h = (λ s. h.0, entry_items-AlwaysFits (i + 1) es h.1)

  entries_attached :
      (l : L) (value : Value) (es : List (Ref × ℕ))
      → metadata_entries api l value ≡ some es
      → api.global_copy_all_metadata l (Ir.value_ref value) ≡ some es
  entries_attached l value es h =
      let v = Ir.value_ref value in
      elim (Bool-cases (not (api.is_a_global_object l v || api.is_a_instruction l v))) [
        | inl e ↦ absurd (none-ne-some es (rw e at h))
        | inr e ↦ (rw e at h)
      ]

  module _ (nonull : NoNull api blocks) (visit : Item → Visit L Unit)
      (each : (item : Item) (s : Sanitizer L)
        → Ready api s
        → Fits hasher api blocks laws texts s item
        → Fares api (visit item s)) where
    pub Safe-visit_all :
        (items : List Item)
        → All AlwaysFits items
        → Safe api (visit_all hasher api blocks visit items)
    unfolding visit_all
    Safe-visit_all [] h = Safe-pure api tt
    Safe-visit_all (item ∷ items) h =
        Safe-then api _ _ (record { at = λ s ready. each item s ready (h.0 s) })
          (Safe-visit_all items h.1)

    Safe-visit_operands :
        (parent i n : ℕ) → Safe api (visit_operands hasher api blocks visit parent i n)
    unfolding visit_operands
    Safe-visit_operands parent i zero = Safe-pure api tt
    Safe-visit_operands parent i (suc n) =
        Safe-reading api (λ l. api.operand l parent i) _
          λ s ready.
            Fares-then api _ _ s (each _ s ready refl) (Safe-visit_operands parent (i + 1) n)

    Safe-visit_operands_of :
        (parent : Ref) (n : Option ℕ)
        → Safe api (visit_operands_of hasher api blocks visit parent n)
    unfolding visit_operands_of
    Safe-visit_operands_of parent none = Safe-pure api tt
    Safe-visit_operands_of parent (some n) = Safe-visit_operands parent 0 n

    Safe-visit_entries :
        (entries : Option (List (Ref × ℕ)))
        → ((es : List (Ref × ℕ)) → entries ≡ some es → All (λ e. api.metadata_as_value e.0 ≢ 0) es)
        → Safe api (visit_entries hasher api blocks visit entries)
    unfolding visit_entries
    Safe-visit_entries none h = Safe-pure api tt
    Safe-visit_entries (some es) h = Safe-visit_all _ (entry_items-AlwaysFits 0 es (h es refl))

    Safe-visit_function : (value : Value) → Safe api (visit_function hasher api blocks visit value)
    unfolding visit_function
    Safe-visit_function (function f) =
        Safe-reading api (λ l. params api l f) _
          λ s ready.
            let ps =
              All-range_map (λ r. r ≢ 0) (api.param s.llvm f) 0 (api.count_params s.llvm f)
                (λ i low high. nonull.param-ne s.llvm f i (omega (arith, high))) in
            (Safe-then api _ _ (Safe-visit_all _ (map-Fits function_param (λ r h s. h) _ ps)) (
                Safe-reading api (λ l. blocks.instructions l f) _
                  λ s' ready'.
                    (Safe-visit_all _
                        (map-Fits instruction (λ r h s. h) _ (nonull.instructions-ne s'.llvm f))).at
                      s' ready')).at
              s ready
    Safe-visit_function _ = Safe-pure api tt

    Safe-visit_children :
        (item : Item) (value : Value) → Safe api (visit_children hasher api blocks visit item value)
    unfolding visit_children
    Safe-visit_children item value =
        Safe-then api _ _ (Safe-visit_node hasher api blocks laws texts value) (
          Safe-reading api (λ l. operands api l value) _
            λ s ready.
              (Safe-then api _ _ (Safe-visit_operands_of (value_ref item) _) (
                  Safe-reading api (λ l. metadata_entries api l value) _
                    λ s' ready'.
                      Fares-then api _ _ s'
                        ((Safe-visit_entries (metadata_entries api s'.llvm value) (λ es e.
                            nonull.entries-ne s'.llvm _ es
                              (entries_attached s'.llvm value es e))).at
                          s' ready')
                        (Safe-visit_function value))).at
                s ready)

    Fares-visit_value :
        (item : Item) (s : Sanitizer L)
        → Ready api s
        → Fits hasher api blocks laws texts s item
        → value_ref item ≢ 0
        → Fares api (visit_value hasher api blocks visit item s)
    unfolding visit_value reading ◌>>=◌
    Fares-visit_value item s ready fits other =
        Fares-then api (replace_operand hasher api blocks item) _ s
          (Fares-replace_operand hasher api blocks laws texts item s ready fits other)
          (Safe-bind api _ _ (Safe-first_visit hasher api blocks laws texts (value_ref item))
            λ first. children first (new api s.llvm (value_ref item)))
      where
        children :
            (first : Bool) (value : Value)
            → Safe api
                (if not first then pure tt else visit_children hasher api blocks visit item value)
        children true value = Safe-visit_children item value
        children false value = Safe-pure api tt

    value_not_null :
        (item : Item) (s : Sanitizer L)
        → Fits hasher api blocks laws texts s item
        → value_ref item ≡ 0
        → is_operand item ≡ true
    value_not_null (operand o) s fits null = refl
    value_not_null (global_variable v) s fits null = absurd (fits null)
    value_not_null (global_alias v) s fits null = absurd (fits null)
    value_not_null (function_item v) s fits null = absurd (fits null)
    value_not_null (function_param v) s fits null = absurd (fits null)
    value_not_null (instruction v) s fits null = absurd (fits null)
    value_not_null (metadata_entry v kind index) s fits null = absurd (fits null)

    pub Fares-visit_with :
        (item : Item) (s : Sanitizer L)
        → Ready api s
        → Fits hasher api blocks laws texts s item
        → Fares api (visit_with hasher api blocks visit item s)
    unfolding visit_with ◌>>=◌
    Fares-visit_with item s ready fits = elim (Bool-cases (value_ref item == 0)) [
      | inl z ↦
          let null : value_ref item ≡ 0 = ground (arith, z) in
          rw (z, value_not_null item s fits null) ready
      | inr z ↦ rw z (Fares-visit_value item s ready fits (λ e. ground (arith, e, z)))
    ]

  pub Fares-visit_item :
      NoNull api blocks
      → (fuel : ℕ) (item : Item) (s : Sanitizer L) → Ready api s
      → Fits hasher api blocks laws texts s item
      → Fares api (visit_item hasher api blocks fuel item s)
  unfolding visit_item ◌>>=◌
  Fares-visit_item nonull zero item s ready fits = tt
  Fares-visit_item nonull (suc fuel) item s ready fits =
      Fares-visit_with nonull (visit_item hasher api blocks fuel) (Fares-visit_item nonull fuel)
        item s ready fits
