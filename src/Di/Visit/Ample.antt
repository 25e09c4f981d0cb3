-- ===== src/Di/Visit/Ample.antt =====
-- The loops of `visit_item` and their fuel, over a memory that grows.
use bpf_linker.Prelude.{
  ℕ, zero, suc, ◌+◌, ◌<◌, ◌≡◌, refl, inl, inr, Bool-cases, Option-cases, not, ◌||◌, Option, none,
  some, List, [], ◌∷◌, map, arith, All,
}
use bpf_linker.Outcome.{Outcome, ◌>>=◌, ◌>>◌}
use bpf_linker.Types.Api.{Ref, Api}
use bpf_linker.Types.Ir
use bpf_linker.Types.Ir.{
  Value, md_node, function, new, operands, metadata_entries, params, from_value_ref,
}
use bpf_linker.Types.Laws.{MetadataLaws}
use bpf_linker.Types.Live.{All-range_map}
use bpf_linker.Types.Frontier.{FrontierLaws}
use bpf_linker.Di.Names.{DefaultHasher}
use bpf_linker.Di.Sanitizer.{Sanitizer, Stop, Visit, reading}
use bpf_linker.Di.Visit.{
  Item, function_param, instruction, value_ref, Blocks, visit_all, visit_operands, entry_items,
  visit_entries, visit_operands_of, visit_function,
}
use bpf_linker.Di.Visit.Lasts.{
  Later, Lasting, Lasts, Lasting-le, Lasting-then, Lasts-then, Lasts-reading, Lasts-pure,
}

module _ {L : Type 0} (hasher : DefaultHasher) (api : Api L) (blocks : Blocks L) (frontier : L → ℕ)
    (c : ℕ) (laws : MetadataLaws api) (bounds : FrontierLaws api blocks.instructions frontier) where
  abbrev At : ℕ → ℕ → Sanitizer L → Type 0
  At = Later api blocks.instructions frontier c

  abbrev Going : {A : Type 0} → ℕ → ℕ → Outcome Stop A × Sanitizer L → Type 0
  Going = Lasting api blocks.instructions frontier c

  abbrev Goes : {A : Type 0} → ℕ → ℕ → Visit L A → Type 0
  Goes = Lasts api blocks.instructions frontier c

  module _ (visit : Item → Visit L Unit) (p : ℕ)
      (each : (f : ℕ) (item : Item) → value_ref item < c + f → Goes p f (visit item)) where
    pub Goes-visit_all :
        (f : ℕ) (items : List Item)
        → All (λ i. value_ref i < c + f) items
        → Goes p f (visit_all hasher api blocks visit items)
    unfolding visit_all
    Goes-visit_all f [] h = Lasts-pure api blocks.instructions frontier c tt
    Goes-visit_all f (item ∷ items) h =
        Lasts-then api blocks.instructions frontier c _ _ (each f item h.0)
          (Goes-visit_all f items h.1)

    -- What was read lies within the frontier as it is now.
    visit_now :
        (f : ℕ) (item : Item) (s : Sanitizer L)
        → At p f s
        → value_ref item < c + frontier s.llvm
        → Going p f (visit item s)
    visit_now f item s at lt =
        Lasting-le api blocks.instructions frontier c (visit item s) (omega arith) at.wider (
          (each (frontier s.llvm) item lt).at s
            (record { inside = at.inside; less = at.less; wider = omega arith }))

    pub items_now :
        (f : ℕ) (items : List Item) (s : Sanitizer L)
        → At p f s
        → All (λ i. value_ref i < c + frontier s.llvm) items
        → Going p f (visit_all hasher api blocks visit items s)
    items_now f items s at lt =
        Lasting-le api blocks.instructions frontier c (visit_all hasher api blocks visit items s)
          (omega arith) at.wider
          ((Goes-visit_all (frontier s.llvm) items lt).at s
            (record { inside = at.inside; less = at.less; wider = omega arith }))

    Goes-visit_operands :
        (f parent i n : ℕ) → Goes p f (visit_operands hasher api blocks visit parent i n)
    unfolding visit_operands
    Goes-visit_operands f parent i zero = Lasts-pure api blocks.instructions frontier c tt
    Goes-visit_operands f parent i (suc n) =
        Lasts-reading api blocks.instructions frontier c (λ l. api.operand l parent i) _
          λ s at.
            Lasting-then api blocks.instructions frontier c _ _ s
              (visit_now f _ s at (at.inside.operand parent i))
              (Goes-visit_operands f parent (i + 1) n)

    Goes-visit_operands_of :
        (f : ℕ) (parent : Ref) (n : Option ℕ)
        → Goes p f (visit_operands_of hasher api blocks visit parent n)
    unfolding visit_operands_of
    Goes-visit_operands_of f parent none = Lasts-pure api blocks.instructions frontier c tt
    Goes-visit_operands_of f parent (some n) = Goes-visit_operands f parent 0 n

    pub map_below :
        (k : Ref → Item)
        → ((r : Ref) → value_ref (k r) ≡ r)
        → (n : ℕ) (rs : List Ref) → All (λ r. r < n) rs
        → All (λ i. value_ref i < c + n) (map k rs)
    map_below k same n [] h = tt
    map_below k same n (r ∷ rs) h = (omega (arith, same r, h.0), map_below k same n rs h.1)

    entries_below :
        (i n : ℕ) (es : List (Ref × ℕ))
        → All (λ e. api.metadata_as_value e.0 < n) es
        → All (λ i. value_ref i < c + n) (entry_items hasher api blocks i es)
    entries_below i n [] h = tt
    entries_below i n ((m, kind) ∷ es) h = (omega (arith, h.0), entries_below (i + 1) n es h.1)

    entries-Going :
        (f : ℕ) (value : Value) (s : Sanitizer L)
        → At p f s
        → Going p f (visit_entries hasher api blocks visit (metadata_entries api s.llvm value) s)
    unfolding visit_entries ◌>>=◌
    entries-Going f value s at =
        let v = Ir.value_ref value in
        elim (Bool-cases (not (api.is_a_global_object s.llvm v || api.is_a_instruction s.llvm v))) [
          | inl e ↦ rw e at
          | inr e ↦ elim (Option-cases (api.global_copy_all_metadata s.llvm v)) [
            | inl gone ↦ rw (e, gone) at
            | inr (es, found) ↦
                rw (e, found)
                  (items_now f (entry_items hasher api blocks 0 es) s at
                    (entries_below 0 (frontier s.llvm) es (bounds.entries-lt s.llvm v es found)))
          ]
        ]

    params_below : (s : L) (g : Ref) → All (λ r. r < frontier s) (params api s g)
    params_below s g =
        All-range_map (λ r. r < frontier s) (api.param s g) 0 (api.count_params s g)
          (λ i low high. bounds.param-lt s g i)

    Goes-visit_function :
        (f : ℕ) (value : Value) → Goes p f (visit_function hasher api blocks visit value)
    unfolding visit_function
    Goes-visit_function f (function g) =
        Lasts-reading api blocks.instructions frontier c (λ l. params api l g) _
          λ s at.
            Lasting-then api blocks.instructions frontier c _ _ s
              (items_now f _ s at
                (map_below function_param (λ r. refl) (frontier s.llvm) _ (params_below s.llvm g)))
              (Lasts-reading api blocks.instructions frontier c (λ l. blocks.instructions l g) _
                λ s' at'. items_now f _ s' at' (
                  map_below instruction (λ r. refl) (frontier s'.llvm) _
                    (bounds.instructions-lt s'.llvm g)))
    Goes-visit_function f _ = Lasts-pure api blocks.instructions frontier c tt

    -- What follows the node's own visit.
    pub Goes-rest :
        (f : ℕ) (item : Item) (value : Value)
        → Goes p f (
            reading (λ l. operands api l value) >>= λ n.
            visit_operands_of hasher api blocks visit (value_ref item) n
            >> (reading (λ l. metadata_entries api l value) >>= λ es.
                visit_entries hasher api blocks visit es
                >> visit_function hasher api blocks visit value))
    Goes-rest f item value =
        Lasts-reading api blocks.instructions frontier c (λ l. operands api l value) _
          λ s at.
            Lasting-then api blocks.instructions frontier c _ _ s
              ((Goes-visit_operands_of f (value_ref item) (operands api s.llvm value)).at s at)
              (Lasts-reading api blocks.instructions frontier c (λ l. metadata_entries api l value)
                _
                λ s' at'.
                  Lasting-then api blocks.instructions frontier c _ _ s'
                    (entries-Going f value s' at') (Goes-visit_function f value))
