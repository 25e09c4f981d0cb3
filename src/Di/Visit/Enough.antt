-- ===== src/Di/Visit/Enough.antt =====
-- `visit_item` and its fuel, over a memory that grows: each first visit leaves less to visit than
-- there was before.
use bpf_linker.Prelude.{
  ℕ, zero, suc, ◌+◌, ◌-◌, ◌<◌, ◌≡◌, refl, ap, subst, ◌∙◌, inl, inr, Bool-cases, false, ◌∷◌, arith,
  ◌==◌,
}
use bpf_linker.Outcome.{Outcome, ◌>>=◌}
use bpf_linker.Types.Api.{Ref, Api}
use bpf_linker.Types.Ir
use bpf_linker.Types.Ir.{
  Value, md_node, function, new, operands, metadata_entries, params, from_value_ref,
}
use bpf_linker.Types.Laws.{MetadataLaws}
use bpf_linker.Types.Frontier.{creates, FrontierLaws, weigh-cons}
use bpf_linker.Di.Names.{DefaultHasher}
use bpf_linker.Di.Sanitizer.{Sanitizer, Stop, Visit, contains, reading}
use bpf_linker.Di.Visit.{
  Item, value_ref, is_operand, Blocks, replace_operand, first_visit, visit_node, visit_children,
  visit_value, visit_with, visit_item,
}
use bpf_linker.Di.Visit.Lasts.{Later, Lasting, Lasts, Lasting-le, Lasting-then}
use bpf_linker.Di.Visit.First.{Goes-replace_operand, node_first-Going}
use bpf_linker.Di.Visit.Ample.{Goes-rest}

module _ {L : Type 0} (hasher : DefaultHasher) (api : Api L) (blocks : Blocks L) (frontier : L → ℕ)
    (c : ℕ) (laws : MetadataLaws api) (bounds : FrontierLaws api blocks.instructions frontier) where
  abbrev At : ℕ → ℕ → Sanitizer L → Type 0
  At = Later api blocks.instructions frontier c

  abbrev Going : {A : Type 0} → ℕ → ℕ → Outcome Stop A × Sanitizer L → Type 0
  Going = Lasting api blocks.instructions frontier c

  abbrev Goes : {A : Type 0} → ℕ → ℕ → Visit L A → Type 0
  Goes = Lasts api blocks.instructions frontier c

  value_ref-of_new : (s : L) (v : Ref) → Ir.value_ref (new api s v) ≡ v
  value_ref-of_new s v = elim (Bool-cases (api.is_a_md_node s v)) [
    | inl e ↦ rw e refl
    | inr e ↦ elim (Bool-cases (api.is_a_function s v)) [
      | inl f ↦ rw (e, f) refl
      | inr f ↦ rw (e, f) refl
    ]
  ]

  -- A first visit leaves less than there was.
  module _ (visit : Item → Visit L Unit) (p : ℕ)
      (each : (q f : ℕ) (item : Item)
        → suc q ≡ p
        → value_ref item < c + f
        → Goes q f (visit item)) where
    left_to_visit :
        (f : ℕ) (v : Ref) (s : Sanitizer L)
        → At p f s
        → v < c + frontier s.llvm
        → contains v s.visited_nodes ≡ false
        → (q : ℕ) × (suc q ≡ p)
    left_to_visit f v s at lt new_here =
        let fewer = weigh-cons api (c + frontier s.llvm) v s.visited_nodes s.llvm lt new_here in
        elim (Bool-cases (creates (from_value_ref api s.llvm v))) [
          | inl e ↦ let fewer' = (rw e at fewer) in (p - 1, omega (arith, fewer', at.less))
          | inr e ↦ let fewer' = (rw e at fewer) in (p - 1, omega (arith, fewer', at.less))
        ]

    first-Going :
        (f : ℕ) (item : Item) (value : Value) (s : Sanitizer L)
        → At p f s
        → value_ref item < c + frontier s.llvm
        → Ir.value_ref value ≡ value_ref item
        → contains (value_ref item) s.visited_nodes ≡ false
        → Going p f (
            visit_children hasher api blocks visit item value
              (record s { visited_nodes = value_ref item ∷ s.visited_nodes }))
    unfolding visit_children
    first-Going f item value s at lt same new_here =
        let v = value_ref item in
        let entered : Sanitizer L = record s { visited_nodes = v ∷ s.visited_nodes } in
        let (q, e) = left_to_visit f v s at lt new_here in
        let at' : At (suc q) f s = record {
          inside = at.inside;
          less = omega (arith, at.less, e);
          wider = at.wider;
        } in
        let node : Going q f (visit_node hasher api blocks value entered) =
          subst
            (λ r. Going q f (
              visit_node hasher api blocks value
                (record s { visited_nodes = r ∷ s.visited_nodes })))
            same
            (node_first-Going hasher api blocks frontier c laws bounds q f value s at'
              (omega (arith, lt, same)) (ap (λ r. contains r s.visited_nodes) same ∙ new_here)) in
        Lasting-le api blocks.instructions frontier c
          (visit_children hasher api blocks visit item value entered) (omega (arith, e))
          (omega arith)
          (Lasting-then api blocks.instructions frontier c _ _ entered node (
            Goes-rest hasher api blocks frontier c laws bounds visit q (λ g i lt. each q g i e lt) f
              item value))

    Goes-visit_value :
        (f : ℕ) (item : Item)
        → value_ref item < c + f
        → Goes p f (visit_value hasher api blocks visit item)
    unfolding visit_value first_visit reading ◌>>=◌
    Goes-visit_value f item lt = record {
      at = λ s at.
          Lasting-then api blocks.instructions frontier c (replace_operand hasher api blocks item) _
            s ((Goes-replace_operand hasher api blocks frontier c laws bounds p f item).at s at)
            (record {
              at = λ t at'. elim (Bool-cases (contains (value_ref item) t.visited_nodes)) [
                | inl e ↦ rw e at'
                | inr e ↦ rw e (
                    first-Going f item (new api s.llvm (value_ref item)) t at'
                      (omega (arith, lt, at'.wider)) (value_ref-of_new s.llvm (value_ref item)) e)
              ];
            });
    }

    pub Goes-visit_with :
        (f : ℕ) (item : Item)
        → value_ref item < c + f
        → Goes p f (visit_with hasher api blocks visit item)
    unfolding visit_with ◌>>=◌
    Goes-visit_with f item lt = elim (Bool-cases (value_ref item == 0)) [
      | inl z ↦ elim (Bool-cases (is_operand item)) [
        | inl o ↦ rw (z, o) (record { at = λ s at. at })
        | inr o ↦ rw (z, o) (record { at = λ s at. tt })
      ]
      | inr z ↦ rw z (Goes-visit_value f item lt)
    ]

  pub Goes-visit_item :
      (fuel p f : ℕ) (item : Item)
      → p < fuel
      → value_ref item < c + f
      → Goes p f (visit_item hasher api blocks fuel item)
  unfolding visit_item
  Goes-visit_item zero p f item enough lt = elim enough [ ]
  Goes-visit_item (suc fuel) p f item enough lt =
      Goes-visit_with (visit_item hasher api blocks fuel) p
        (λ q g i e lt'. Goes-visit_item fuel q g i (omega (arith, e, enough)) lt') f item lt
