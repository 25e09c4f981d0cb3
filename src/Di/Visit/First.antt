-- ===== src/Di/Visit/First.antt =====
-- A first visit's own changes, and what they add to what is left to visit.
use bpf_linker.Prelude.{
  ℕ, suc, ◌+◌, ◌≤◌, ◌<◌, ◌≡◌, sym, subst, inl, inr, Bool-cases, Option-cases, false, some, List, [],
  ◌∷◌, arith, ◌==◌, All,
}
use bpf_linker.Outcome.{Outcome, ok, err, panic, ◌>>=◌}
use bpf_linker.Types.Api.{Ref, Api}
use bpf_linker.Types.Ir
use bpf_linker.Types.Ir.{
  Value, md_node, function, new, operands, metadata_entries, params, from_value_ref,
}
use bpf_linker.Types.Laws.{MetadataLaws}
use bpf_linker.Types.Frontier.{creates, FrontierLaws, weigh-cons}
use bpf_linker.Di.Names.{DefaultHasher}
use bpf_linker.Di.Sanitizer.{Sanitizer, Stop, out_of_fuel, Visit, contains, get, changing}
use bpf_linker.Di.Fuel.{Within}
use bpf_linker.Di.Cost.{InBounds, left, replace-Costs, set-Costs}
use bpf_linker.Di.Node.{visit_mdnode}
use bpf_linker.Di.Node.Quiet.{Quiet-visit_mdnode}
use bpf_linker.Di.Node.Cost.{visit_mdnode-Spends}
use bpf_linker.Di.Visit.{
  Item, Operand, operand, Blocks, replace, replace_found, replace_operand, visit_node,
}
use bpf_linker.Di.Visit.Lasts.{Later, Lasting, Lasts}

module _ {L : Type 0} (hasher : DefaultHasher) (api : Api L) (blocks : Blocks L) (frontier : L → ℕ)
    (c : ℕ) (laws : MetadataLaws api) (bounds : FrontierLaws api blocks.instructions frontier) where
  abbrev At : ℕ → ℕ → Sanitizer L → Type 0
  At = Later api blocks.instructions frontier c

  abbrev Going : {A : Type 0} → ℕ → ℕ → Outcome Stop A × Sanitizer L → Type 0
  Going = Lasting api blocks.instructions frontier c

  abbrev Goes : {A : Type 0} → ℕ → ℕ → Visit L A → Type 0
  Goes = Lasts api blocks.instructions frontier c

  got_inside :
      (key : ℕ) (n : ℕ) (rs : List (ℕ × Ref)) (m : Ref)
      → All (λ e. api.metadata_as_value e.1 < n) rs
      → get key rs ≡ some m
      → api.metadata_as_value m < n
  got_inside key n [] m all h = cc
  got_inside key n ((k, r) ∷ rs) m all h = elim (Bool-cases (k == key)) [
    | inl e ↦ subst (λ x. api.metadata_as_value x < n) (ground (arith, e, h)) all.0
    | inr e ↦ got_inside key n rs m all.1 (ground (arith, e, h))
  ]

  replace-At :
      (p f : ℕ) (o : Operand) (m : Ref) (s : Sanitizer L)
      → api.metadata_as_value m < c + frontier s.llvm
      → At p f s
      → At p f (record s { llvm = replace hasher api blocks o (api.metadata_as_value m) s.llvm })
  replace-At p f o m s lt at =
      let m' = api.value_as_metadata (api.metadata_as_value m) in
      let node =
        replace-Costs api blocks.instructions frontier c laws bounds s.visited_nodes
          s.replace_operands o.parent o.index m' s.llvm at.inside
          (omega (arith, lt, laws.metadata_of_value (api.metadata_as_value m))) in
      let user =
        set-Costs api blocks.instructions frontier c laws bounds s.visited_nodes s.replace_operands
          o.parent o.index (api.metadata_as_value m) s.llvm at.inside lt in
      elim (Bool-cases (api.is_a_md_node s.llvm o.parent)) [
        | inl e ↦ rw e (record {
          inside = node.inside;
          less = omega (arith, node.more, at.less);
          wider = omega (arith, node.wider, at.wider);
        })
        | inr e ↦ elim (Bool-cases (api.is_a_user s.llvm o.parent)) [
          | inl u ↦
              rw (e, u)
                (record {
                  inside = user.inside;
                  less = omega (arith, user.more, at.less);
                  wider = omega (arith, user.wider, at.wider);
                })
          | inr u ↦ rw (e, u) at
        ]
      ]

  pub Goes-replace_operand :
      (p f : ℕ) (item : Item) → Goes p f (replace_operand hasher api blocks item)
  unfolding replace_operand replace_found changing ◌>>=◌
  Goes-replace_operand p f (operand o) = record {
    at = λ s at. elim (Option-cases (get o.value s.replace_operands)) [
      | inl e ↦ rw e at
      | inr (m, e) ↦
          rw e
            (replace-At p f o m s (got_inside o.value _ s.replace_operands m at.inside.made e) at)
    ];
  }
  Goes-replace_operand p f _ = record { at = λ s at. at }

  -- The first visit of a node, from the state that has it among the visited.
  node-Going :
      (p f : ℕ) (v : Ref) (s : Sanitizer L)
      → At (suc p) f s
      → v < c + frontier s.llvm
      → contains v s.visited_nodes ≡ false
      → Going p f (visit_mdnode hasher api v (record s { visited_nodes = v ∷ s.visited_nodes }))
  node-Going p f v s at lt new_here =
      let entered : Sanitizer L = record s { visited_nodes = v ∷ s.visited_nodes } in
      let spends =
        visit_mdnode-Spends hasher api blocks.instructions frontier c laws bounds v entered
          at.inside in
      let fewer = weigh-cons api (c + frontier s.llvm) v s.visited_nodes s.llvm lt new_here in
      let r = visit_mdnode hasher api v entered in
      let within = ((Quiet-visit_mdnode hasher api v).at entered).0 in
      let later : At p f r.1 = record {
        inside =
            subst (λ rs. InBounds api blocks.instructions frontier c rs r.1.llvm)
              (sym spends.replaced) spends.cost.inside;
        less =
            subst (λ vs. left api blocks.instructions frontier c vs r.1.llvm ≤ p)
              (sym spends.visited)
              (elim (Bool-cases (creates (from_value_ref api s.llvm v))) [
                | inl e ↦
                    let more = (rw e at spends.cost.more) in
                    let fewer' = (rw e at fewer) in omega (arith, more, fewer', at.less)
                | inr e ↦
                    let more = (rw e at spends.cost.more) in
                    let fewer' = (rw e at fewer) in omega (arith, more, fewer', at.less)
              ]);
        wider = omega (arith, spends.cost.wider, at.wider);
      } in
      going r within later
    where
      going :
          (r : Outcome Stop Unit × Sanitizer L)
          → Within r.0
          → Later api blocks.instructions frontier c p f r.1
          → Lasting api blocks.instructions frontier c p f r
      going (ok a, t) within later = later
      going (err out_of_fuel, t) within later = within
      going (panic, t) within later = tt

  entered-At :
      (p f : ℕ) (v : Ref) (s : Sanitizer L)
      → At (suc p) f s
      → v < c + frontier s.llvm
      → contains v s.visited_nodes ≡ false
      → At p f (record s { visited_nodes = v ∷ s.visited_nodes })
  entered-At p f v s at lt new_here = record {
    inside = at.inside;
    less =
        let fewer = weigh-cons api (c + frontier s.llvm) v s.visited_nodes s.llvm lt new_here in
        elim (Bool-cases (creates (from_value_ref api s.llvm v))) [
          | inl e ↦ let fewer' = (rw e at fewer) in omega (arith, fewer', at.less)
          | inr e ↦ let fewer' = (rw e at fewer) in omega (arith, fewer', at.less)
        ];
    wider = at.wider;
  }

  pub node_first-Going :
      (p f : ℕ) (value : Value) (s : Sanitizer L)
      → At (suc p) f s
      → Ir.value_ref value < c + frontier s.llvm
      → contains (Ir.value_ref value) s.visited_nodes ≡ false
      → Going p f (
          visit_node hasher api blocks value
            (record s { visited_nodes = Ir.value_ref value ∷ s.visited_nodes }))
  unfolding visit_node ◌>>=◌
  node_first-Going p f (md_node v) s at lt new_here = node-Going p f v s at lt new_here
  node_first-Going p f (function v) s at lt new_here = entered-At p f v s at lt new_here
  node_first-Going p f (Value.other v) s at lt new_here = entered-At p f v s at lt new_here
