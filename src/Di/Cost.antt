-- ===== src/Di/Cost.antt =====
-- What LLVM's calls add to what the traversal has left to visit.
use bpf_linker.Prelude.{
  ℕ, suc, ◌+◌, ◌≤◌, ◌<◌, ◌≡◌, sym, ap, subst, ◌∙◌, inl, inr, Bool-cases, true, false, List, arith,
  ◌==◌, All, All-mono, All-map, All-Among, Text,
}
use bpf_linker.Types.Api.{Ref, Api}
use bpf_linker.Types.Ir.{from_value_ref}
use bpf_linker.Types.Di.{elements_operand}
use bpf_linker.Types.Laws.{MetadataLaws}
use bpf_linker.Types.Frontier.{creates, FrontierLaws, weigh, weigh-le, weigh_more}
use bpf_linker.Di.Node.Writes.{set_name, set_elements}

module _ {L : Type 0} (api : Api L) (instructions : L → Ref → List Ref) (frontier : L → ℕ)
    (c : ℕ) where
  -- All operands and all new subprograms lie within the frontier, and `c` addresses beside it.
  pub record InBounds (rs : List (ℕ × Ref)) (l : L) : Type 0 where
    pub operand : (v : Ref) (i : ℕ) → api.operand l v i < c + frontier l
    pub made : All (λ e. api.metadata_as_value e.1 < c + frontier l) rs

  abbrev pub left : List ℕ → L → ℕ
  left vs l = weigh api (c + frontier l) vs l

  -- From one state to the next `n` is added at most.
  pub record Costs (n : ℕ) (vs : List ℕ) (rs : List (ℕ × Ref)) (s t : L) : Type 0 where
    pub inside : InBounds rs t
    pub more : left vs t ≤ left vs s + n
    pub wider : frontier s ≤ frontier t

  module _ {vs : List ℕ} {rs : List (ℕ × Ref)} where
    pub Costs-refl : (n : ℕ) (l : L) → InBounds rs l → Costs n vs rs l l
    Costs-refl n l h = record { inside = h; more = omega arith; wider = omega arith }

    pub Costs-trans :
        {m n : ℕ} {s t u : L} → Costs m vs rs s t → Costs n vs rs t u → Costs (m + n) vs rs s u
    Costs-trans p q = record {
      inside = q.inside;
      more = omega (arith, p.more, q.more);
      wider = omega (arith, p.wider, q.wider);
    }

    pub Costs-le : {m n : ℕ} {s t : L} → m ≤ n → Costs m vs rs s t → Costs n vs rs s t
    Costs-le le p = record { inside = p.inside; more = omega (arith, p.more, le); wider = p.wider }

  module _ (laws : MetadataLaws api) (bounds : FrontierLaws api instructions frontier) (vs : List ℕ)
      (rs : List (ℕ × Ref)) where
    -- The frontier moves by one at most, and no node comes for which others are made.
    left_more :
        (s t : L)
        → ((w : Ref)
            → creates (from_value_ref api t w) ≡ true
            → creates (from_value_ref api s w) ≡ true)
        → frontier s ≤ frontier t
        → frontier t ≤ suc (frontier s)
        → left vs t ≤ left vs s + 1
    left_more s t kinds ge le = elim (Bool-cases (frontier t == frontier s)) [
      | inl e ↦
          let same : frontier t ≡ frontier s = ground (arith, e) in
          let lower = weigh-le api (c + frontier s) vs s t kinds in rw same (omega (arith, lower))
      | inr e ↦
          let same : c + frontier t ≡ suc (c + frontier s) = ground (arith, e, ge, le) in
          let outside : creates (from_value_ref api t (c + frontier s)) ≡ false =
            elim (Bool-cases (creates (from_value_ref api t (c + frontier s)))) [
              | inl old ↦ absurd (omega (arith, bounds.kind-lt s _ (kinds _ old)))
              | inr new ↦ new
            ] in
          rw same (
            omega (
              arith,
              weigh_more api (c + frontier s) vs t outside,
              weigh-le api (c + frontier s) vs s t kinds,
            ))
    ]

    made_wider :
        (s t : L)
        → frontier s ≤ frontier t
        → InBounds rs s
        → All (λ e. api.metadata_as_value e.1 < c + frontier t) rs
    made_wider s t ge h = All-mono _ _ (λ e lt. omega (arith, lt, ge)) rs h.made

    pub replace-Costs :
        (v : Ref) (i : ℕ) (m : Ref) (l : L)
        → InBounds rs l
        → api.metadata_as_value m < c + frontier l
        → Costs 0 vs rs l (api.replace_md_node_operand_with v i m l)
    replace-Costs v i m l h lt =
        let same = bounds.frontier-replace v i m l in
        let lower =
          weigh-le api (c + frontier l) vs l (api.replace_md_node_operand_with v i m l)
            (λ w e. ap creates (sym (bounds.kind-replace v i m l w)) ∙ e) in
        record {
          inside = record {
            operand = λ w j.
                rw same (ground (arith, laws.operand-replace v i m l w j, h.operand w j, lt));
            made = rw same h.made;
          };
          more = rw same (omega (arith, lower));
          wider = rw same (omega arith);
        }

    pub set-Costs :
        (v : Ref) (i : ℕ) (x : Ref) (l : L)
        → InBounds rs l
        → x < c + frontier l
        → Costs 0 vs rs l (api.set_operand v i x l)
    set-Costs v i x l h lt =
        let same = bounds.frontier-set v i x l in
        let lower =
          weigh-le api (c + frontier l) vs l (api.set_operand v i x l)
            (λ w e. ap creates (sym (bounds.kind-set v i x l w)) ∙ e) in
        record {
          inside = record {
            operand =
                λ w j. rw same (ground (arith, bounds.operand-set v i x l w j, h.operand w j, lt));
            made = rw same h.made;
          };
          more = rw same (omega (arith, lower));
          wider = rw same (omega arith);
        }

    string-Costs :
        (t : Text) (l : L) → InBounds rs l → Costs 1 vs rs l (api.md_string_in_context t l).1
    string-Costs t l h = record {
      inside = record {
        operand =
            λ w j. omega (arith, laws.operand-string t l w j, h.operand w j, bounds.string-ge t l);
        made = made_wider l _ (bounds.string-ge t l) h;
      };
      more = left_more l _ (bounds.kind-string t l) (bounds.string-ge t l) (bounds.string-le t l);
      wider = bounds.string-ge t l;
    }

    node-Costs :
        (es : List Ref) (l : L)
        → InBounds rs l
        → All (λ e. api.metadata_as_value e < c + frontier l) es
        → Costs 1 vs rs l (api.md_node_in_context es l).1
    node-Costs es l h lt =
        let (m, t) = api.md_node_in_context es l in
        let new = api.metadata_as_value m in
        record {
          inside = record {
            operand = λ w j. elim (Bool-cases (w == new)) [
              | inl e ↦
                  let e' : new ≡ w = ground (arith, e) in
                  subst (λ x. api.operand t x j < c + frontier t) e'
                    (elim (bounds.operand-new es l j) [
                      | inl null ↦ omega (arith, null, bounds.node-lt es l)
                      | inr among ↦
                          let old =
                            All-Among (λ r. r < c + frontier l) _ _ (All-map _ _ es lt) among in
                          omega (arith, old, bounds.node-ge es l)
                    ])
              | inr e ↦ omega (
                arith,
                laws.operand-node es l w j (λ x. ground (arith, x, e)),
                h.operand w j,
                bounds.node-ge es l,
              )
            ];
            made = made_wider l t (bounds.node-ge es l) h;
          };
          more = left_more l t (bounds.kind-node es l) (bounds.node-ge es l) (bounds.node-le es l);
          wider = bounds.node-ge es l;
        }

    pub set_name-Costs :
        (v : Ref) (i : ℕ) (t : Text) (l : L)
        → InBounds rs l
        → Costs 1 vs rs l (set_name api v i t l)
    set_name-Costs v i t l h =
        let first = string-Costs t l h in
        Costs-trans first (replace-Costs v i _ _ first.inside (omega (arith, bounds.string-lt t l)))

    pub set_elements-Costs :
        (v : Ref) (es : List Ref) (l : L)
        → InBounds rs l
        → All (λ e. api.metadata_as_value e < c + frontier l) es
        → Costs 1 vs rs l (set_elements api v es l)
    set_elements-Costs v es l h lt =
        let first = node-Costs es l h lt in
        Costs-trans first (
          replace-Costs v elements_operand _ _ first.inside (
            omega (
              arith,
              bounds.node-lt es l,
              laws.metadata_of_value (api.metadata_as_value (api.md_node_in_context es l).0),
            )))
