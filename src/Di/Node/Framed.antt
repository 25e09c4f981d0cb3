-- ===== src/Di/Node/Framed.antt =====
-- The writes of `visit_mdnode` and the values other than the node.
use bpf_linker.Prelude.{
  subst, sym, All, ℕ, ◌≡◌, refl, ◌∙◌, inl, inr, Bool-cases, true, false, List, [], ◌∷◌, map, arith,
  ◌==◌, Text,
}
use bpf_linker.Outcome.{◌>>=◌, ◌>>◌}
use bpf_linker.Types.Api.{Ref, Api}
use bpf_linker.Types.Ir.{has_nul, replace_name}
use bpf_linker.Types.Di.{elements_operand, elements}
use bpf_linker.Types.Laws.{MetadataLaws}
use bpf_linker.Types.Live.{
  SameShape, LiveLaws, NullOr, All-range_map, SameShape-refl, SameShape-trans,
}
use bpf_linker.Di.Scan.Laws.{OfField, OfField-of_kind}
use bpf_linker.Di.Names.{DefaultHasher}

module _ {L : Type 0} (hasher : DefaultHasher) (api : Api L) (instructions : L → Ref → List Ref)
    (IsLive : L → Ref → Type 0) (laws : MetadataLaws api)
    (live : LiveLaws api instructions IsLive) where
  -- A value is still live and has the parts that it had, and its operands too if it is not `v`.
  pub record Framed (v : Ref) (s t : L) (w : Ref) : Type 0 where
    pub self : IsLive t v
    pub alive : IsLive t w
    pub shape : SameShape api instructions s t w
    pub operands : (w == v) ≡ false → (j : ℕ) → api.operand t w j ≡ api.operand s w j

  pub Framed-refl : (v : Ref) (s : L) (w : Ref) → IsLive s v → IsLive s w → Framed v s s w
  Framed-refl v s w k h = record {
    self = k;
    alive = h;
    shape = SameShape-refl s w;
    operands = λ other j. refl;
  }

  module _ (v : Ref) (s : L) (w : Ref) where
    pub Framed-replace :
        (i : ℕ) (m : Ref) (t : L)
        → NullOr (IsLive t) (api.metadata_as_value m)
        → Framed v s t w
        → Framed v s (api.replace_md_node_operand_with v i m t) w
    Framed-replace i m t k h = record {
      self = live.live-replace v i m t v k h.self;
      alive = live.live-replace v i m t w k h.alive;
      shape = SameShape-trans h.shape (live.shape-replace v i m t w h.alive);
      operands = λ other j. ground (arith, laws.operand-replace v i m t w j, h.operands other j);
    }

    Framed-string :
        (x : Text) (t : L) → Framed v s t w → Framed v s (api.md_string_in_context x t).1 w
    Framed-string x t h = record {
      self = live.live-string x t v h.self;
      alive = live.live-string x t w h.alive;
      shape = SameShape-trans h.shape (live.shape-string x t w h.alive);
      operands = λ other j. laws.operand-string x t w j ∙ h.operands other j;
    }

    pub Framed-node :
        (es : List Ref) (t : L)
        → All (λ e. NullOr (IsLive t) (api.metadata_as_value e)) es
        → Framed v s t w
        → Framed v s (api.md_node_in_context es t).1 w
    Framed-node es t k h = record {
      self = live.live-node es t v k h.self;
      alive = live.live-node es t w k h.alive;
      shape = SameShape-trans h.shape (live.shape-node es t w h.alive);
      operands = λ other j. live.operand-node_live es t w j h.alive ∙ h.operands other j;
    }

    pub Framed-replace_name :
        (i : ℕ) (x : Text) (t : L) → Framed v s t w → Framed v s (replace_name api v i x t).1 w
    unfolding replace_name ◌>>=◌ ◌>>◌
    Framed-replace_name i x t h = elim (Bool-cases (has_nul x)) [
      | inl e ↦ rw e h
      | inr e ↦
          rw e
            (Framed-replace i _ _ (inr (live.live-string_new x t v h.self)) (Framed-string x t h))
    ]

    -- Live values make live metadata.
    pub live_metadata :
        (ms : List Ref) (t : L)
        → All (NullOr (IsLive t)) ms
        → All (λ e. NullOr (IsLive t) (api.metadata_as_value e)) (map api.value_as_metadata ms)
    live_metadata [] t h = tt
    live_metadata (m ∷ ms) t h =
        (subst (NullOr (IsLive t)) (sym (laws.metadata_of_value m)) h.0, live_metadata ms t h.1)

    pub elements-OfField :
        (t : L) → IsLive t v → All (OfField (NullOr (IsLive t))) (elements api t v)
    elements-OfField t alive =
        let es = api.operand t v elements_operand in
        elim (live.live-operand t v elements_operand alive) [
          | inl null ↦ let e : (es == 0) ≡ true = ground arith in rw e tt
          | inr found ↦ All-range_map (OfField (NullOr (IsLive t))) _ 0 _ λ j low high.
              OfField-of_kind (NullOr (IsLive t))
                (api.metadata_kind t (api.value_as_metadata (api.operand t es j))) _
                (live.live-operand t es j found)
        ]
