-- ===== src/Di/Visit/Evolves.antt =====
-- A visited value from one state of the traversal to a later one.
use bpf_linker.Prelude.{
  ℕ, ◌≡◌, refl, sym, ap, subst, ◌∙◌, ◌⊎◌, inl, inr, Bool-cases, some, List, [], ◌∷◌, arith, ◌==◌,
  All, Text,
}
use bpf_linker.Types.Api.{Ref, Api}
use bpf_linker.Types.Ir.{new, operands, metadata_entries, params}
use bpf_linker.Types.Laws.{range_map_congr}
use bpf_linker.Types.Di.{type_name_operand}
use bpf_linker.Types.Live.{NullOr, SameShape, SameShape-refl, SameShape-trans}
use bpf_linker.Di.Sanitizer.{get}
use bpf_linker.Di.Node.Named.{NameIs, HasKernelName}

module _ {L : Type 0} (api : Api L) (instructions : L → Ref → List Ref) where
  -- One of the new subprograms, as a value.
  abbrev pub IsReplacement : List (ℕ × Ref) → Ref → Type 0
  IsReplacement [] r = ⊥
  IsReplacement ((key, m) ∷ rs) r = (r ≡ api.metadata_as_value m) ⊎ IsReplacement rs r

  -- What the map has for a key is one of them, and has what all of them have.
  pub get-IsReplacement :
      (P : Ref → Type 0) (key : ℕ) (rs : List (ℕ × Ref)) (m : Ref)
      → All (λ e. P (api.metadata_as_value e.1)) rs
      → get key rs ≡ some m
      → IsReplacement rs (api.metadata_as_value m) × P (api.metadata_as_value m)
  get-IsReplacement P key [] m all h = cc
  get-IsReplacement P key ((k, n) ∷ rs) m all h = elim (Bool-cases (k == key)) [
    | inl e ↦
        let e' : n ≡ m = ground (arith, e, h) in
        (inl (ap api.metadata_as_value (sym e')), subst (λ r. P (api.metadata_as_value r)) e' all.0)
    | inr e ↦
        let (found, p) = get-IsReplacement P key rs m all.1 (ground (arith, e, h)) in (inr found, p)
  ]

  -- From one state to a later one a visited value keeps its parts; an operand of it is as it was, or
  -- is a new subprogram.
  pub record Evolves (rs : List (ℕ × Ref)) (s t : L) (v : Ref) : Type 0 where
    pub shape : SameShape api instructions s t v
    pub operand :
        (j : ℕ) → (api.operand t v j ≡ api.operand s v j) ⊎ IsReplacement rs (api.operand t v j)

  pub Evolves-refl : (rs : List (ℕ × Ref)) (s : L) (v : Ref) → Evolves rs s s v
  Evolves-refl rs s v = record { shape = SameShape-refl s v; operand = λ j. inl refl }

  pub Evolves-trans :
      {rs : List (ℕ × Ref)} {s t u : L} {v : Ref}
      → Evolves rs s t v
      → Evolves rs t u v
      → Evolves rs s u v
  Evolves-trans {rs} {s} {t} {u} {v} p q = record {
    shape = SameShape-trans p.shape q.shape;
    operand = λ j. elim (q.operand j) [
      | inr new_program ↦ inr new_program
      | inl e ↦ elim (p.operand j) [
        | inl e' ↦ inl (e ∙ e')
        | inr new_program ↦ inr (subst (IsReplacement rs) (sym e) new_program)
      ]
    ];
  }

  -- A value's kind and the parts that follow from it.
  module _ (s t : L) (v : Ref) (h : SameShape api instructions s t v) where
    pub new_same : new api t v ≡ new api s v
    new_same = rw (h.md_node, h.function) refl

    pub operands_same : operands api t (new api t v) ≡ operands api s (new api s v)
    operands_same = elim (Bool-cases (api.is_a_md_node s v)) [
      | inl e ↦ rw (h.md_node, e) (rw h.count refl)
      | inr e ↦ elim (Bool-cases (api.is_a_function s v)) [
        | inl f ↦ rw (h.md_node, e, h.function, f) (rw h.count refl)
        | inr f ↦ rw (h.md_node, e, h.function, f) (rw (h.user, h.count) refl)
      ]
    ]

    pub entries_same : metadata_entries api t (new api t v) ≡ metadata_entries api s (new api s v)
    entries_same = elim (Bool-cases (api.is_a_md_node s v)) [
      | inl e ↦ rw (h.md_node, e) (rw (h.global_object, h.is_instruction, h.entries) refl)
      | inr e ↦ elim (Bool-cases (api.is_a_function s v)) [
        | inl f ↦
            rw (h.md_node, e, h.function, f)
              (rw (h.global_object, h.is_instruction, h.entries) refl)
        | inr f ↦
            rw (h.md_node, e, h.function, f)
              (rw (h.global_object, h.is_instruction, h.entries) refl)
      ]
    ]

    pub params_same : params api t v ≡ params api s v
    params_same = rw h.param_count (range_map_congr _ _ h.param 0 _)

  -- A name stays as it is, or a new subprogram takes its place.
  module _ (rs : List (ℕ × Ref)) (s t : L) (v : Ref) (IsLive : L → Ref → Type 0)
      (name : NullOr (IsLive s) (api.operand s v type_name_operand))
      (shapes : (w : Ref) → IsLive s w → SameShape api instructions s t w)
      (evolves : Evolves rs s t v) where
    NameIs-Evolves :
        (P : Text → Type 0)
        → NameIs api (IsReplacement rs) s v P
        → NameIs api (IsReplacement rs) t v P
    NameIs-Evolves P h = elim (evolves.operand type_name_operand) [
      | inr new_program ↦ inl (inr new_program)
      | inl e ↦ elim h [
        | inl other ↦ inl (subst (NullOr (IsReplacement rs)) (sym e) other)
        | inr (n, text, accepted) ↦ elim name [
          | inl null ↦ inl (inl (e ∙ null))
          | inr alive ↦ inr (n, ap (api.md_string t) e ∙ ((shapes _ alive).text ∙ text), accepted)
        ]
      ]
    ]

    pub HasKernelName-Evolves :
        HasKernelName api (IsReplacement rs) s v → HasKernelName api (IsReplacement rs) t v
    HasKernelName-Evolves h =
        let shape = evolves.shape in
        record {
          pointer = λ kind pointer.
              NameIs-Evolves _
                (h.pointer (sym shape.metadata ∙ kind) (sym shape.tag_same ∙ pointer));
          structure = λ kind structure defined. NameIs-Evolves _ (
              h.structure (sym shape.metadata ∙ kind) (sym shape.tag_same ∙ structure)
                (λ e. defined (shape.flags_same ∙ e)));
          program = λ kind. NameIs-Evolves _ (h.program (sym shape.metadata ∙ kind));
        }
