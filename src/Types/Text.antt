-- ===== src/Types/Text.antt =====
-- The names of subprograms as text, and what is relied on of LLVM's calls for them to stay text.
use bpf_linker.Prelude.{
  ℕ, ◌≡◌, ◌≢◌, refl, sym, ap, subst, ◌∙◌, ◌↔◌, ◌⊎◌, inl, inr, Bool-cases, ◌&&◌, none, some, List,
  ◌==◌, if◌then◌else◌, arith, Text,
}
use bpf_linker.Types.Api.{Ref, Api}
use bpf_linker.Types.Ir.{subprogram, from_value_ref, has_nul, replace_name}
use bpf_linker.Types.Di.{type_name_operand, elements_operand, subprogram_name, replace_elements}
use bpf_linker.Types.Laws.{MetadataLaws}
use bpf_linker.Outcome.{◌>>=◌, ◌>>◌}

abbrev pub IsSubprogram : {L : Type 0} → Api L → L → Ref → Type 0
IsSubprogram api l w = from_value_ref api l w ≡ subprogram w

-- No call for a node or a string makes a subprogram or ends one, strings stay, and a subprogram is
-- no string.
pub record TextLaws {L : Type 0} (api : Api L) : Type 0 where
  pub subprogram-replace :
      (v : Ref) (i : ℕ) (m : Ref) (s : L) (w : Ref)
      → IsSubprogram api (api.replace_md_node_operand_with v i m s) w ↔ IsSubprogram api s w
  pub subprogram-set :
      (v : Ref) (i : ℕ) (x : Ref) (s : L) (w : Ref)
      → IsSubprogram api (api.set_operand v i x s) w ↔ IsSubprogram api s w
  pub subprogram-string :
      (t : Text) (s : L) (w : Ref)
      → IsSubprogram api (api.md_string_in_context t s).1 w ↔ IsSubprogram api s w
  pub subprogram-node :
      (es : List Ref) (s : L) (w : Ref)
      → IsSubprogram api (api.md_node_in_context es s).1 w ↔ IsSubprogram api s w
  pub not_subprogram :
      (es : List Ref) (s : L)
      → let (m, s') = api.md_node_in_context es s in ¬ IsSubprogram api s' (api.metadata_as_value m)
  pub not_string : (s : L) (w : Ref) → IsSubprogram api s w → api.md_string s w ≡ none
  pub string-set :
      (v : Ref) (i : ℕ) (x : Ref) (s : L) (w : Ref) (t : Text)
      → api.md_string s w ≡ some t
      → api.md_string (api.set_operand v i x s) w ≡ some t
  pub string-string :
      (x : Text) (s : L) (w : Ref) (t : Text)
      → api.md_string s w ≡ some t
      → api.md_string (api.md_string_in_context x s).1 w ≡ some t
  pub string-node :
      (es : List Ref) (s : L) (w : Ref) (t : Text)
      → api.md_string s w ≡ some t
      → api.md_string (api.md_node_in_context es s).1 w ≡ some t
  pub operand-set :
      (v : Ref) (i : ℕ) (x : Ref) (s : L) (w : Ref) (j : ℕ)
      → api.operand (api.set_operand v i x s) w j
        ≡ (if w == v && j == i then x else api.operand s w j)

module _ {L : Type 0} (api : Api L) where
  -- Null, or a string that is UTF-8.
  abbrev pub TextOrNull : L → Ref → Type 0
  TextOrNull l r = (r ≡ 0) ⊎ ((t : Text) × (api.md_string l r ≡ some t))

  -- Every subprogram has a name that can be read, or none.
  pub record Legible (l : L) : Type 0 where
    pub name : (w : Ref) → IsSubprogram api l w → TextOrNull l (api.operand l w type_name_operand)

  pub subprogram_name-ne-none :
      (l : L) (w : Ref)
      → TextOrNull l (api.operand l w type_name_operand)
      → subprogram_name api l w ≢ none
  subprogram_name-ne-none l w (inl null) e = ground (arith, null, e)
  subprogram_name-ne-none l w (inr (t, text)) e =
      elim (Bool-cases (api.operand l w type_name_operand == 0)) [
        | inl z ↦ let e' = (rw z at e) in cc
        | inr z ↦ let e' = (rw (z, text) at e) in cc
      ]

  module _ (laws : MetadataLaws api) (texts : TextLaws api) where
    Legible-string : (x : Text) (l : L) → Legible l → Legible (api.md_string_in_context x l).1
    Legible-string x l h = record {
      name = λ w is. elim (h.name w ((texts.subprogram-string x l w).0 is)) [
        | inl null ↦ inl (laws.operand-string x l w type_name_operand ∙ null)
        | inr (t, text) ↦ inr (
          t,
          ap (api.md_string (api.md_string_in_context x l).1)
                (laws.operand-string x l w type_name_operand)
              ∙ texts.string-string x l _ t text,
        )
      ];
    }

    -- An operand may be replaced if it is not a subprogram's name, or by text.
    pub Legible-replace :
        (v : Ref) (i : ℕ) (m : Ref) (l : L)
        → (IsSubprogram api l v → i ≡ type_name_operand → TextOrNull l (api.metadata_as_value m))
        → Legible l
        → Legible (api.replace_md_node_operand_with v i m l)
    Legible-replace v i m l k h = record {
      name = λ w is.
          let is' = (texts.subprogram-replace v i m l w).0 is in
          let now = laws.operand-replace v i m l w type_name_operand in
          elim (Bool-cases (w == v && type_name_operand == i)) [
            | inl e ↦
                let same : v ≡ w = ground (arith, e) in
                let name : i ≡ type_name_operand = ground (arith, e) in
                moved v i m l _ (now ∙ (rw e refl))
                  (k (subst (IsSubprogram api l) (sym same) is') name)
            | inr e ↦ moved v i m l _ (now ∙ (rw e refl)) (h.name w is')
          ];
    }
      where
        moved :
            (v : Ref) (i : ℕ) (m : Ref) (l : L) (r : Ref) {r' : Ref}
            → r ≡ r'
            → TextOrNull l r'
            → TextOrNull (api.replace_md_node_operand_with v i m l) r
        moved v i m l r e (inl null) = inl (e ∙ null)
        moved v i m l r e (inr (t, text)) =
            inr (t, laws.md_string-replace v i m l r ∙ (ap (api.md_string l) e ∙ text))

    pub Legible-name :
        (v : Ref) (x : Text) (l : L)
        → Legible l
        → Legible (replace_name api v type_name_operand x l).1
    unfolding replace_name ◌>>=◌ ◌>>◌
    Legible-name v x l h = elim (Bool-cases (has_nul x)) [
      | inl e ↦ rw e h
      | inr e ↦ rw e (
          Legible-replace v type_name_operand _ _ (λ is same. inr (x, laws.md_string-string x l))
            (Legible-string x l h))
    ]

    pub Legible-elements :
        (v node : Ref) (l : L) → Legible l → Legible (replace_elements api v node l)
    Legible-elements v node l =
        Legible-replace v elements_operand (api.value_as_metadata node) l
          (λ is same. absurd (omega (arith, same)))

    pub Legible-node : (es : List Ref) (l : L) → Legible l → Legible (api.md_node_in_context es l).1
    Legible-node es l h = record {
      name = λ w is.
          let (m, l') = api.md_node_in_context es l in
          let other : w ≢ api.metadata_as_value m =
            λ e. texts.not_subprogram es l (subst (IsSubprogram api l') e is) in
          let same = laws.operand-node es l w type_name_operand other in
          elim (h.name w ((texts.subprogram-node es l w).0 is)) [
            | inl null ↦ inl (same ∙ null)
            | inr (t, text) ↦ inr (t, ap (api.md_string l') same ∙ texts.string-node es l _ t text)
          ];
    }

    pub Legible-set :
        (v : Ref) (i : ℕ) (x : Ref) (l : L)
        → (IsSubprogram api l v → i ≢ type_name_operand)
        → Legible l
        → Legible (api.set_operand v i x l)
    Legible-set v i x l other h = record {
      name = λ w is.
          let is' = (texts.subprogram-set v i x l w).0 is in
          let now = texts.operand-set v i x l w type_name_operand in
          elim (Bool-cases (w == v && type_name_operand == i)) [
            | inl e ↦
                let same : w ≡ v = ground (arith, e) in
                absurd (other (subst (IsSubprogram api l) same is') (ground (arith, e)))
            | inr e ↦
                let now' : api.operand (api.set_operand v i x l) w type_name_operand
                    ≡ api.operand l w type_name_operand =
                  now ∙ (rw e refl) in
                elim (h.name w is') [
                  | inl null ↦ inl (now' ∙ null)
                  | inr (t, text) ↦ inr (
                    t,
                    ap (api.md_string (api.set_operand v i x l)) now'
                        ∙ texts.string-set v i x l _ t text,
                  )
                ]
          ];
    }
