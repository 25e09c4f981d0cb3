-- ===== src/Di/Linkage/Extends.antt =====
-- What `fix_subprogram_linkage` relies on for subprograms to be described by text, and what of a
-- subprogram's description stays while others are replaced.
use bpf_linker.Prelude.{
  ℕ, ◌≡◌, ◌≢◌, ◌<◌, ◌≤◌, refl, sym, ap, subst, ◌∙◌, ◌⊎◌, inl, inr, some, List, arith, Text,
}
use bpf_linker.Types.Api.{Ref, Api, FunctionArgs}
use bpf_linker.Types.Di.{type_name_operand, linkage_name_operand, scope_operand}
use bpf_linker.Types.Laws.{MetadataLaws}
use bpf_linker.Types.Text.{
  IsSubprogram, TextLaws, TextOrNull, Legible, Legible-replace, Legible-node,
}
use bpf_linker.Di.Linkage.Stable.{Stable}

module _ {L : Type 0} (api : Api L) where
  -- Subprograms stay, with their operands up to the type, and so does text.
  pub record Extends (s t : L) : Type 0 where
    pub subprogram : (w : Ref) → IsSubprogram api s w → IsSubprogram api t w
    pub operand :
        (w : Ref) (j : ℕ) → IsSubprogram api s w → j < 5 → api.operand t w j ≡ api.operand s w j
    pub string : (w : Ref) (x : Text) → api.md_string s w ≡ some x → api.md_string t w ≡ some x

  -- What is relied on of the builder of debug information: it makes one subprogram, whose name can
  -- be read, and leaves the others alone.
  pub record CreateLaws : Type 0 where
    pub extends-create :
        (b : Ref) (args : FunctionArgs) (s : L)
        → Extends s (api.di_builder_create_function b args s).1
    pub extends-finalize :
        (b p : Ref) (s : L) → Extends s (api.di_builder_finalize_subprogram b p s)
    pub extends-subprogram : (f p : Ref) (s : L) → Extends s (api.set_subprogram f p s)
    pub created :
        (b : Ref) (args : FunctionArgs) (s : L) (w : Ref)
        → let (p, t) = api.di_builder_create_function b args s in
          IsSubprogram api t w
          → IsSubprogram api s w ⊎ TextOrNull api t (api.operand t w type_name_operand)
    pub finalized :
        (b p : Ref) (s : L) (w : Ref)
        → IsSubprogram api (api.di_builder_finalize_subprogram b p s) w
        → IsSubprogram api s w
    pub attached :
        (f p : Ref) (s : L) (w : Ref)
        → IsSubprogram api (api.set_subprogram f p s) w
        → IsSubprogram api s w

  -- What `create_local` reads of a subprogram: a name, a scope, and a linkage name if there is one.
  pub record Described (l : L) (w : Ref) : Type 0 where
    pub is_subprogram : IsSubprogram api l w
    pub named : api.operand l w type_name_operand ≢ 0
    pub name : (t : Text) × (api.md_string l (api.operand l w type_name_operand) ≡ some t)
    pub linkage : TextOrNull api l (api.operand l w linkage_name_operand)
    pub scoped : api.operand l w scope_operand ≢ 0

  pub Extends-refl : (s : L) → Extends s s
  Extends-refl s = record { subprogram = λ w h. h; operand = λ w j h lt. refl; string = λ w x h. h }

  Extends-trans : {s t u : L} → Extends s t → Extends t u → Extends s u
  Extends-trans p q = record {
    subprogram = λ w h. q.subprogram w (p.subprogram w h);
    operand = λ w j h lt. q.operand w j (p.subprogram w h) lt ∙ p.operand w j h lt;
    string = λ w x h. q.string w x (p.string w x h);
  }

  TextOrNull-Extends :
      {s t : L} (r : Ref) {r' : Ref}
      → Extends s t
      → r' ≡ r
      → TextOrNull api s r
      → TextOrNull api t r'
  TextOrNull-Extends r ext e (inl null) = inl (e ∙ null)
  TextOrNull-Extends {t = t} r ext e (inr (x, text)) =
      inr (x, ap (api.md_string t) e ∙ ext.string r x text)

  pub Described-Extends : {s t : L} {w : Ref} → Extends s t → Described s w → Described t w
  Described-Extends {s} {t} {w} ext d =
      let same = λ (j : ℕ) (lt : j < 5). ext.operand w j d.is_subprogram lt in
      record {
        is_subprogram = ext.subprogram w d.is_subprogram;
        named = λ e. d.named (sym (same type_name_operand (omega arith)) ∙ e);
        name = (
          d.name.0,
          ap (api.md_string t) (same type_name_operand (omega arith)) ∙ ext.string _ _ d.name.1,
        );
        linkage = TextOrNull-Extends _ ext (same linkage_name_operand (omega arith)) d.linkage;
        scoped = λ e. d.scoped (sym (same scope_operand (omega arith)) ∙ e);
      }

  -- Where subprograms come from elsewhere with their names, names can still be read.
  Legible-Extends :
      {s t : L}
      → Extends s t
      → ((w : Ref)
          → IsSubprogram api t w
          → IsSubprogram api s w ⊎ TextOrNull api t (api.operand t w type_name_operand))
      → Legible api s
      → Legible api t
  Legible-Extends ext old h = record {
    name = λ w is. elim (old w is) [
      | inl before ↦
          TextOrNull-Extends _ ext (ext.operand w type_name_operand before (omega arith))
            (h.name w before)
      | inr text ↦ text
    ];
  }

  module _ (laws : MetadataLaws api) (texts : TextLaws api) (creates : CreateLaws) where
    Extends-replace :
        (v : Ref) (i : ℕ) (m : Ref) (s : L)
        → 5 ≤ i
        → Extends s (api.replace_md_node_operand_with v i m s)
    Extends-replace v i m s place = record {
      subprogram = λ w h. (texts.subprogram-replace v i m s w).1 h;
      operand = λ w j h lt. ground (arith, laws.operand-replace v i m s w j, place, lt);
      string = λ w x h. laws.md_string-replace v i m s w ∙ h;
    }

    Extends-node : (es : List Ref) (s : L) → Extends s (api.md_node_in_context es s).1
    Extends-node es s =
        let (m, t) = api.md_node_in_context es s in
        record {
          subprogram = λ w h. (texts.subprogram-node es s w).1 h;
          operand = λ w j h lt. laws.operand-node es s w j λ e.
              texts.not_subprogram es s
                (subst (IsSubprogram api t) e ((texts.subprogram-node es s w).1 h));
          string = texts.string-node es s;
        }

    pub Stable-Extends : (s : L) → Stable api (Extends s)
    Stable-Extends s = record {
      of_replace = λ v i m l place h. Extends-trans h (Extends-replace v i m l place);
      of_node = λ es l h. Extends-trans h (Extends-node es l);
      of_create = λ b args l h. Extends-trans h (creates.extends-create b args l);
      of_finalize = λ b p l h. Extends-trans h (creates.extends-finalize b p l);
    }

    pub Stable-Legible : Stable api (Legible api)
    Stable-Legible = record {
      of_replace = λ v i m l place.
          Legible-replace api laws texts v i m l (λ is same. absurd (omega (arith, same, place)));
      of_node = Legible-node api laws texts;
      of_create =
          λ b args l. Legible-Extends (creates.extends-create b args l) (creates.created b args l);
      of_finalize = λ b p l.
          Legible-Extends (creates.extends-finalize b p l)
            (λ w is. inl (creates.finalized b p l w is));
    }

    pub set-Legible : (f p : Ref) (l : L) → Legible api l → Legible api (api.set_subprogram f p l)
    set-Legible f p l =
        Legible-Extends (creates.extends-subprogram f p l)
          (λ w is. inl (creates.attached f p l w is))

    pub set-Extends :
        (s : L) (f p : Ref) (l : L) → Extends s l → Extends s (api.set_subprogram f p l)
    set-Extends s f p l h = Extends-trans h (creates.extends-subprogram f p l)
