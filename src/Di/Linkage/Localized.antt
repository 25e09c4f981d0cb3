-- ===== src/Di/Linkage/Localized.antt =====
-- The replacement of a subprogram by one that is local to its unit.
use bpf_linker.Prelude.{ℕ, ◌≡◌, sym, subst, ◌∙◌, ◌⊎◌, inl, inr, some, List, arith, Text}
use bpf_linker.Outcome.{Outcome, ok, pure, ◌>>=◌, ◌>>◌, >>=-eq-ok}
use bpf_linker.Types.Api.{Ref, Api, FunctionArgs}
use bpf_linker.Di.Sanitizer.{Sanitizer, Stop, reading, changing, calling}
use bpf_linker.Di.Linkage.{create_local, localize, Replacements, fix_function}
use bpf_linker.Outcome.Keeps.{Keeps}
use bpf_linker.Di.Keeps.{Gives, Gives-bind, visit_rules}
use bpf_linker.Di.Linkage.Stable.{Stable, Holds, Keeps-attached, Keeps-fix_function}
use bpf_linker.Di.Linkage.Exported.{SubprogramLaws}

-- What is relied on of the flag that makes a subprogram local to its unit: it is as asked for when
-- the subprogram is made, and stays.
pub record LocalLaws {L : Type 0} (api : Api L) (IsLocal : L → Ref → Type 0) : Type 0 where
  pub local-new :
      (b : Ref) (args : FunctionArgs) (l : L)
      → args.is_local_to_unit ≡ 1
      → let (p, l') = api.di_builder_create_function b args l in IsLocal l' p
  pub local-create :
      (b : Ref) (args : FunctionArgs) (l : L) (p : Ref)
      → IsLocal l p
      → IsLocal (api.di_builder_create_function b args l).1 p
  pub local-finalize :
      (b q : Ref) (l : L) (p : Ref)
      → IsLocal l p
      → IsLocal (api.di_builder_finalize_subprogram b q l) p
  pub local-set : (f q : Ref) (l : L) (p : Ref) → IsLocal l p → IsLocal (api.set_subprogram f q l) p
  pub local-replace :
      (v : Ref) (i : ℕ) (m : Ref) (l : L) (p : Ref)
      → IsLocal l p
      → IsLocal (api.replace_md_node_operand_with v i m l) p
  pub local-node :
      (es : List Ref) (l : L) (p : Ref) → IsLocal l p → IsLocal (api.md_node_in_context es l).1 p

module _ {L : Type 0} (api : Api L)
    (same : (m : Ref) → api.value_as_metadata (api.metadata_as_value m) ≡ m)
    (laws : SubprogramLaws api) (IsLocal : L → Ref → Type 0) (flags : LocalLaws api IsLocal) where
  abbrev GivesLocal : Outcome Stop Ref → L → Type 0
  GivesLocal (ok r) l = IsLocal l (api.value_as_metadata r)
  GivesLocal _ l = Unit

  -- The new subprogram, a value, is local.
  Gives-args :
      (builder : Ref) (args : L → FunctionArgs)
      → ((l : L) → (args l).is_local_to_unit ≡ 1)
      → Gives
          (λ s. Unit)
          (λ r l. IsLocal l (api.value_as_metadata r))
          (reading args >>= λ a.
            calling (api.di_builder_create_function builder a) >>= λ new_program.
            changing (api.di_builder_finalize_subprogram builder new_program)
            >> pure (api.metadata_as_value new_program))
  unfolding reading calling changing ◌>>=◌ ◌>>◌
  Gives-args builder args asked = record {
    at = λ s t r h e.
        let a = args s.llvm in
        let made = api.di_builder_create_function builder a s.llvm in
        (
          tt,
          subst (λ q. GivesLocal q.0 q.1.llvm) e
              (subst (IsLocal (api.di_builder_finalize_subprogram builder made.0 made.1))
                (sym (same made.0))
                (flags.local-finalize builder made.0 made.1 made.0
                  (flags.local-new builder a s.llvm (asked s.llvm)))),
        );
  }

  Gives-create_local :
      (builder sub : Ref)
      → Gives
          (λ s. Unit)
          (λ r l. IsLocal l (api.value_as_metadata r))
          (create_local api builder sub)
  unfolding create_local
  Gives-create_local builder sub = search (Gives-args, Gives-bind, visit_rules) depth 20

  module _ (w : Ref) (name : Text) where
    abbrev pub Named : L → Type 0
    Named l = api.value_name l w ≡ some name

    -- The function has no subprogram or a local one.
    abbrev pub IsFixed : L → Type 0
    IsFixed l = (api.get_subprogram l w ≡ 0) ⊎ IsLocal l (api.get_subprogram l w)

    pub moved :
        (l l' : L)
        → api.get_subprogram l' w ≡ api.get_subprogram l w
        → ((p : Ref) → IsLocal l p → IsLocal l' p)
        → IsFixed l
        → IsFixed l'
    moved l l' e k (inl null) = inl (e ∙ null)
    moved l l' e k (inr local) = inr (subst (IsLocal l') (sym e) (k _ local))

    pub Stable-IsFixed : Stable api IsFixed
    Stable-IsFixed = record {
      of_replace = λ v i m l place.
          moved l _ (laws.subprogram-replace v i m l w) (flags.local-replace v i m l);
      of_node = λ es l. moved l _ (laws.subprogram-node es l w) (flags.local-node es l);
      of_create =
          λ b args l. moved l _ (laws.subprogram-create b args l w) (flags.local-create b args l);
      of_finalize =
          λ b q l. moved l _ (laws.subprogram-finalize b q l w) (flags.local-finalize b q l);
    }

    pub Stable-Named : Stable api Named
    Stable-Named = record {
      of_replace = λ v i m l place h. laws.name-replace v i m l w ∙ h;
      of_node = λ es l h. laws.name-node es l w ∙ h;
      of_create = λ b args l h. laws.name-create b args l w ∙ h;
      of_finalize = λ b q l h. laws.name-finalize b q l w ∙ h;
    }

    pub Keeps-Named :
        (builder f : Ref) (es : List Text) (replace : Replacements)
        → Keeps (Holds api Named Stable-Named) (fix_function api builder es f replace)
    Keeps-Named builder f es replace =
        Keeps-fix_function api Named Stable-Named f (λ q l h. laws.name-set f _ l w ∙ h) builder es
          replace

    -- Where the replacement of its subprogram returns, the function's is local.
    pub localize-IsFixed :
        (builder sub : Ref) (s t : Sanitizer L) (r : Ref)
        → localize api builder w sub s ≡ (ok r, t)
        → IsFixed t.llvm
    unfolding localize changing ◌>>=◌ ◌>>◌
    localize-IsFixed builder sub s t r h =
        let (new_program, s1, e1, rest) = >>=-eq-ok (create_local api builder sub) _ s h in
        let (_, local) = (Gives-create_local builder sub).at s s1 new_program tt e1 in
        let p = api.value_as_metadata new_program in
        let set_there : api.get_subprogram (api.set_subprogram w p s1.llvm) w ≡ p =
          ground (arith, laws.subprogram-set w p s1.llvm w) in
        let made : IsFixed (api.set_subprogram w p s1.llvm) = inr (
          subst (IsLocal (api.set_subprogram w p s1.llvm)) (sym set_there)
            (flags.local-set w p s1.llvm p local)) in
        subst (λ q. IsFixed q.1.llvm) rest
          ((Keeps-attached api IsFixed Stable-IsFixed new_program sub).at
            (record s1 { llvm = api.set_subprogram w p s1.llvm }) made)
