-- ===== src/Di/Linkage/Exported.antt =====
-- `fix_subprogram_linkage` and the functions that are exported.
use bpf_linker.Prelude.{
  ℕ, ◌≡◌, refl, sym, subst, ◌∙◌, inl, inr, Bool-cases, true, false, some, List, [], ◌∷◌, arith,
  ◌==◌, if◌then◌else◌, Text,
}
use bpf_linker.Outcome.{ok, ◌>>=◌}
use bpf_linker.Types.Api.{Ref, Api, FunctionArgs}
use bpf_linker.Types.Ir.{set_function_subprogram}
use bpf_linker.Di.Sanitizer.{Sanitizer, reading}
use bpf_linker.Di.Linkage.{
  exports, Replacements, fix_function, fix_functions, fix_subprogram_linkage,
}
use bpf_linker.Di.Linkage.Stable.{Stable, Holds, Keeps-fix_function}
use bpf_linker.Outcome.Keeps.{Keeps, Keeps-bind}
use bpf_linker.Di.Keeps.{visit_rules}

-- What is relied on: the calls for debug information leave the names of values alone, and the
-- subprograms of functions but for the one that is set.
pub record SubprogramLaws {L : Type 0} (api : Api L) : Type 0 where
  pub name-set :
      (f p : Ref) (l : L) (w : Ref)
      → api.value_name (api.set_subprogram f p l) w ≡ api.value_name l w
  pub name-replace :
      (v : Ref) (i : ℕ) (m : Ref) (l : L) (w : Ref)
      → api.value_name (api.replace_md_node_operand_with v i m l) w ≡ api.value_name l w
  pub name-node :
      (es : List Ref) (l : L) (w : Ref)
      → api.value_name (api.md_node_in_context es l).1 w ≡ api.value_name l w
  pub name-create :
      (b : Ref) (args : FunctionArgs) (l : L) (w : Ref)
      → api.value_name (api.di_builder_create_function b args l).1 w ≡ api.value_name l w
  pub name-finalize :
      (b p : Ref) (l : L) (w : Ref)
      → api.value_name (api.di_builder_finalize_subprogram b p l) w ≡ api.value_name l w
  pub subprogram-set :
      (f p : Ref) (l : L) (w : Ref)
      → api.get_subprogram (api.set_subprogram f p l) w
        ≡ (if w == f then p else api.get_subprogram l w)
  pub subprogram-replace :
      (v : Ref) (i : ℕ) (m : Ref) (l : L) (w : Ref)
      → api.get_subprogram (api.replace_md_node_operand_with v i m l) w ≡ api.get_subprogram l w
  pub subprogram-node :
      (es : List Ref) (l : L) (w : Ref)
      → api.get_subprogram (api.md_node_in_context es l).1 w ≡ api.get_subprogram l w
  pub subprogram-create :
      (b : Ref) (args : FunctionArgs) (l : L) (w : Ref)
      → api.get_subprogram (api.di_builder_create_function b args l).1 w ≡ api.get_subprogram l w
  pub subprogram-finalize :
      (b p : Ref) (l : L) (w : Ref)
      → api.get_subprogram (api.di_builder_finalize_subprogram b p l) w ≡ api.get_subprogram l w

module _ {L : Type 0} (api : Api L) (laws : SubprogramLaws api) (w : Ref) (name : Text)
    (p : Ref) where
  -- The function has this name and this subprogram.
  abbrev pub Has : L → Type 0
  Has l = (api.value_name l w ≡ some name) × (api.get_subprogram l w ≡ p)

  pub Stable-Has : Stable api Has
  Stable-Has = record {
    of_replace = λ v i m l place h.
        (laws.name-replace v i m l w ∙ h.0, laws.subprogram-replace v i m l w ∙ h.1);
    of_node = λ es l h. (laws.name-node es l w ∙ h.0, laws.subprogram-node es l w ∙ h.1);
    of_create =
        λ b args l h. (laws.name-create b args l w ∙ h.0, laws.subprogram-create b args l w ∙ h.1);
    of_finalize =
        λ b q l h. (laws.name-finalize b q l w ∙ h.0, laws.subprogram-finalize b q l w ∙ h.1);
  }

  pub Has-set :
      (f q : Ref) → (w == f) ≡ false → (l : L) → Has l → Has (set_function_subprogram api f q l)
  Has-set f q e l h = (
    laws.name-set f _ l w ∙ h.0,
    ground (arith, laws.subprogram-set f (api.value_as_metadata q) l w, h.1),
  )

  module _ (export_symbols : List Text) (exported : exports export_symbols name ≡ true) where
    -- The function itself is skipped.
    fix_function_skip :
        (builder : Ref) (replace : Replacements) (s : Sanitizer L)
        → Has s.llvm
        → fix_function api builder export_symbols w replace s ≡ (ok replace, s)
    unfolding fix_function reading ◌>>=◌
    fix_function_skip builder replace s h = rw (h.0, exported) refl

    Keeps-one :
        (builder f : Ref) (replace : Replacements)
        → Keeps (Holds api Has Stable-Has) (fix_function api builder export_symbols f replace)
    Keeps-one builder f replace = elim (Bool-cases (w == f)) [
      | inl e ↦ record {
        at = λ s h.
            let same : w ≡ f = ground arith in
            subst (λ g. Has (fix_function api builder export_symbols g replace s).1.llvm) same
              (subst (λ r. Has r.1.llvm) (sym (fix_function_skip builder replace s h)) h);
      }
      | inr e ↦
          Keeps-fix_function api Has Stable-Has f (λ q. Has-set f q e) builder export_symbols
            replace
    ]

    Keeps-fix_functions :
        (builder : Ref) (fs : List Ref) (replace : Replacements)
        → Keeps (Holds api Has Stable-Has) (fix_functions api builder export_symbols fs replace)
    unfolding fix_functions
    Keeps-fix_functions builder [] replace = search visit_rules
    Keeps-fix_functions builder (f ∷ fs) replace =
        Keeps-bind _ _ (Keeps-one builder f replace) (Keeps-fix_functions builder fs)

    -- A function whose name is exported has after `fix_subprogram_linkage` the subprogram that it
    -- had before, however the pass over the functions ends.
    pub fix_subprogram_linkage_exported :
        (functions : L → Ref → List Ref) (s : Sanitizer L)
        → api.value_name s.llvm w ≡ some name
        → api.get_subprogram s.llvm w ≡ p
        → api.get_subprogram (fix_subprogram_linkage api functions export_symbols s).1.llvm w ≡ p
    unfolding fix_subprogram_linkage
    fix_subprogram_linkage_exported functions s named attached =
        ((Keeps-fix_functions s.builder (functions s.llvm s.module_ref) []).at s
          (named, attached)).1
