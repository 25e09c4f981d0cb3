-- ===== src/Di/Node/Legible.antt =====
-- `visit_mdnode` and the names of all subprograms, as text that can be read.
use bpf_linker.Prelude.{ℕ, ◌≡◌, subst, inl, inr, Bool-cases, List, map, All, All-mono, Text}
use bpf_linker.Outcome.{ok, ◌>>=◌, ◌>>◌}
use bpf_linker.Types.Api.{Ref, Api, MetadataKind, di_composite_type, di_derived_type, di_subprogram}
use bpf_linker.Types.Ir.{subprogram, of_kind, from_value_ref, has_nul, replace_name}
use bpf_linker.Types.Di.{type_name_operand, elements_operand}
use bpf_linker.Types.Laws.{MetadataLaws}
use bpf_linker.Types.Text.{
  IsSubprogram, TextLaws, Legible, subprogram_name-ne-none, Legible-name, Legible-elements,
  Legible-node,
}
use bpf_linker.Di.Names.{DefaultHasher}
use bpf_linker.Di.Sanitizer.{Sanitizer}
use bpf_linker.Di.Node.{visit_mdnode}
use bpf_linker.Di.Node.Keeps.{NodeKeeps, Keeps-visit_mdnode}
use bpf_linker.Di.Node.Total.{visit_mdnode_returns}

of_kind-subprogram : (k : MetadataKind) (v w : Ref) → of_kind k v ≡ subprogram w → v ≡ w
of_kind-subprogram di_composite_type v w h = cc
of_kind-subprogram di_derived_type v w h = cc
of_kind-subprogram di_subprogram v w h = cc
of_kind-subprogram _ v w h = cc

module _ {L : Type 0} (api : Api L) where
  -- The names can be read, and what new subprograms are to be put in for are subprograms.
  abbrev pub Fit : List (ℕ × Ref) → L → Type 0
  Fit rs l = Legible api l × All (λ e. IsSubprogram api l e.0) rs

  module _ (laws : MetadataLaws api) (texts : TextLaws api) where
    fit_name :
        (rs : List (ℕ × Ref)) (v : Ref) (x : Text) (l : L)
        → All (λ e. IsSubprogram api l e.0) rs
        → All (λ e. IsSubprogram api (replace_name api v type_name_operand x l).1 e.0) rs
    unfolding replace_name ◌>>=◌ ◌>>◌
    fit_name rs v x l h = elim (Bool-cases (has_nul x)) [
      | inl e ↦ rw e h
      | inr e ↦ rw e (
          All-mono _ _
            (λ k is.
              (texts.subprogram-replace v type_name_operand _ _ k.0).1
                ((texts.subprogram-string x l k.0).1 is))
            rs h)
    ]

    Fit-NodeKeeps : (rs : List (ℕ × Ref)) → NodeKeeps api (Fit rs)
    Fit-NodeKeeps rs = record {
      of_name = λ v x l h. (Legible-name api laws texts v x l h.0, fit_name rs v x l h.1);
      of_elements = λ v node l h. (
        Legible-elements api laws texts v node l h.0,
        All-mono _ _
            (λ k.
              (texts.subprogram-replace v elements_operand (api.value_as_metadata node) l k.0).1)
            rs h.1,
      );
      of_members = λ ms l h. (
        Legible-node api laws texts _ l h.0,
        All-mono _ _ (λ k. (texts.subprogram-node (map api.value_as_metadata ms) l k.0).1) rs h.1,
      );
    }

    module _ (hasher : DefaultHasher) (v : Ref) (s : Sanitizer L)
        (fit : Fit s.replace_operands s.llvm) where
      pub visit_mdnode-Fit :
          let t = (visit_mdnode hasher api v s).1 in Fit t.replace_operands t.llvm
      visit_mdnode-Fit = (Keeps-visit_mdnode hasher api Fit Fit-NodeKeeps v).at s fit

      pub visit_mdnode_ok : (visit_mdnode hasher api v s).0 ≡ ok tt
      visit_mdnode_ok = visit_mdnode_returns hasher api v s λ w kind.
          let same : v ≡ w =
            of_kind-subprogram (api.metadata_kind s.llvm (api.value_as_metadata v)) v w kind in
          let is : IsSubprogram api s.llvm w =
            subst (λ r. from_value_ref api s.llvm r ≡ subprogram w) same kind in
          subprogram_name-ne-none api s.llvm w (fit.0.name w is)
