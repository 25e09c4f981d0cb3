-- ===== src/Di/Linkage/Attached.antt =====
-- The functions with their names and subprograms, and what the replacement of one subprogram keeps.
use bpf_linker.Prelude.{
  ◌≡◌, ◌≢◌, subst, ◌∙◌, ◌⊎◌, false, some, List, [], ◌∷◌, ◌==◌, arith, All, Text,
}
use bpf_linker.Outcome.{ok}
use bpf_linker.Types.Api.{Ref, Api}
use bpf_linker.Types.Laws.{MetadataLaws}
use bpf_linker.Types.Text.{TextLaws, Legible}
use bpf_linker.Di.Sanitizer.{Sanitizer}
use bpf_linker.Di.Linkage.{exports, localize}
use bpf_linker.Di.Linkage.Stable.{Stable, Keeps-localize}
use bpf_linker.Di.Linkage.Exported.{SubprogramLaws, Has, Stable-Has}
use bpf_linker.Di.Linkage.Extends.{
  Extends, Extends-refl, CreateLaws, Described, Described-Extends, Stable-Extends, Stable-Legible,
  set-Legible, set-Extends,
}

-- A function of the module, with its name and its subprogram or null.
pub record Attached : Type 0 where
  pub function : Ref
  pub name : Text
  pub program : Ref

-- Two functions are different ones, and do not share a subprogram.
abbrev pub Apart : Attached → Attached → Type 0
Apart a b = ((b.function == a.function) ≡ false) × ((b.program ≡ 0) ⊎ (b.program ≢ a.program))

abbrev pub AllApart : List Attached → Type 0
AllApart [] = Unit
AllApart (a ∷ rest) = All (Apart a) rest × AllApart rest

module _ {L : Type 0} (api : Api L) (es : List Text) where
  -- The function is as listed, and its subprogram is described if it is to be replaced.
  pub record IsAttached (l : L) (a : Attached) : Type 0 where
    pub named : api.value_name l a.function ≡ some a.name
    pub subprogram : api.get_subprogram l a.function ≡ a.program
    pub described :
        exports es a.name ≡ false
        → a.program ≢ 0
        → Described api l (api.metadata_as_value a.program)

  module _ (laws : MetadataLaws api) (texts : TextLaws api) (creates : CreateLaws api)
      (subprograms : SubprogramLaws api) where
    -- What one replacement keeps.
    module _ (builder f sub : Ref) (s t : Sanitizer L) (r : Ref)
        (h : localize api builder f sub s ≡ (ok r, t)) where
      kept :
          (P : L → Type 0) (stable : Stable api P)
          → ((p : Ref) (l : L) → P l → P (api.set_subprogram f p l))
          → P s.llvm
          → P t.llvm
      kept P stable of_set now =
          subst (λ x. P x.1.llvm) h
            ((Keeps-localize api P stable f (λ p. of_set (api.value_as_metadata p)) builder sub).at
              s now)

      pub localize-Extends : Extends api s.llvm t.llvm
      localize-Extends =
          kept (Extends api s.llvm) (Stable-Extends api laws texts creates s.llvm)
            (set-Extends api laws texts creates s.llvm f) (Extends-refl api s.llvm)

      pub localize-Legible : Legible api s.llvm → Legible api t.llvm
      localize-Legible =
          kept (Legible api) (Stable-Legible api laws texts creates)
            (set-Legible api laws texts creates f)

      pub localize-IsAttached :
          (b : Attached) → (b.function == f) ≡ false → IsAttached s.llvm b → IsAttached t.llvm b
      localize-IsAttached b other att =
          let P = Has api subprograms b.function b.name b.program in
          let (named, subprogram) =
            kept P (Stable-Has api subprograms b.function b.name b.program)
              (λ p l now. (
                subprograms.name-set f p l b.function ∙ now.0,
                ground (arith, subprograms.subprogram-set f p l b.function, now.1, other),
              ))
              (att.named, att.subprogram) in
          record {
            named = named;
            subprogram = subprogram;
            described = λ e n. Described-Extends api localize-Extends (att.described e n);
          }
