-- ===== src/Di/Linkage/Returns.antt =====
-- `fix_subprogram_linkage` without a panic.
use bpf_linker.Prelude.{
  ℕ, ◌≡◌, ◌≢◌, refl, sym, ap, ◌∙◌, ◌⊎◌, inl, inr, Bool-cases, false, none, some, List, [], ◌∷◌,
  ◌++◌, map, ◌==◌, arith, All, All-mono, All-append, Text,
}
use bpf_linker.Outcome.{ok, ◌>>=◌}
use bpf_linker.Types.Api.{Ref, Api}
use bpf_linker.Types.Laws.{MetadataLaws}
use bpf_linker.Types.Text.{TextLaws, Legible}
use bpf_linker.Di.Sanitizer.{Sanitizer, get, reading}
use bpf_linker.Di.Linkage.{
  exports, localize, insert_found, insert_new, Replacements, fix_subprogram, fix_function,
  fix_functions, fix_subprogram_linkage,
}
use bpf_linker.Di.Linkage.Exported.{SubprogramLaws}
use bpf_linker.Di.Linkage.Extends.{CreateLaws}
use bpf_linker.Di.Linkage.Total.{localize_returns}
use bpf_linker.Di.Node.Legible.{Fit}
use bpf_linker.Di.Linkage.Attached.{
  Attached, Apart, AllApart, IsAttached, localize-Extends, localize-Legible, localize-IsAttached,
}

get-append_none :
    (key : ℕ) (rs : List (ℕ × Ref)) (k : ℕ) (m : Ref)
    → get key rs ≡ none
    → k ≢ key
    → get key (rs ++ (k, m) ∷ []) ≡ none
get-append_none key [] k m h other = ground (arith, other)
get-append_none key ((j, n) ∷ rs) k m h other = elim (Bool-cases (j == key)) [
  | inl e ↦ let h' = (rw e at h) in cc
  | inr e ↦ rw e (get-append_none key rs k m (rw e at h) other)
]

module _ {L : Type 0} (api : Api L) (es : List Text) where
  -- What holds before each round of the loop, for the functions that are left.
  record Ready (left : List Attached) (rs : Replacements) (l : L) : Type 0 where
    fit : Fit api rs l
    attached : All (IsAttached api es l) left
    apart : AllApart left
    unused : All (λ a. (a.program ≡ 0) ⊎ (get (api.metadata_as_value a.program) rs ≡ none)) left

  module _ (laws : MetadataLaws api) (texts : TextLaws api) (creates : CreateLaws api)
      (subprograms : SubprogramLaws api) where
    metadata_as_value-ne : (m n : Ref) → m ≢ n → api.metadata_as_value m ≢ api.metadata_as_value n
    metadata_as_value-ne m n other e =
        other
          (sym (laws.value_of_metadata m) ∙ (ap api.value_as_metadata e ∙ laws.value_of_metadata n))

    Ready-skip :
        {a : Attached} {left : List Attached} {rs : Replacements} {l : L}
        → Ready (a ∷ left) rs l
        → Ready left rs l
    Ready-skip ready = record {
      fit = ready.fit;
      attached = ready.attached.1;
      apart = ready.apart.1;
      unused = ready.unused.1;
    }

    -- One round for a function whose subprogram is replaced.
    fix_subprogram-Ready :
        (builder : Ref) (a : Attached) (left : List Attached) (rs : Replacements) (s : Sanitizer L)
        → Ready (a ∷ left) rs s.llvm
        → exports es a.name ≡ false
        → a.program ≢ 0
        → (r : Replacements) × (t : Sanitizer L) × (fix_subprogram api builder a.function rs
              (some (api.metadata_as_value a.program))
              s
            ≡ (ok r, t))
          × Ready left r t.llvm
    unfolding fix_subprogram insert_new insert_found ◌>>=◌
    fix_subprogram-Ready builder a left rs s ready inner other =
        let sub = api.metadata_as_value a.program in
        let d = ready.attached.0.described inner other in
        let (p, t, e) = localize_returns api builder sub s d a.function in
        let ext =
          localize-Extends api es laws texts creates subprograms builder a.function sub s t p e in
        let unused : get sub rs ≡ none = elim ready.unused.0 [
          | inl null ↦ absurd (other null)
          | inr new ↦ new
        ] in
        (
          rs ++ (sub, api.value_as_metadata p) ∷ [],
          t,
          rw (e, unused) refl,
          record {
            fit = (
              localize-Legible api es laws texts creates subprograms builder a.function sub s t p e
                  ready.fit.0,
              All-append _ rs _ (All-mono _ _ (λ k. ext.subprogram k.0) rs ready.fit.1)
                  (ext.subprogram sub d.is_subprogram, tt),
            );
            attached = attached_kept builder a left s t p e ready.apart.0 ready.attached.1;
            apart = ready.apart.1;
            unused = unused_kept a left rs (api.value_as_metadata p) ready.apart.0 ready.unused.1;
          },
        )
      where
        attached_kept :
            (builder : Ref) (a : Attached) (left : List Attached) (s t : Sanitizer L) (p : Ref)
            → localize api builder a.function (api.metadata_as_value a.program) s ≡ (ok p, t)
            → All (Apart a) left
            → All (IsAttached api es s.llvm) left
            → All (IsAttached api es t.llvm) left
        attached_kept builder a [] s t p e apart att = tt
        attached_kept builder a (b ∷ left) s t p e apart att = (
          localize-IsAttached api es laws texts creates subprograms builder a.function _ s t p e b
              apart.0.0 att.0,
          attached_kept builder a left s t p e apart.1 att.1,
        )

        unused_kept :
            (a : Attached) (left : List Attached) (rs : Replacements) (m : Ref)
            → All (Apart a) left
            → All (λ b. (b.program ≡ 0) ⊎ (get (api.metadata_as_value b.program) rs ≡ none)) left
            → All
                (λ b.
                  (b.program ≡ 0)
                  ⊎ (get
                        (api.metadata_as_value b.program)
                        (rs ++ (api.metadata_as_value a.program, m) ∷ [])
                      ≡ none))
                left
        unused_kept a [] rs m apart h = tt
        unused_kept a (b ∷ left) rs m apart (inl null, h) =
            (inl null, unused_kept a left rs m apart.1 h)
        unused_kept a (b ∷ left) rs m ((f, inl null), apart) (inr new, h) =
            (inl null, unused_kept a left rs m apart h)
        unused_kept a (b ∷ left) rs m ((f, inr other), apart) (inr new, h) = (
          inr (
              get-append_none _ rs _ m new
                (metadata_as_value-ne a.program b.program (λ e. other (sym e)))),
          unused_kept a left rs m apart h,
        )

    fix_function-Ready :
        (builder : Ref) (a : Attached) (left : List Attached) (rs : Replacements) (s : Sanitizer L)
        → Ready (a ∷ left) rs s.llvm
        → (r : Replacements) × (t : Sanitizer L) × (fix_function api builder es a.function rs s
            ≡ (ok r, t))
          × Ready left r t.llvm
    unfolding fix_function fix_subprogram reading ◌>>=◌
    fix_function-Ready builder a left rs s ready =
        let att = ready.attached.0 in
        elim (Bool-cases (exports es a.name)) [
          | inl skip ↦ (rs, s, rw (att.named, skip) refl, Ready-skip ready)
          | inr inner ↦ elim (Bool-cases (a.program == 0)) [
            | inl null ↦ (rs, s, rw (att.named, inner, att.subprogram, null) refl, Ready-skip ready)
            | inr other ↦
                let (r, t, e, ready') =
                  fix_subprogram-Ready builder a left rs s ready inner
                    (λ z. ground (arith, z, other)) in
                (r, t, rw (att.named, inner, att.subprogram, other) e, ready')
          ]
        ]

    fix_functions-Ready :
        (builder : Ref) (left : List Attached) (rs : Replacements) (s : Sanitizer L)
        → Ready left rs s.llvm
        → (r : Replacements) × (t : Sanitizer L) × (fix_functions api builder es
              (map (λ a. a.function) left)
              rs
              s
            ≡ (ok r, t))
          × Fit api r t.llvm
    unfolding fix_functions ◌>>=◌
    fix_functions-Ready builder [] rs s ready = (rs, s, refl, ready.fit)
    fix_functions-Ready builder (a ∷ left) rs s ready =
        let (r, t, e, ready') = fix_function-Ready builder a left rs s ready in
        let (r', t', e', fit) = fix_functions-Ready builder left r t ready' in
        (r', t', rw e e', fit)

    -- Every function of the module is listed, with its name and its subprogram. Where names can be
    -- read, the functions and their subprograms differ, and those that are to be replaced are
    -- described, `fix_subprogram_linkage` returns.
    pub fix_subprogram_linkage_returns :
        (functions : L → Ref → List Ref) (listed : List Attached) (s : Sanitizer L)
        → functions s.llvm s.module_ref ≡ map (λ a. a.function) listed
        → Legible api s.llvm
        → All (IsAttached api es s.llvm) listed
        → AllApart listed
        → (r : Replacements) × (t : Sanitizer L) × (fix_subprogram_linkage api functions es s
            ≡ (ok r, t))
          × Fit api r t.llvm
    unfolding fix_subprogram_linkage
    fix_subprogram_linkage_returns functions listed s same legible att apart = rw same (
        fix_functions-Ready s.builder listed [] s (record {
          fit = (legible, tt);
          attached = att;
          apart = apart;
          unused = All-mono _ _ (λ a h. inr refl) listed att;
        }))
