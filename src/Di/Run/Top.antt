-- ===== src/Di/Run/Top.antt =====
-- The module's globals, aliases and functions, the three lists with which the traversal begins.
use bpf_linker.Prelude.{ℕ, ◌≡◌, refl, subst, ◌∙◌, List, ◌++◌, All, Text}
use bpf_linker.Outcome.{ok}
use bpf_linker.Types.Api.{Ref, Api}
use bpf_linker.Di.Names.{DefaultHasher}
use bpf_linker.Di.Sanitizer.{Sanitizer}
use bpf_linker.Di.Linkage.{fix_subprogram_linkage, Replacements}
use bpf_linker.Di.Node.Keeps.{MetadataKeeps}
use bpf_linker.Di.Visit.{Item, Blocks}
use bpf_linker.Di.Run.{visit_roots}
use bpf_linker.Di.Run.Keeps.{Keeps-visit_roots, fix_subprogram_linkage-Held}

-- The top level of a module that is live is live.
pub record LiveRoots {L : Type 0} (blocks : Blocks L) (IsLive : L → Ref → Type 0) : Type 0 where
  pub live-globals : (s : L) (m : Ref) → IsLive s m → All (IsLive s) (blocks.globals s m)
  pub live-global_aliases :
      (s : L) (m : Ref) → IsLive s m → All (IsLive s) (blocks.global_aliases s m)
  pub live-functions : (s : L) (m : Ref) → IsLive s m → All (IsLive s) (blocks.functions s m)

-- No call of the sanitizer adds a value to the module's top level or takes one away.
pub record TopLaws {L : Type 0} (api : Api L) (blocks : Blocks L) : Type 0 where
  pub keeps-globals :
      (m : Ref) (rs : List Ref) → MetadataKeeps api (λ (l : L). blocks.globals l m ≡ rs)
  pub keeps-global_aliases :
      (m : Ref) (rs : List Ref) → MetadataKeeps api (λ (l : L). blocks.global_aliases l m ≡ rs)
  pub keeps-functions :
      (m : Ref) (rs : List Ref) → MetadataKeeps api (λ (l : L). blocks.functions l m ≡ rs)

-- The three lists as one.
abbrev pub top_level : {L : Type 0} → Blocks L → L → Ref → List Ref
top_level blocks l m = blocks.globals l m ++ (blocks.global_aliases l m ++ blocks.functions l m)

module _ {L : Type 0} (hasher : DefaultHasher) (api : Api L) (blocks : Blocks L)
    (tops : TopLaws api blocks) where
  -- The lists are the same in both states.
  pub record SameTop (m : Ref) (s t : L) : Type 0 where
    pub globals : blocks.globals t m ≡ blocks.globals s m
    pub global_aliases : blocks.global_aliases t m ≡ blocks.global_aliases s m
    pub functions : blocks.functions t m ≡ blocks.functions s m

  pub SameTop-trans : {m : Ref} {s t u : L} → SameTop m s t → SameTop m t u → SameTop m s u
  SameTop-trans p q = record {
    globals = q.globals ∙ p.globals;
    global_aliases = q.global_aliases ∙ p.global_aliases;
    functions = q.functions ∙ p.functions;
  }

  pub top_level_same :
      {m : Ref} {s t : L} → SameTop m s t → top_level blocks t m ≡ top_level blocks s m
  top_level_same h = cc (h.globals, h.global_aliases, h.functions)

  -- What the sanitizer's calls keep, the lists are.
  pub kept-SameTop :
      (m : Ref) (s t : L) → ((P : L → Type 0) → MetadataKeeps api P → P s → P t) → SameTop m s t
  kept-SameTop m s t kept = record {
    globals = kept _ (tops.keeps-globals m (blocks.globals s m)) refl;
    global_aliases = kept _ (tops.keeps-global_aliases m (blocks.global_aliases s m)) refl;
    functions = kept _ (tops.keeps-functions m (blocks.functions s m)) refl;
  }

  pub visit_roots-SameTop :
      (fuel : ℕ) (list : L → Ref → List Ref) (item : Ref → Item) (m : Ref) (s t : Sanitizer L)
      → visit_roots hasher api blocks fuel list item s ≡ (ok tt, t)
      → SameTop m s.llvm t.llvm
  visit_roots-SameTop fuel list item m s t h = kept-SameTop m s.llvm t.llvm λ P k now.
      subst (λ r. P r.1.llvm) h ((Keeps-visit_roots hasher api blocks P k fuel list item).at s now)

  pub fix_subprogram_linkage-SameTop :
      (es : List Text) (m : Ref) (s t : Sanitizer L) (r : Replacements)
      → fix_subprogram_linkage api blocks.functions es s ≡ (ok r, t)
      → SameTop m s.llvm t.llvm
  fix_subprogram_linkage-SameTop es m s t r h = kept-SameTop m s.llvm t.llvm λ P k now.
      subst (λ x. P x.1.llvm) h
        ((fix_subprogram_linkage-Held hasher api blocks P k blocks.functions es).at s now)
