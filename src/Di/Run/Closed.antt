-- ===== src/Di/Run/Closed.antt =====
-- The three loops over the module's top level, taken together: what they leave unvisited.
use bpf_linker.Prelude.{
  Text, ℕ, ◌≡◌, refl, sym, ap, subst, ◌∙◌, inl, inr, true, false, List, [], map, All, All-append,
  All-mono,
}
use bpf_linker.Outcome.{ok, ◌>>=◌, ◌>>◌, >>=-eq-ok}
use bpf_linker.Types.Api.{Ref, Api}
use bpf_linker.Types.Laws.{MetadataLaws}
use bpf_linker.Types.Live.{LiveLaws}
use bpf_linker.Di.Names.{DefaultHasher}
use bpf_linker.Di.Sanitizer.{Sanitizer, new, contains, reading}
use bpf_linker.Di.Visit.{
  Item, global_variable, global_alias, function_item, value_ref, is_operand, Blocks, visit_all,
  visit_item,
}
use bpf_linker.Di.Visit.Grows.{Visited}
use bpf_linker.Di.Visit.Explores.{Explored, Named, Step-trans}
use bpf_linker.Di.Visit.Loops.{Steps, Sound, visit_refs-Steps}
use bpf_linker.Di.Visit.Closed.{visit_item-Visits}
use bpf_linker.Di.Linkage.{fix_subprogram_linkage}
use bpf_linker.Di.Linkage.Quiet.{Quiet-fix_subprogram_linkage}
use bpf_linker.Di.Linkage.Live.{BuilderLaws}
use bpf_linker.Di.Linkage.Fixed.{fix_subprogram_linkage-Fixed}
use bpf_linker.Di.Run.{set_replacements, module_of, dispose, visit_roots, visit_module, run}
use bpf_linker.Di.Run.Marks.{visit_roots-visits}
use bpf_linker.Di.Run.Top.{
  LiveRoots, TopLaws, top_level, SameTop-trans, top_level_same, kept-SameTop, visit_roots-SameTop,
  fix_subprogram_linkage-SameTop,
}

module _ {L : Type 0} (hasher : DefaultHasher) (api : Api L) (blocks : Blocks L) where
  -- The loop is over the list that the state has at first.
  visit_roots_lem :
      (fuel : ℕ) (list : L → Ref → List Ref) (item : Ref → Item) (s t : Sanitizer L)
      → visit_roots hasher api blocks fuel list item s ≡ (ok tt, t)
      → visit_all hasher api blocks
          (visit_item hasher api blocks fuel)
          (map item (list s.llvm s.module_ref))
          s
        ≡ (ok tt, t)
  unfolding visit_roots module_of reading ◌>>=◌
  visit_roots_lem fuel list item s t h = h

module _ {L : Type 0} (hasher : DefaultHasher) (api : Api L) (blocks : Blocks L)
    (IsLive : L → Ref → Type 0) (laws : MetadataLaws api)
    (live : LiveLaws api blocks.instructions IsLive) (roots : LiveRoots blocks IsLive) where
  -- One of the loops goes through all that its list leads to.
  visit_roots-Steps :
      (fuel : ℕ) (list : L → Ref → List Ref) (item : Ref → Item) (s t : Sanitizer L)
      → ((l : L) (m : Ref) → IsLive l m → All (IsLive l) (list l m))
      → ((r : Ref) → value_ref (item r) ≡ r)
      → ((r : Ref) → is_operand (item r) ≡ false)
      → Sound hasher api blocks IsLive live s
      → IsLive s.llvm s.module_ref
      → visit_roots hasher api blocks fuel list item s ≡ (ok tt, t)
      → Steps hasher api blocks IsLive live s t
        × IsLive t.llvm t.module_ref
        × All (λ r. Visited r t) (list s.llvm s.module_ref)
  visit_roots-Steps fuel list item s t top same plain sound home h =
      let (steps, _) =
        visit_refs-Steps hasher api blocks IsLive live (visit_item hasher api blocks fuel)
          (visit_item-Visits hasher api blocks IsLive laws live fuel) item
          (list s.llvm s.module_ref) s t same plain sound (top s.llvm s.module_ref home)
          (visit_roots_lem hasher api blocks fuel list item s t h) in
      (
        steps,
        subst (IsLive t.llvm) (sym steps.home) (steps.alive s.module_ref home),
        visit_roots-visits hasher api blocks item same plain fuel list s t h,
      )

  -- The three loops, from a state in which nothing has been visited.
  module _ (tops : TopLaws api blocks) (fuel : ℕ) (s t : Sanitizer L)
      (none_yet : s.visited_nodes ≡ [])
      (made : All (λ e. IsLive s.llvm (api.metadata_as_value e.1)) s.replace_operands)
      (home : IsLive s.llvm s.module_ref)
      (h : visit_module hasher api blocks fuel s ≡ (ok tt, t)) where
    Complete : Type 0
    Complete =
        ((v : Ref)
          → Visited v t
          → Explored api blocks.instructions t v × Named api blocks.instructions t v)
        × All (λ r. Visited r t) (top_level blocks s.llvm s.module_ref)

    visit_module_complete : Complete
    unfolding Complete ◌>>◌ visit_module
    visit_module_complete =
        let aliases = visit_roots hasher api blocks fuel blocks.global_aliases global_alias in
        let functions = visit_roots hasher api blocks fuel blocks.functions function_item in
        let (_, s1, e1, h1) =
          >>=-eq-ok (visit_roots hasher api blocks fuel blocks.globals global_variable)
            (λ _. aliases >> functions) s h in
        let (_, s2, e2, h2) = >>=-eq-ok aliases (λ _. functions) s1 h1 in
        let unseen = λ (w : Ref) (k : Visited w s). subst (λ vs. contains w vs ≡ true) none_yet k in
        let sound : Sound hasher api blocks IsLive live s = record {
          visited = λ w k. let k' = unseen w k in cc;
          replacements = made;
        } in
        let (first, home1, seen1) =
          visit_roots-Steps fuel blocks.globals global_variable s s1 roots.live-globals (λ r. refl)
            (λ r. refl) sound home e1 in
        let (second, home2, seen2) =
          visit_roots-Steps fuel blocks.global_aliases global_alias s1 s2 roots.live-global_aliases
            (λ r. refl) (λ r. refl) first.sound home1 e2 in
        let (third, _, seen3) =
          visit_roots-Steps fuel blocks.functions function_item s2 t roots.live-functions
            (λ r. refl) (λ r. refl) second.sound home2 h2 in
        let rest =
          Step-trans api blocks.instructions IsLive live.live-operand s1 s2 t second third in
        let all = Step-trans api blocks.instructions IsLive live.live-operand s s1 t first rest in
        let m = s.module_ref in
        let same1 =
          visit_roots-SameTop hasher api blocks tops fuel blocks.globals global_variable m s s1
            e1 in
        let same2 =
          visit_roots-SameTop hasher api blocks tops fuel blocks.global_aliases global_alias m s1 s2
            e2 in
        (
          λ v seen. elim (all.fresh v seen) [
            | inl before ↦ let k' = unseen v before in cc
            | inr done ↦ done
          ],
          All-append (λ r. Visited r t) _ _ (All-mono _ _ rest.grows _ seen1)
              (All-append (λ r. Visited r t) _ _
                (subst (All (λ r. Visited r t))
                  (ap (blocks.global_aliases s1.llvm) first.home ∙ same1.global_aliases)
                  (All-mono _ _ third.grows _ seen2))
                (subst (All (λ r. Visited r t))
                  (ap (blocks.functions s2.llvm) (second.home ∙ first.home)
                    ∙ (same2.functions ∙ same1.functions))
                  seen3)),
        )

  module _ (builds : BuilderLaws api IsLive) (tops : TopLaws api blocks) where
    -- The whole pass, up to the disposal of its builder.
    pub run_complete :
        (fuel : ℕ) (es : List Text) (context module_ref : Ref) (l : L) (t : Sanitizer L)
        → IsLive l module_ref
        → run hasher api blocks fuel es (new api context module_ref l) ≡ (ok tt, t)
        → (u : Sanitizer L) × (dispose hasher api blocks u ≡ (ok tt, t))
          × ((v : Ref)
              → Visited v u
              → Explored api blocks.instructions u v × Named api blocks.instructions u v)
          × All (λ r. Visited r u) (top_level blocks l module_ref)
    unfolding run new set_replacements ◌>>=◌ ◌>>◌ Complete
    run_complete fuel es context module_ref l t home h =
        let s = new api context module_ref l in
        let home1 : IsLive s.llvm module_ref = builds.live-builder module_ref l module_ref home in
        let (m, s1, e1, h1) = >>=-eq-ok (fix_subprogram_linkage api blocks.functions es) _ s h in
        let fixed =
          fix_subprogram_linkage-Fixed api blocks.instructions IsLive laws live builds
            blocks.functions es s s1 m (roots.live-functions s.llvm module_ref home1) e1 in
        let s2 : Sanitizer L = record s1 { replace_operands = m } in
        let (_, u, e2, h2) = >>=-eq-ok (visit_module hasher api blocks fuel) _ s2 h1 in
        let none_yet : s2.visited_nodes ≡ [] =
          subst (λ r. r.1.visited_nodes ≡ []) e1
            ((Quiet-fix_subprogram_linkage api blocks.functions es).at s).1 in
        let home2 : IsLive s2.llvm s2.module_ref =
          subst (IsLive s2.llvm) (sym fixed.home_same) (fixed.kept module_ref home1) in
        let (done, seen) = visit_module_complete tops fuel s2 u none_yet fixed.made home2 e2 in
        let same_top =
          SameTop-trans hasher api blocks tops
            (kept-SameTop hasher api blocks tops module_ref l s.llvm
              (λ P k. k.of_builder module_ref l))
            (fix_subprogram_linkage-SameTop hasher api blocks tops es module_ref s s1 m e1) in
        (
          u,
          h2,
          done,
          subst (All (λ r. Visited r u))
              (ap (top_level blocks s1.llvm) fixed.home_same
                ∙ top_level_same hasher api blocks tops same_top)
              seen,
        )

    -- Where the sanitizer's pass over a module that is live returns, the module's globals, aliases
    -- and functions have been visited, and every value that has been visited has been gone through
    -- in full: in the state that the pass is in before it disposes of its builder each operand of
    -- such a value is null, visited or a new subprogram, the nodes of its metadata entries are
    -- visited, and if it is a function so are its parameters and its instructions.
    pub run-explores :
        (fuel : ℕ) (es : List Text) (context module_ref : Ref) (l : L) (t : Sanitizer L)
        → IsLive l module_ref
        → run hasher api blocks fuel es (new api context module_ref l) ≡ (ok tt, t)
        → (u : Sanitizer L) × (dispose hasher api blocks u ≡ (ok tt, t))
          × All (λ r. Visited r u) (top_level blocks l module_ref)
          × ((v : Ref) → Visited v u → Explored api blocks.instructions u v)
    run-explores fuel es context module_ref l t home h =
        let (u, e, done, seen) = run_complete fuel es context module_ref l t home h in
        (u, e, seen, λ v visited. (done v visited).0)
