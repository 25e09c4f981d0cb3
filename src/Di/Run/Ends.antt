-- ===== src/Di/Run/Ends.antt =====
-- The fuel of the whole pass over a module.
use bpf_linker.Prelude.{ℕ, zero, suc, ◌≤◌, ◌<◌, ◌≡◌, ◌≢◌, refl, List, subst, arith, All, Text}
use bpf_linker.Outcome.{err}
use bpf_linker.Types.Api.{Ref, Api}
use bpf_linker.Di.Names.{DefaultHasher}
use bpf_linker.Di.Sanitizer.{out_of_fuel, new}
use bpf_linker.Di.Fuel.{unseen, Within, Ends, Ends-bind, Ends-then, Ends-of_Quiet, Quiet}
use bpf_linker.Di.Visit.{
  Item, global_variable, global_alias, function_item, value_ref, Blocks, visit_item,
}
use bpf_linker.Di.Visit.Ends.{
  AddressesBelow, Ends-visit_all, Ends-visit_item, Ends-reading_then, All-map-InRange,
}
use bpf_linker.Di.Linkage.{Replacements}
use bpf_linker.Di.Linkage.Quiet.{Quiet-fix_subprogram_linkage}
use bpf_linker.Di.Run.{set_replacements, module_of, dispose, visit_roots, visit_module, run}

unseen-le : (n : ℕ) (vs : List ℕ) → unseen n vs ≤ n
unseen-le zero vs = omega arith
unseen-le (suc n) vs = ground (arith, unseen-le n vs)

-- The lists of a module's values hold addresses below `n` too.
pub record RootsBelow {L : Type 0} (blocks : Blocks L) (n : ℕ) : Type 0 where
  pub globals-lt : (s : L) (m : Ref) → All (λ r. r < n) (blocks.globals s m)
  pub global_aliases-lt : (s : L) (m : Ref) → All (λ r. r < n) (blocks.global_aliases s m)
  pub functions-lt : (s : L) (m : Ref) → All (λ r. r < n) (blocks.functions s m)

module _ {L : Type 0} (hasher : DefaultHasher) (api : Api L) (blocks : Blocks L) where
  Quiet-module_of : Quiet (module_of hasher api blocks)
  unfolding module_of
  Quiet-module_of = record { at = λ s. (tt, refl) }

  Quiet-set_replacements : (m : Replacements) → Quiet (set_replacements hasher api blocks m)
  unfolding set_replacements
  Quiet-set_replacements m = record { at = λ s. (tt, refl) }

  Quiet-dispose : Quiet (dispose hasher api blocks)
  unfolding dispose
  Quiet-dispose = record { at = λ s. (tt, refl) }

module _ {L : Type 0} (hasher : DefaultHasher) (api : Api L) (blocks : Blocks L) (n : ℕ)
    (below : AddressesBelow api blocks n) where
  module _ (k fuel : ℕ) (enough : k < fuel) where
    Ends-visit_roots :
        (list : L → Ref → List Ref) (item : Ref → Item)
        → ((s : L) (m : Ref) → All (λ r. r < n) (list s m))
        → ((r : Ref) → value_ref (item r) ≡ r)
        → Ends n k (visit_roots hasher api blocks fuel list item)
    unfolding visit_roots
    Ends-visit_roots list item lt same =
        let visit = visit_item hasher api blocks fuel in
        let ends = Ends-visit_item hasher api blocks n below fuel k enough in
        Ends-bind n k _ _ (Ends-of_Quiet n k _ (Quiet-module_of hasher api blocks)) λ m.
          Ends-reading_then hasher api blocks n k below visit ends (All (λ r. r < n))
            (λ s. list s m) _ (λ s. lt s m)
            λ rs h.
              Ends-visit_all hasher api blocks n k below visit ends _
                (All-map-InRange hasher api blocks n k below item same rs h)

    Ends-visit_module : RootsBelow blocks n → Ends n k (visit_module hasher api blocks fuel)
    unfolding visit_module
    Ends-visit_module roots =
        Ends-then n k _ _
          (Ends-visit_roots blocks.globals global_variable roots.globals-lt (λ r. refl))
          (Ends-then n k _ _
            (Ends-visit_roots blocks.global_aliases global_alias roots.global_aliases-lt
              (λ r. refl))
            (Ends-visit_roots blocks.functions function_item roots.functions-lt (λ r. refl)))

    Ends-run : RootsBelow blocks n → (es : List Text) → Ends n k (run hasher api blocks fuel es)
    unfolding run
    Ends-run roots es =
        Ends-bind n k _ _
          (Ends-of_Quiet n k _ (Quiet-fix_subprogram_linkage api blocks.functions es))
          λ m.
            Ends-then n k _ _ (Ends-of_Quiet n k _ (Quiet-set_replacements hasher api blocks m)) (
              Ends-then n k _ _ (Ends-visit_module roots)
                (Ends-of_Quiet n k _ (Quiet-dispose hasher api blocks)))

  -- If every address that LLVM hands out lies below `n`, then with more than `n` of fuel the
  -- sanitizer's pass over any module, cyclic metadata included, ends: by finishing or by a panic,
  -- and not for want of fuel.
  pub run_terminates :
      RootsBelow blocks n
      → (fuel : ℕ) → n < fuel
      → (es : List Text) (context module_ref : Ref) (l : L)
      → (run hasher api blocks fuel es (new api context module_ref l)).0 ≢ err out_of_fuel
  run_terminates roots fuel enough es context module_ref l stops =
      let s = new api context module_ref l in
      let within = ((Ends-run n fuel enough roots es).at s (unseen-le n s.visited_nodes)).0 in
      subst Within stops within
