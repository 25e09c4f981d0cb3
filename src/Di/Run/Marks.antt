-- ===== src/Di/Run/Marks.antt =====
-- Which values of a module the sanitizer's pass has visited.
use bpf_linker.Prelude.{ℕ, ◌≡◌, subst, false, List, [], ◌∷◌, map, All}
use bpf_linker.Outcome.{ok, ◌>>=◌}
use bpf_linker.Types.Api.{Ref, Api}
use bpf_linker.Di.Names.{DefaultHasher}
use bpf_linker.Di.Sanitizer.{Sanitizer, reading}
use bpf_linker.Di.Visit.{Item, value_ref, is_operand, Blocks}
use bpf_linker.Di.Visit.Grows.{Visited}
use bpf_linker.Di.Visit.Marks.{visit_all-marks}
use bpf_linker.Di.Run.{module_of, visit_roots}

module _ {L : Type 0} (hasher : DefaultHasher) (api : Api L) (blocks : Blocks L) (item : Ref → Item)
    (same : (r : Ref) → value_ref (item r) ≡ r)
    (plain : (r : Ref) → is_operand (item r) ≡ false) where
  All-plain : (rs : List Ref) → All (λ i. is_operand i ≡ false) (map item rs)
  All-plain [] = tt
  All-plain (r ∷ rs) = (plain r, All-plain rs)

  All-unmap :
      (rs : List Ref) (t : Sanitizer L)
      → All (λ i. Visited (value_ref i) t) (map item rs)
      → All (λ r. Visited r t) rs
  All-unmap [] t h = tt
  All-unmap (r ∷ rs) t h = (subst (λ v. Visited v t) (same r) h.0, All-unmap rs t h.1)

  -- Where one of the three loops over a module's globals, aliases or functions returns, each of
  -- these values has been visited.
  pub visit_roots-visits :
      (fuel : ℕ) (list : L → Ref → List Ref) (s t : Sanitizer L)
      → visit_roots hasher api blocks fuel list item s ≡ (ok tt, t)
      → All (λ r. Visited r t) (list s.llvm s.module_ref)
  unfolding visit_roots module_of reading ◌>>=◌
  visit_roots-visits fuel list s t h =
      let rs = list s.llvm s.module_ref in
      All-unmap rs t (visit_all-marks hasher api blocks fuel (map item rs) s t (All-plain rs) h)
