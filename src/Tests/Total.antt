-- ===== src/Tests/Total.antt =====
-- The sanitizer's pass over the module of one function, with all the fuel that it needs.
use mathlib.Core.Option.{none-ne-some, some-injective}
use bpf_linker.Prelude.{
  ℕ, zero, suc, ◌+◌, ◌≤◌, ◌<◌, ◌≡◌, refl, subst, ◌⊎◌, inl, inr, Bool-cases, true, List, [], ◌∷◌,
  length, length-append, arith, ◌==◌, All, Among,
}
use bpf_linker.Outcome.{ok}
use bpf_linker.Types.Api.{Ref, MetadataKind, di_subprogram, di_composite_type, di_derived_type}
use bpf_linker.Types.Ir.{of_kind}
use bpf_linker.Types.Frontier.{creates, FrontierLaws}
use bpf_linker.Di.Sanitizer.{new}
use bpf_linker.Di.Run.{run}
use bpf_linker.Di.Run.Total.{FrontierRoots, FiniteLaws, run_returns}
use bpf_linker.Tests.Memory.{nth, map-same, constant_hasher}
use bpf_linker.Tests.Heap.{
  Cell, node, program, string, kind_at, kind_at-string, kind_at-node, kind_at-le-length,
}
use bpf_linker.Tests.Texts.{
  Heap, heap_api, heap_laws, heap_texts, heap_creates, heap_subprograms, heap_nonull, heap_roots,
  heap_blocks, heap_start, helper, start-Legible, helper-IsAttached,
}

abbrev heap_frontier : Heap → ℕ
heap_frontier s = 10 + length s.cells

kind_alone :
    (k : MetadataKind) (v w : Ref) → creates (of_kind k v) ≡ true → creates (of_kind k w) ≡ true
kind_alone di_composite_type v w h = refl
kind_alone di_derived_type v w h = refl
kind_alone di_subprogram v w h = refl
kind_alone _ v w h = h

created_kind :
    (cs : List Cell) (w : Ref)
    → creates (of_kind (kind_at cs w) w) ≡ true
    → kind_at cs w ≡ di_subprogram
created_kind cs zero h = cc
created_kind [] (suc i) h = cc
created_kind (program ∷ cs) (suc zero) h = refl
created_kind (node ∷ cs) (suc zero) h = cc
created_kind (string t ∷ cs) (suc zero) h = cc
created_kind (program ∷ cs) (suc (suc i)) h =
    created_kind cs (suc i) (kind_alone (kind_at cs (suc i)) _ _ h)
created_kind (node ∷ cs) (suc (suc i)) h =
    created_kind cs (suc i) (kind_alone (kind_at cs (suc i)) _ _ h)
created_kind (string t ∷ cs) (suc (suc i)) h =
    created_kind cs (suc i) (kind_alone (kind_at cs (suc i)) _ _ h)

nth-Among : (es : List Ref) (j : ℕ) → (nth es j ≡ 0) ⊎ Among (nth es j) es
nth-Among [] j = inl refl
nth-Among (e ∷ es) zero = inr (inl refl)
nth-Among (e ∷ es) (suc j) = elim (nth-Among es j) [ inl z ↦ inl z | inr h ↦ inr (inr h) ]

heap_bounds : FrontierLaws heap_api heap_blocks.instructions heap_frontier
heap_bounds = record {
  kind-replace = λ v i m s w. refl;
  kind-set = λ v i x s w. refl;
  kind-string = λ t s w h. subst (λ k. creates (of_kind k w) ≡ true) (kind_at-string t s.cells w) h;
  kind-node = λ es s w h. subst (λ k. creates (of_kind k w) ≡ true) (kind_at-node s.cells w) h;
  kind-lt = λ s w h. omega (arith, kind_at-le-length s.cells w (created_kind s.cells w h));
  frontier-replace = λ v i m s. refl;
  frontier-set = λ v i x s. refl;
  string-le = λ t s. omega (arith, length-append s.cells (string t ∷ []));
  string-ge = λ t s. omega (arith, length-append s.cells (string t ∷ []));
  string-lt = λ t s. omega (arith, length-append s.cells (string t ∷ []));
  node-le = λ es s. omega (arith, length-append s.cells (node ∷ []));
  node-ge = λ es s. omega (arith, length-append s.cells (node ∷ []));
  node-lt = λ es s. omega (arith, length-append s.cells (node ∷ []));
  operand-new = λ es s j.
      let here : (suc (length s.cells) == suc (length s.cells)) ≡ true = ground arith in
      rw (here, map-same es) (nth-Among es j);
  operand-set = λ v i x s w j. refl;
  param-lt = λ s f i. omega arith;
  instructions-lt = λ s f. tt;
  entries-lt = λ s v es h. elim (Bool-cases (v == 1)) [
    | inl here ↦
        subst (All (λ e. e.0 < heap_frontier s)) (some-injective _ _ (rw here at h))
          (omega arith, tt)
    | inr other ↦ absurd (none-ne-some es (rw other at h))
  ];
}

heap_finite : FiniteLaws heap_api
heap_finite = record {
  finite-create = λ b args l h. (h.0 + 1, λ w j. ground (arith, h.1 w j));
  finite-finalize = λ b p l h. h;
  finite-subprogram = λ f p l h. h;
}

heap_frontier_roots : FrontierRoots heap_blocks heap_frontier
heap_frontier_roots = record {
  globals-lt = λ s m. tt;
  global_aliases-lt = λ s m. tt;
  functions-lt = λ s m. (omega arith, tt);
}

run_returns_example :
    (enough : ℕ) × ((fuel : ℕ)
      → enough ≤ fuel
      → (run constant_hasher heap_api heap_blocks fuel [] (new heap_api 50 9 heap_start)).0 ≡ ok tt)
unfolding new
run_returns_example =
    run_returns constant_hasher heap_api heap_blocks heap_frontier heap_laws heap_bounds heap_texts
      heap_creates heap_subprograms heap_finite heap_nonull heap_roots heap_frontier_roots [] 50 9
      heap_start (helper ∷ []) refl start-Legible (helper-IsAttached, tt) (tt, tt)
      (4, λ v i. ground arith)
