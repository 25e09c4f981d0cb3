-- ===== src/Llvm/Iter/Lists.antt =====
-- The five kinds of list that llvm/iter.rs makes iterators for, and what the traversal reads of them.
use bpf_linker.Prelude.{ℕ, ◌≡◌, ◌<◌, refl, Option, List, [], ◌∷◌, ◌++◌, length}
use bpf_linker.Outcome.{Outcome, ok, err, panic}
use bpf_linker.Types.Api.{Ref}
use bpf_linker.Llvm.Iter.{ListApi, Iter, Endless, iter, collect, started, elements_of}
use bpf_linker.Llvm.Iter.Laws.{IsListOf, elements_of_lem}

-- The calls for each kind, in a state of LLVM.
pub record ListCalls (L : Type 0) : Type 0 where
  pub globals : L → ListApi
  pub global_aliases : L → ListApi
  pub functions : L → ListApi
  pub basic_blocks : L → ListApi
  pub instructions : L → ListApi

module _ {L : Type 0} (calls : ListCalls L) (s : L) where
  unfoldable pub globals_iter : Ref → Option Iter
  globals_iter m = iter (calls.globals s) m

  unfoldable pub global_aliases_iter : Ref → Option Iter
  global_aliases_iter m = iter (calls.global_aliases s) m

  unfoldable pub functions_iter : Ref → Option Iter
  functions_iter m = iter (calls.functions s) m

  unfoldable pub basic_blocks_iter : Ref → Option Iter
  basic_blocks_iter f = iter (calls.basic_blocks s) f

  unfoldable pub instructions_iter : Ref → Option Iter
  instructions_iter block = iter (calls.instructions s) block

  -- `Function::basic_blocks`.
  unfoldable pub basic_blocks : Ref → Option Iter
  unfolding basic_blocks_iter
  basic_blocks f = basic_blocks_iter f

  abbrev pub both :
      Outcome Endless (List Ref) → Outcome Endless (List Ref) → Outcome Endless (List Ref)
  both (ok xs) (ok ys) = ok (xs ++ ys)
  both (ok xs) r = r
  both (err e) r = err e
  both panic r = panic

  -- The inner loop of `visit_item` over a function, for each block that the outer one yields.
  unfoldable pub instructions_of_blocks : ℕ → List Ref → Outcome Endless (List Ref)
  unfolding instructions_iter
  instructions_of_blocks fuel [] = ok []
  instructions_of_blocks fuel (block ∷ blocks) =
      both
        (started (calls.instructions s) (collect (calls.instructions s) fuel)
          (instructions_iter block))
        (instructions_of_blocks fuel blocks)

  abbrev pub of_blocks : ℕ → Outcome Endless (List Ref) → Outcome Endless (List Ref)
  of_blocks fuel (ok blocks) = instructions_of_blocks fuel blocks
  of_blocks fuel (err e) = err e
  of_blocks fuel panic = panic

  -- The instructions that the two loops see.
  unfoldable pub instructions_of : ℕ → Ref → Outcome Endless (List Ref)
  unfolding basic_blocks instructions_of_blocks
  instructions_of fuel f =
      of_blocks fuel
        (started (calls.basic_blocks s) (collect (calls.basic_blocks s) fuel) (basic_blocks f))

  -- The blocks of a function with their instructions, as LLVM has linked them.
  abbrev pub AreLists : ℕ → List (Ref × List Ref) → Type 0
  AreLists fuel [] = Unit
  AreLists fuel ((block, is) ∷ rest) =
      (length is < fuel) × IsListOf (calls.instructions s) block is × AreLists fuel rest

  abbrev pub heads : List (Ref × List Ref) → List Ref
  heads [] = []
  heads ((block, is) ∷ rest) = block ∷ heads rest

  abbrev pub flat : List (Ref × List Ref) → List Ref
  flat [] = []
  flat ((block, is) ∷ rest) = is ++ flat rest

  instructions_of_blocks_lem :
      (fuel : ℕ) (blocks : List (Ref × List Ref))
      → AreLists fuel blocks
      → instructions_of_blocks fuel (heads blocks) ≡ ok (flat blocks)
  unfolding instructions_of_blocks elements_of
  instructions_of_blocks_lem fuel [] h = refl
  instructions_of_blocks_lem fuel ((block, is) ∷ rest) (lt, linked, others) =
      rw
        (
          elements_of_lem (calls.instructions s) block is fuel lt linked,
          instructions_of_blocks_lem fuel rest others,
        )
        refl

  -- If a function's blocks and each block's instructions are lists that are linked from their first
  -- element to their last, and there is fuel for the longest of them, the loops over a function's
  -- blocks see its instructions block by block, each once and in their order, and no assertion of
  -- the iterators fails.
  pub instructions_of_lem :
      (fuel : ℕ) (f : Ref) (blocks : List (Ref × List Ref))
      → length (heads blocks) < fuel
      → IsListOf (calls.basic_blocks s) f (heads blocks)
      → AreLists fuel blocks
      → instructions_of fuel f ≡ ok (flat blocks)
  unfolding instructions_of elements_of
  instructions_of_lem fuel f blocks lt linked lists =
      rw (elements_of_lem (calls.basic_blocks s) f (heads blocks) fuel lt linked)
        (instructions_of_blocks_lem fuel blocks lists)
