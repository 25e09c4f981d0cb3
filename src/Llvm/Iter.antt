-- ===== src/Llvm/Iter.antt =====
-- llvm/iter.rs: the iterators over the lists of LLVM, one macro for five kinds of list.
pub mod Laws
pub mod Lists
use bpf_linker.Prelude.{
  ℕ, zero, suc, Bool, true, false, Option, none, some, List, [], ◌∷◌, ◌==◌, if◌then◌else◌,
}
use bpf_linker.Outcome.{Outcome, ok, err, panic}
use bpf_linker.Types.Api.{Ref}

-- The calls that the macro takes: the first and the last element of a container, and the next one.
-- 0 is null.
pub record ListApi : Type 0 where
  pub get_first : Ref → Ref
  pub get_last : Ref → Ref
  pub get_next : Ref → Ref

-- The iterator.
pub record Iter : Type 0 where
  pub next : Ref
  pub last : Ref

-- A loop over an iterator is on fuel.
pub data Endless : Type 0 where
  endless : Endless

abbrev pub is_null : Ref → Bool
is_null r = r == 0

-- `assert_eq!` on two Booleans.
abbrev pub same : Bool → Bool → Bool
same true b = b
same false true = false
same false false = true

module _ (api : ListApi) where
  -- `…_iter`: `none` is the panic of the assertion.
  unfoldable pub iter : Ref → Option Iter
  iter container =
      let first = api.get_first container in
      let last = api.get_last container in
      if same (is_null first) (is_null last)
      then some (record { next = first; last = last })
      else none

  -- `Iterator::next`: the item and the iterator after it.
  unfoldable pub advance : Iter → Outcome Endless (Option (Ref × Iter))
  advance it =
      if is_null it.next
      then ok none
      else if same (is_null (api.get_next it.next)) (it.next == it.last)
      then ok (some (it.next, record it { next = api.get_next it.next }))
      else panic

  abbrev pub prepend : Ref → Outcome Endless (List Ref) → Outcome Endless (List Ref)
  prepend r (ok rs) = ok (r ∷ rs)
  prepend r (err e) = err e
  prepend r panic = panic

  -- One round of a `for` loop, with the rounds that follow.
  abbrev pub follow :
      (Iter → Outcome Endless (List Ref))
      → Outcome Endless (Option (Ref × Iter))
      → Outcome Endless (List Ref)
  follow rest (ok none) = ok []
  follow rest (ok (some (r, it))) = prepend r (rest it)
  follow rest (err e) = err e
  follow rest panic = panic

  -- What a `for` loop over the iterator sees.
  unfoldable pub collect : ℕ → Iter → Outcome Endless (List Ref)
  unfolding advance
  collect zero it = err endless
  collect (suc fuel) it = follow (collect fuel) (advance it)

  abbrev pub started :
      (Iter → Outcome Endless (List Ref)) → Option Iter → Outcome Endless (List Ref)
  started loop none = panic
  started loop (some it) = loop it

  unfoldable pub elements_of : ℕ → Ref → Outcome Endless (List Ref)
  unfolding iter collect
  elements_of fuel container = started (collect fuel) (iter container)
