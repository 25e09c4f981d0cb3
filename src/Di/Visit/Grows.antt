-- ===== src/Di/Visit/Grows.antt =====
-- The visited set, from which the traversal takes nothing out.
use bpf_linker.Prelude.{
  ℕ, zero, suc, ◌+◌, ◌≡◌, sym, subst, inl, inr, Bool-cases, Bool, true, false, not, Option, none,
  some, List, [], ◌∷◌, arith, if◌then◌else◌,
}
use bpf_linker.Outcome.{Outcome, ok, err, panic, pure, abort, continue, ◌>>=◌, ◌>>◌}
use bpf_linker.Types.Api.{Ref, Api}
use bpf_linker.Types.Ir.{Value, function}
use bpf_linker.Di.Names.{DefaultHasher}
use bpf_linker.Di.Sanitizer.{Sanitizer, Stop, Visit, contains, reading}
use bpf_linker.Di.Fuel.{Quiet}
use bpf_linker.Di.Visit.{
  Item, Blocks, replace_operand, first_visit, visit_node, visit_all, visit_operands, visit_entries,
  visit_operands_of, visit_function, visit_children, visit_value, visit_with, visit_item,
}
use bpf_linker.Di.Visit.Ends.{Quiet-visit_node, Quiet-replace_operand}

-- The address has been visited.
abbrev pub Visited : {L : Type 0} → Ref → Sanitizer L → Type 0
Visited id s = contains id s.visited_nodes ≡ true

-- An address that has been visited stays so.
pub record Grows {L A : Type 0} (id : Ref) (m : Visit L A) : Type 0 where
  pub at : (s : Sanitizer L) → Visited id s → Visited id (m s).1

module _ {L A B : Type 0} {id : Ref} where
  Grows-continue :
      (r : Outcome Stop A) (f : A → Visit L B) (s : Sanitizer L)
      → Visited id s
      → ((a : A) → Grows id (f a))
      → Visited id (continue r f s).1
  Grows-continue (ok a) f s h kf = (kf a).at s h
  Grows-continue (err e) f s h kf = h
  Grows-continue panic f s h kf = h

  pub Grows-bind :
      (m : Visit L A) (f : A → Visit L B)
      → Grows id m
      → ((a : A) → Grows id (f a))
      → Grows id (m >>= f)
  unfolding ◌>>=◌
  Grows-bind m f km kf = record { at = λ s h. Grows-continue (m s).0 f (m s).1 (km.at s h) kf }

  pub Grows-then : (m : Visit L A) (k : Visit L B) → Grows id m → Grows id k → Grows id (m >> k)
  unfolding ◌>>◌ ◌>>=◌
  Grows-then m k km kk = Grows-bind m (λ _. k) km (λ _. kk)

module _ {L A : Type 0} {id : Ref} where
  pub Grows-of_Quiet : (m : Visit L A) → Quiet m → Grows id m
  Grows-of_Quiet m q = record { at = λ s h. subst (λ vs. contains id vs ≡ true) (sym (q.at s).1) h }

  pub Grows-pure : (a : A) → Grows {L = L} id (pure a)
  unfolding ◌>>=◌
  Grows-pure a = record { at = λ s h. h }

  pub Grows-abort : Grows {L = L} {A = A} id abort
  unfolding ◌>>=◌
  Grows-abort = record { at = λ s h. h }

  pub Grows-reading : (f : L → A) → Grows id (reading f)
  unfolding reading
  Grows-reading f = record { at = λ s h. h }

  pub Grows-if :
      (b : Bool) (m l : Visit L A) → Grows id m → Grows id l → Grows id (if b then m else l)
  Grows-if true m l km kl = km
  Grows-if false m l km kl = kl

ruleset grows_rules = (Grows-bind, Grows-then, Grows-pure, Grows-abort, Grows-reading, Grows-if)

module _ {L : Type 0} (hasher : DefaultHasher) (api : Api L) (blocks : Blocks L) (id : Ref) where
  pub Grows-first_visit : (new : Ref) → Grows id (first_visit hasher api blocks new)
  unfolding first_visit
  Grows-first_visit new = record {
    at = λ s h. elim (Bool-cases (contains new s.visited_nodes)) [
      | inl e ↦ rw e h
      | inr e ↦ rw e (ground (arith, h))
    ];
  }

  Grows-visit_node : (value : Value) → Grows id (visit_node hasher api blocks value)
  Grows-visit_node value = Grows-of_Quiet _ (Quiet-visit_node hasher api blocks value)

  Grows-replace_operand : (item : Item) → Grows id (replace_operand hasher api blocks item)
  Grows-replace_operand item = Grows-of_Quiet _ (Quiet-replace_operand hasher api blocks item)

  module _ (visit : Item → Visit L Unit) (grows : (item : Item) → Grows id (visit item)) where
    pub Grows-visit_all : (items : List Item) → Grows id (visit_all hasher api blocks visit items)
    unfolding visit_all
    Grows-visit_all [] = search grows_rules
    Grows-visit_all (item ∷ items) = Grows-then _ _ (grows item) (Grows-visit_all items)

    Grows-visit_operands :
        (parent i m : ℕ) → Grows id (visit_operands hasher api blocks visit parent i m)
    unfolding visit_operands
    Grows-visit_operands parent i zero = search grows_rules
    Grows-visit_operands parent i (suc m) =
        Grows-bind _ _ (Grows-reading _)
          λ o. Grows-then _ _ (grows _) (Grows-visit_operands parent (i + 1) m)

    Grows-visit_entries :
        (es : Option (List (Ref × ℕ))) → Grows id (visit_entries hasher api blocks visit es)
    unfolding visit_entries
    Grows-visit_entries none = search grows_rules
    Grows-visit_entries (some es) = Grows-visit_all _

    Grows-visit_operands_of :
        (parent : Ref) (m : Option ℕ)
        → Grows id (visit_operands_of hasher api blocks visit parent m)
    unfolding visit_operands_of
    Grows-visit_operands_of parent none = search grows_rules
    Grows-visit_operands_of parent (some m) = Grows-visit_operands parent 0 m

    Grows-visit_function : (value : Value) → Grows id (visit_function hasher api blocks visit value)
    unfolding visit_function
    Grows-visit_function (function f) = search (grows_rules, Grows-visit_all) depth 12
    Grows-visit_function _ = search grows_rules

    Grows-visit_children :
        (item : Item) (value : Value) → Grows id (visit_children hasher api blocks visit item value)
    unfolding visit_children
    Grows-visit_children item value =
        search
          (
            grows_rules, Grows-visit_node, Grows-visit_operands_of, Grows-visit_entries,
            Grows-visit_function,
          )
          depth 14

    pub after_first :
        (item : Item) (value : Value) (first : Bool)
        → Grows id
            (if not first then pure tt else visit_children hasher api blocks visit item value)
    after_first item value first = search (grows_rules, Grows-visit_children)

    Grows-visit_value : (item : Item) → Grows id (visit_value hasher api blocks visit item)
    unfolding visit_value
    Grows-visit_value item =
        search (grows_rules, Grows-replace_operand, Grows-first_visit, Grows-visit_children) depth
          12

    Grows-visit_with : (item : Item) → Grows id (visit_with hasher api blocks visit item)
    unfolding visit_with
    Grows-visit_with item = search (grows_rules, Grows-visit_value) depth 9

  pub Grows-visit_item :
      (fuel : ℕ) (item : Item) → Grows id (visit_item hasher api blocks fuel item)
  unfolding visit_item ◌>>=◌
  Grows-visit_item zero item = record { at = λ s h. h }
  Grows-visit_item (suc fuel) item = Grows-visit_with _ (Grows-visit_item fuel) item
