-- ===== src/Di/Visit.antt =====
-- The traversal of llvm/di.rs: `Item`, `Operand`, `visit_item` and `run`.
pub mod Ends
pub mod Grows
pub mod Marks
pub mod Evolves
pub mod Explores
pub mod Loops
pub mod Operands
pub mod Moves
pub mod Parts
pub mod Closed
pub mod Safe
pub mod Fits
pub mod Returns
pub mod Lasts
pub mod First
pub mod Ample
pub mod Enough
use bpf_linker.Prelude.{
  ℕ, zero, suc, ◌+◌, Bool, true, false, not, Option, none, some, List, [], ◌∷◌, ◌++◌, map, ◌==◌,
  if◌then◌else◌,
}
use bpf_linker.Outcome.{Outcome, ok, err, panic, Exec, pure, fail, abort, ◌>>=◌, ◌>>◌}
use bpf_linker.Types.Api.{Ref, Api}
use bpf_linker.Types.Ir.{Value, md_node, function, new, operands, metadata_entries, params}
use bpf_linker.Di.Names.{DefaultHasher}
use bpf_linker.Di.Sanitizer.{Sanitizer, Stop, out_of_fuel, Visit, contains, get, reading, changing}
use bpf_linker.Di.Node.{visit_mdnode}

pub record Operand : Type 0 where
  pub parent : Ref
  pub value : Ref
  pub index : ℕ

pub data Item : Type 0 where
  global_variable global_alias function_item function_param instruction : Ref → Item
  operand : Operand → Item
  metadata_entry : Ref → ℕ → ℕ → Item

-- `Item::value_ref`. `value_id` is the same address as a number.
abbrev pub value_ref : Item → Ref
value_ref (global_variable v) = v
value_ref (global_alias v) = v
value_ref (function_item v) = v
value_ref (function_param v) = v
value_ref (instruction v) = v
value_ref (operand o) = o.value
value_ref (metadata_entry v kind index) = v

abbrev pub is_operand : Item → Bool
is_operand (operand o) = true
is_operand _ = false

-- The instructions of a function, block by block, as the iterators of llvm/iter.rs yield them. The
-- traversal changes metadata alone, so that they are read once.
pub record Blocks (L : Type 0) : Type 0 where
  pub instructions : L → Ref → List Ref
  pub globals : L → Ref → List Ref
  pub global_aliases : L → Ref → List Ref
  pub functions : L → Ref → List Ref

module _ {L : Type 0} (hasher : DefaultHasher) (api : Api L) (blocks : Blocks L) where
  -- `Operand::replace`.
  abbrev pub replace : Operand → Ref → L → L
  replace o value s =
      if api.is_a_md_node s o.parent
      then api.replace_md_node_operand_with o.parent o.index (api.value_as_metadata value) s
      else if api.is_a_user s o.parent
      then api.set_operand o.parent o.index value s
      else s

  -- What `replace_operands.get(&value_id)` found is put in the operand's place.
  unfoldable pub replace_found : Operand → Option Ref → Visit L Unit
  replace_found o none = pure tt
  replace_found o (some new_metadata) = changing (replace o (api.metadata_as_value new_metadata))

  unfoldable pub replace_operand : Item → Visit L Unit
  replace_operand (operand o) s = replace_found o (get o.value s.replace_operands) s
  replace_operand _ s = (ok tt, s)

  -- `visited_nodes.insert(value_id)`: whether the id is new.
  unfoldable pub first_visit : ℕ → Visit L Bool
  first_visit id s =
      if contains id s.visited_nodes
      then (ok false, s)
      else (ok true, record s { visited_nodes = id ∷ s.visited_nodes })

  unfoldable pub visit_node : Value → Visit L Unit
  visit_node (md_node v) = visit_mdnode hasher api v
  visit_node _ = pure tt

  -- The entries with their numbers.
  abbrev pub entry_items : ℕ → List (Ref × ℕ) → List Item
  entry_items index [] = []
  entry_items index ((metadata, kind) ∷ es) =
      metadata_entry (api.metadata_as_value metadata) kind index ∷ entry_items (index + 1) es

  -- The loops, with `visit` for the calls of `visit_item`.
  module _ (visit : Item → Visit L Unit) where
    unfoldable pub visit_all : List Item → Visit L Unit
    visit_all [] = pure tt
    visit_all (item ∷ items) = do visit item; visit_all items

    -- Each operand is read when its turn comes.
    unfoldable pub visit_operands : Ref → ℕ → ℕ → Visit L Unit
    visit_operands parent index zero = pure tt
    visit_operands parent index (suc n) = do
      o ← reading (λ s. api.operand s parent index)
      visit (operand (record { parent = parent; value = o; index = index }))
      visit_operands parent (index + 1) n

    unfoldable pub visit_entries : Option (List (Ref × ℕ)) → Visit L Unit
    visit_entries none = pure tt
    visit_entries (some es) = visit_all (entry_items 0 es)

    unfoldable pub visit_operands_of : Ref → Option ℕ → Visit L Unit
    visit_operands_of parent none = pure tt
    visit_operands_of parent (some n) = visit_operands parent 0 n

    unfoldable pub visit_function : Value → Visit L Unit
    visit_function (function f) = do
      ps ← reading (λ s. params api s f)
      visit_all (map function_param ps)
      is ← reading (λ s. blocks.instructions s f)
      visit_all (map instruction is)
    visit_function _ = pure tt

    -- What a first visit does: the node itself, its operands, its metadata and a function's parts.
    unfoldable pub visit_children : Item → Value → Visit L Unit
    visit_children item value = do
      visit_node value
      n ← reading (λ s. operands api s value)
      visit_operands_of (value_ref item) n
      es ← reading (λ s. metadata_entries api s value)
      visit_entries es
      visit_function value

    -- The body of `visit_item` for an item that has a value.
    unfoldable pub visit_value : Item → Visit L Unit
    visit_value item = do
      value ← reading (λ s. new api s (value_ref item))
      replace_operand item
      first ← first_visit (value_ref item)
      if not first then pure tt else visit_children item value

    unfoldable pub visit_with : Item → Visit L Unit
    visit_with item =
        if value_ref item == 0
        then (if is_operand item then pure tt else abort)
        else visit_value item

  unfoldable pub visit_item : ℕ → Item → Visit L Unit
  visit_item zero item = fail out_of_fuel
  visit_item (suc fuel) item = visit_with (visit_item fuel) item
