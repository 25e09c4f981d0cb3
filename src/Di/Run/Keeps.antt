-- ===== src/Di/Run/Keeps.antt =====
-- The traversal and `run`, and a property of LLVM's state that the sanitizer's calls keep.
use bpf_linker.Prelude.{
  ℕ, zero, suc, ◌+◌, inl, inr, Bool-cases, Option, none, some, List, [], ◌∷◌, map, Text,
}
use bpf_linker.Outcome.{◌>>=◌}
use bpf_linker.Outcome.Keeps.{Keeps, Keeps-bind, Keeps-then}
use bpf_linker.Types.Api.{Ref, Api}
use bpf_linker.Types.Ir.{Value, md_node, function}
use bpf_linker.Di.Names.{DefaultHasher}
use bpf_linker.Di.Sanitizer.{Sanitizer, Visit, new, reading, contains, get}
use bpf_linker.Di.Keeps.{Keeps-changing, Keeps-reading, visit_rules}
use bpf_linker.Di.Node.Keeps.{MetadataKeeps, NodeKeeps-of_MetadataKeeps, Keeps-visit_mdnode}
use bpf_linker.Di.Linkage.Stable.{Keeps-fix_subprogram_linkage}
use bpf_linker.Di.Linkage.{fix_subprogram_linkage, Replacements}
use bpf_linker.Di.Visit.{
  Item, Operand, operand, Blocks, replace, replace_found, replace_operand, first_visit, visit_node,
  visit_all, visit_operands, visit_entries, visit_operands_of, visit_function, visit_children,
  visit_value, visit_with, visit_item,
}
use bpf_linker.Di.Run.{set_replacements, module_of, dispose, visit_roots, visit_module, run}

module _ {L : Type 0} (hasher : DefaultHasher) (api : Api L) (blocks : Blocks L) (P : L → Type 0)
    (keeps : MetadataKeeps api P) where
  abbrev pub Held : Sanitizer L → Type 0
  Held s = P s.llvm

  Keeps-visit_node : (value : Value) → Keeps Held (visit_node hasher api blocks value)
  unfolding visit_node ◌>>=◌
  Keeps-visit_node (md_node v) = record {
    at =
        (Keeps-visit_mdnode hasher api (λ rs. P) (λ rs. NodeKeeps-of_MetadataKeeps api P keeps)
          v).at;
  }
  Keeps-visit_node _ = record { at = λ t h. h }

  of_replaced : (o : Operand) (x : Ref) (l : L) → P l → P (replace hasher api blocks o x l)
  of_replaced o x l h = elim (Bool-cases (api.is_a_md_node l o.parent)) [
    | inl e ↦ rw e (keeps.of_replace o.parent o.index _ l h)
    | inr e ↦ elim (Bool-cases (api.is_a_user l o.parent)) [
      | inl f ↦ rw (e, f) (keeps.of_operand o.parent o.index x l h)
      | inr f ↦ rw (e, f) h
    ]
  ]

  Keeps-replace_found :
      (o : Operand) (found : Option Ref) → Keeps Held (replace_found hasher api blocks o found)
  unfolding replace_found
  Keeps-replace_found o none = search visit_rules
  Keeps-replace_found o (some m) = Keeps-changing _ (λ s. of_replaced o _ s.llvm)

  Keeps-replace_operand : (item : Item) → Keeps Held (replace_operand hasher api blocks item)
  unfolding replace_operand
  Keeps-replace_operand (operand o) = record {
    at = λ s. (Keeps-replace_found o (get o.value s.replace_operands)).at s;
  }
  Keeps-replace_operand _ = record { at = λ s h. h }

  Keeps-first_visit : (id : ℕ) → Keeps Held (first_visit hasher api blocks id)
  unfolding first_visit
  Keeps-first_visit id = record {
    at = λ s h. elim (Bool-cases (contains id s.visited_nodes)) [ inl e ↦ rw e h | inr e ↦ rw e h ];
  }

  module _ (visit : Item → Visit L Unit) (each : (item : Item) → Keeps Held (visit item)) where
    Keeps-visit_all : (items : List Item) → Keeps Held (visit_all hasher api blocks visit items)
    unfolding visit_all
    Keeps-visit_all [] = search visit_rules
    Keeps-visit_all (item ∷ items) = Keeps-then _ _ (each item) (Keeps-visit_all items)

    Keeps-visit_operands :
        (parent i m : ℕ) → Keeps Held (visit_operands hasher api blocks visit parent i m)
    unfolding visit_operands
    Keeps-visit_operands parent i zero = search visit_rules
    Keeps-visit_operands parent i (suc m) =
        Keeps-bind _ _ (Keeps-reading _)
          λ o. Keeps-then _ _ (each _) (Keeps-visit_operands parent (i + 1) m)

    Keeps-visit_entries :
        (es : Option (List (Ref × ℕ))) → Keeps Held (visit_entries hasher api blocks visit es)
    unfolding visit_entries
    Keeps-visit_entries none = search visit_rules
    Keeps-visit_entries (some es) = Keeps-visit_all _

    Keeps-visit_operands_of :
        (parent : Ref) (m : Option ℕ)
        → Keeps Held (visit_operands_of hasher api blocks visit parent m)
    unfolding visit_operands_of
    Keeps-visit_operands_of parent none = search visit_rules
    Keeps-visit_operands_of parent (some m) = Keeps-visit_operands parent 0 m

    Keeps-visit_function :
        (value : Value) → Keeps Held (visit_function hasher api blocks visit value)
    unfolding visit_function
    Keeps-visit_function (function f) = search (visit_rules, Keeps-visit_all) depth 12
    Keeps-visit_function _ = search visit_rules

    Keeps-visit_children :
        (item : Item) (value : Value)
        → Keeps Held (visit_children hasher api blocks visit item value)
    unfolding visit_children
    Keeps-visit_children item value =
        search
          (
            visit_rules, Keeps-visit_node, Keeps-visit_operands_of, Keeps-visit_entries,
            Keeps-visit_function,
          )
          depth 14

    Keeps-visit_value : (item : Item) → Keeps Held (visit_value hasher api blocks visit item)
    unfolding visit_value
    Keeps-visit_value item =
        search (visit_rules, Keeps-replace_operand, Keeps-first_visit, Keeps-visit_children) depth
          12

    Keeps-visit_with : (item : Item) → Keeps Held (visit_with hasher api blocks visit item)
    unfolding visit_with
    Keeps-visit_with item = search (visit_rules, Keeps-visit_value) depth 9

  Keeps-visit_item : (fuel : ℕ) (item : Item) → Keeps Held (visit_item hasher api blocks fuel item)
  unfolding visit_item ◌>>=◌
  Keeps-visit_item zero item = record { at = λ s h. h }
  Keeps-visit_item (suc fuel) item = Keeps-visit_with _ (Keeps-visit_item fuel) item

  pub fix_subprogram_linkage-Held :
      (functions : L → Ref → List Ref) (es : List Text)
      → Keeps Held (fix_subprogram_linkage api functions es)
  fix_subprogram_linkage-Held functions es = record {
    at =
        (Keeps-fix_subprogram_linkage api P keeps.stable (λ f p. keeps.of_subprogram f _) functions
          es).at;
  }

  pub Keeps-visit_roots :
      (fuel : ℕ) (list : L → Ref → List Ref) (item : Ref → Item)
      → Keeps Held (visit_roots hasher api blocks fuel list item)
  unfolding visit_roots module_of ◌>>=◌ reading
  Keeps-visit_roots fuel list item = record {
    at =
        λ s. (Keeps-visit_all _ (Keeps-visit_item fuel) (map item (list s.llvm s.module_ref))).at s;
  }

  Keeps-set_replacements : (m : Replacements) → Keeps Held (set_replacements hasher api blocks m)
  unfolding set_replacements
  Keeps-set_replacements m = record { at = λ s h. h }

  Keeps-dispose : Keeps Held (dispose hasher api blocks)
  unfolding dispose
  Keeps-dispose = record { at = λ s. keeps.of_dispose s.builder s.llvm }

  Keeps-visit_module : (fuel : ℕ) → Keeps Held (visit_module hasher api blocks fuel)
  unfolding visit_module
  Keeps-visit_module fuel = search (visit_rules, Keeps-visit_roots)

  Keeps-run : (fuel : ℕ) (es : List Text) → Keeps Held (run hasher api blocks fuel es)
  unfolding run
  Keeps-run fuel es =
      search
        (
          visit_rules, fix_subprogram_linkage-Held, Keeps-set_replacements, Keeps-visit_module,
          Keeps-dispose,
        )
        depth 9

  -- The whole pass, with the making of its builder.
  pub run-Holds :
      (fuel : ℕ) (es : List Text) (context module_ref : Ref) (l : L)
      → P l
      → P (run hasher api blocks fuel es (new api context module_ref l)).1.llvm
  unfolding new
  run-Holds fuel es context module_ref l h =
      (Keeps-run fuel es).at (new api context module_ref l) (keeps.of_builder module_ref l h)
