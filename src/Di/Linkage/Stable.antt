-- ===== src/Di/Linkage/Stable.antt =====
-- The calls of `fix_subprogram_linkage`, and a property of LLVM's state that they keep.
use bpf_linker.Prelude.{ℕ, ◌≤◌, arith, Option, none, some, List, [], ◌∷◌, Text}
use bpf_linker.Types.Api.{Ref, Api, FunctionArgs}
use bpf_linker.Types.Ir.{set_function_subprogram}
use bpf_linker.Outcome.Keeps.{Keeps, Keeps-bind}
use bpf_linker.Di.Sanitizer.{Sanitizer, reading, changing, calling}
use bpf_linker.Outcome.{pure, ◌>>=◌, ◌>>◌}
use bpf_linker.Types.Di.{
  unit, retained_nodes, set_unit, set_retained_nodes, unit_operand, retained_nodes_operand,
}
use bpf_linker.Di.Keeps.{Keeps-changing, visit_rules}
use bpf_linker.Di.Linkage.{
  set_optional, create_local, localize, insert_found, insert_new, Replacements, fix_subprogram,
  fix_function, fix_functions, fix_subprogram_linkage,
}

-- A property of LLVM's state that the calls for nodes and subprograms keep. Of a node's operands
-- `fix_subprogram_linkage` replaces the unit and the retained nodes alone, which come after the name,
-- the linkage name and the scope.
pub record Stable {L : Type 0} (api : Api L) (P : L → Type 0) : Type 0 where
  pub of_replace :
      (v : Ref) (i : ℕ) (m : Ref) (l : L)
      → 5 ≤ i
      → P l
      → P (api.replace_md_node_operand_with v i m l)
  pub of_node : (es : List Ref) (l : L) → P l → P (api.md_node_in_context es l).1
  pub of_create :
      (b : Ref) (args : FunctionArgs) (l : L) → P l → P (api.di_builder_create_function b args l).1
  pub of_finalize : (b p : Ref) (l : L) → P l → P (api.di_builder_finalize_subprogram b p l)

module _ {L : Type 0} (api : Api L) (P : L → Type 0) (stable : Stable api P) where
  abbrev pub Holds : Sanitizer L → Type 0
  Holds s = P s.llvm

  of_unit : (v m : Ref) (l : L) → P l → P (set_unit api v m l)
  of_unit v m l = stable.of_replace v unit_operand m l (omega arith)

  of_retained : (v m : Ref) (l : L) → P l → P (set_retained_nodes api v m l)
  of_retained v m l = stable.of_replace v retained_nodes_operand m l (omega arith)

  Keeps-set_optional :
      (set : Ref → L → L)
      → ((r : Ref) (l : L) → P l → P (set r l))
      → (r : Option Ref) → Keeps Holds (set_optional api set r)
  unfolding set_optional
  Keeps-set_optional set k none = search visit_rules
  Keeps-set_optional set k (some r) = Keeps-changing (set r) (λ s. k r s.llvm)

  Keeps-create_local : (builder sub : Ref) → Keeps Holds (create_local api builder sub)
  unfolding create_local
  Keeps-create_local builder sub =
      search (visit_rules, stable.of_create, stable.of_finalize) depth 18

  Keeps-insert_found :
      (replace : Replacements) (key metadata : Ref) (found : Option Ref)
      → Keeps Holds (insert_found api replace key metadata found)
  unfolding insert_found
  Keeps-insert_found replace key metadata none = search visit_rules
  Keeps-insert_found replace key metadata (some r) = search visit_rules

  -- What `localize` does after the function has its new subprogram.
  pub Keeps-attached :
      (new_program sub : Ref)
      → Keeps Holds (
          reading (λ l. unit api l sub) >>= λ u.
          set_optional api (set_unit api new_program) u
          >> (reading (λ l. retained_nodes api l sub) >>= λ nodes.
              set_optional api (set_retained_nodes api new_program) nodes
              >> (calling (api.md_node_in_context []) >>= λ empty_node.
                  changing (set_retained_nodes api sub empty_node) >> pure new_program)))
  Keeps-attached new_program sub =
      search (visit_rules, Keeps-set_optional, of_unit, of_retained, stable.of_node) depth 18

  -- If the property does not speak of the function's subprogram.
  module _ (f : Ref)
      (of_set : (p : Ref) (l : L) → P l → P (set_function_subprogram api f p l)) where
    pub Keeps-localize : (builder sub : Ref) → Keeps Holds (localize api builder f sub)
    unfolding localize
    Keeps-localize builder sub =
        search
          (
            visit_rules, Keeps-create_local, Keeps-set_optional, of_set, of_unit, of_retained,
            stable.of_node,
          )
          depth 18

    Keeps-fix_subprogram :
        (builder : Ref) (replace : Replacements) (sub : Option Ref)
        → Keeps Holds (fix_subprogram api builder f replace sub)
    unfolding fix_subprogram insert_new
    Keeps-fix_subprogram builder replace none = search visit_rules
    Keeps-fix_subprogram builder replace (some sub) =
        search (visit_rules, Keeps-localize, Keeps-insert_found) depth 9

    pub Keeps-fix_function :
        (builder : Ref) (es : List Text) (replace : Replacements)
        → Keeps Holds (fix_function api builder es f replace)
    unfolding fix_function
    Keeps-fix_function builder es replace = search (visit_rules, Keeps-fix_subprogram) depth 12

  -- Nor of any function's.
  module _ (of_set : (f p : Ref) (l : L) → P l → P (set_function_subprogram api f p l)) where
    Keeps-fix_functions :
        (builder : Ref) (es : List Text) (fs : List Ref) (replace : Replacements)
        → Keeps Holds (fix_functions api builder es fs replace)
    unfolding fix_functions
    Keeps-fix_functions builder es [] replace = search visit_rules
    Keeps-fix_functions builder es (f ∷ fs) replace =
        Keeps-bind _ _ (Keeps-fix_function f (of_set f) builder es replace)
          (Keeps-fix_functions builder es fs)

    pub Keeps-fix_subprogram_linkage :
        (functions : L → Ref → List Ref) (es : List Text)
        → Keeps Holds (fix_subprogram_linkage api functions es)
    unfolding fix_subprogram_linkage
    Keeps-fix_subprogram_linkage functions es = record {
      at = λ s. (Keeps-fix_functions s.builder es (functions s.llvm s.module_ref) []).at s;
    }
