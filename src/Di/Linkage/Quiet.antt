-- ===== src/Di/Linkage/Quiet.antt =====
-- `fix_subprogram_linkage` and the visited set.
use bpf_linker.Prelude.{Option, none, some, List, [], ◌∷◌, Text}
use bpf_linker.Types.Api.{Ref, Api}
use bpf_linker.Di.Fuel.{Quiet, Quiet-bind, quiet_rules}
use bpf_linker.Di.Linkage.{
  set_optional, create_local, localize, insert_found, insert_new, Replacements, fix_subprogram,
  fix_function, fix_functions, fix_subprogram_linkage,
}

module _ {L : Type 0} (api : Api L) where
  Quiet-set_optional : (set : Ref → L → L) (r : Option Ref) → Quiet (set_optional api set r)
  unfolding set_optional
  Quiet-set_optional set none = search quiet_rules
  Quiet-set_optional set (some r) = search quiet_rules

  Quiet-create_local : (builder sub : Ref) → Quiet (create_local api builder sub)
  unfolding create_local
  Quiet-create_local builder sub = search quiet_rules depth 16

  Quiet-localize : (builder f sub : Ref) → Quiet (localize api builder f sub)
  unfolding localize
  Quiet-localize builder f sub =
      search (quiet_rules, Quiet-set_optional, Quiet-create_local) depth 16

  Quiet-insert_found :
      (replace : Replacements) (key metadata : Ref) (found : Option Ref)
      → Quiet (insert_found api replace key metadata found)
  unfolding insert_found
  Quiet-insert_found replace key metadata none = search quiet_rules
  Quiet-insert_found replace key metadata (some r) = search quiet_rules

  Quiet-fix_subprogram :
      (builder f : Ref) (replace : Replacements) (sub : Option Ref)
      → Quiet (fix_subprogram api builder f replace sub)
  unfolding fix_subprogram insert_new
  Quiet-fix_subprogram builder f replace none = search quiet_rules
  Quiet-fix_subprogram builder f replace (some sub) =
      search (quiet_rules, Quiet-localize, Quiet-insert_found)

  Quiet-fix_function :
      (builder : Ref) (es : List Text) (f : Ref) (replace : Replacements)
      → Quiet (fix_function api builder es f replace)
  unfolding fix_function
  Quiet-fix_function builder es f replace = search (quiet_rules, Quiet-fix_subprogram) depth 9

  Quiet-fix_functions :
      (builder : Ref) (es : List Text) (fs : List Ref) (replace : Replacements)
      → Quiet (fix_functions api builder es fs replace)
  unfolding fix_functions
  Quiet-fix_functions builder es [] replace = search quiet_rules
  Quiet-fix_functions builder es (f ∷ fs) replace =
      Quiet-bind _ _ (Quiet-fix_function builder es f replace) (Quiet-fix_functions builder es fs)

  pub Quiet-fix_subprogram_linkage :
      (functions : L → Ref → List Ref) (es : List Text)
      → Quiet (fix_subprogram_linkage api functions es)
  unfolding fix_subprogram_linkage
  Quiet-fix_subprogram_linkage functions es = record {
    at = λ s. (Quiet-fix_functions s.builder es (functions s.llvm s.module_ref) []).at s;
  }
