-- ===== src/Di/Node/Quiet.antt =====
-- `visit_mdnode` and the visited set.
use bpf_linker.Prelude.{Bool, true, false, Option, none, some, List, [], ◌∷◌, refl, Text}
use bpf_linker.Types.Api.{Ref, Api}
use bpf_linker.Types.Ir.{Metadata, composite_type, derived_type, subprogram}
use bpf_linker.Di.Names.{DefaultHasher}
use bpf_linker.Di.Fuel.{Quiet, quiet_rules}
use bpf_linker.Di.Node.{
  names_of, replace_members, rename, scanning, visit_structure, rename_subprogram, visit_metadata,
  visit_mdnode,
}

module _ {L : Type 0} (hasher : DefaultHasher) (api : Api L) where
  Quiet-names_of : (name : Option Text) → Quiet (names_of hasher api name)
  unfolding names_of
  Quiet-names_of none = search quiet_rules
  Quiet-names_of (some name) = search quiet_rules

  Quiet-replace_members :
      (v : Ref) (b : Bool) (ms : List Ref) → Quiet (replace_members hasher api v b ms)
  unfolding replace_members
  Quiet-replace_members v true ms = search quiet_rules
  Quiet-replace_members v false [] = search quiet_rules
  Quiet-replace_members v false (m ∷ ms) = search quiet_rules

  Quiet-rename :
      (v : Ref) (b : Bool) (names : Option (Text × Text)) → Quiet (rename hasher api v b names)
  unfolding rename
  Quiet-rename v true names = search quiet_rules
  Quiet-rename v false none = search quiet_rules
  Quiet-rename v false (some (original_name, sanitized_name)) = search quiet_rules

  Quiet-scanning : (names : Option (Text × Text)) (v : Ref) → Quiet (scanning hasher api names v)
  unfolding scanning
  Quiet-scanning names v = record { at = λ s. (tt, refl) }

  ruleset node_rules =
      (quiet_rules, Quiet-names_of, Quiet-replace_members, Quiet-rename, Quiet-scanning)

  Quiet-visit_structure : (v : Ref) → Quiet (visit_structure hasher api v)
  unfolding visit_structure
  Quiet-visit_structure v = search node_rules depth 9

  Quiet-rename_subprogram :
      (v : Ref) (name : Option Text) → Quiet (rename_subprogram hasher api v name)
  unfolding rename_subprogram
  Quiet-rename_subprogram v none = search quiet_rules
  Quiet-rename_subprogram v (some name) = search quiet_rules

  Quiet-visit_metadata : (m : Metadata) → Quiet (visit_metadata hasher api m)
  unfolding visit_metadata
  Quiet-visit_metadata (composite_type v) = search (node_rules, Quiet-visit_structure)
  Quiet-visit_metadata (derived_type v) = search quiet_rules
  Quiet-visit_metadata (subprogram v) = search (quiet_rules, Quiet-rename_subprogram)
  Quiet-visit_metadata _ = search quiet_rules

  pub Quiet-visit_mdnode : (v : Ref) → Quiet (visit_mdnode hasher api v)
  unfolding visit_mdnode
  Quiet-visit_mdnode v = search (quiet_rules, Quiet-visit_metadata)
