-- ===== src/Di/Linkage.antt =====
-- `fix_subprogram_linkage` of llvm/di.rs: functions that are not exported get a new subprogram that
-- is local to its unit.
pub mod Quiet
pub mod Stable
pub mod Exported
pub mod Localized
pub mod Local
pub mod Live
pub mod Fixed
pub mod Extends
pub mod Total
pub mod Attached
pub mod Returns
use bpf_linker.Prelude.{
  ℕ, Bool, true, false, ◌||◌, Option, none, some, List, [], ◌∷◌, ◌++◌, ◌==◌, if◌then◌else◌, Text,
  text_eq,
}
use bpf_linker.Outcome.{Outcome, ok, err, panic, Exec, pure, abort, unwrap, ◌>>=◌, ◌>>◌}
use bpf_linker.Types.Api.{Ref, Api}
use bpf_linker.Types.Ir.{function_subprogram, set_function_subprogram}
use bpf_linker.Types.Di.{
  subprogram_name, linkage_name, ty, subprogram_file, subprogram_line, type_flags, scope, unit,
  retained_nodes, set_unit, set_retained_nodes,
}
use bpf_linker.Di.Sanitizer.{Sanitizer, Visit, get, reading, changing, calling}

-- `HashSet<Cow<str>>::contains`.
abbrev pub exports : List Text → Text → Bool
exports [] name = false
exports (e ∷ es) name = text_eq e name || exports es name

abbrev pub Replacements : Type 0
Replacements = List (ℕ × Ref)

module _ {L : Type 0} (api : Api L) where
  unfoldable pub set_optional : (Ref → L → L) → Option Ref → Visit L Unit
  set_optional set none = pure tt
  set_optional set (some r) = changing (set r)

  -- The new subprogram, as a value: the old one's description with `is_local_to_unit` set.
  unfoldable pub create_local : Ref → Ref → Visit L Ref
  create_local builder subprogram = do
    found ← reading (λ s. subprogram_name api s subprogram)
    name' ← unwrap found
    name ← unwrap name'
    linkage' ← reading (λ s. linkage_name api s subprogram)
    linkage ← unwrap linkage'
    ty' ← reading (λ s. ty api s subprogram)
    scope'' ← reading (λ s. scope api s subprogram)
    scope' ← unwrap scope''
    args ← reading (λ s. record {
      scope = scope';
      name = name;
      linkage_name = linkage;
      file = subprogram_file api s subprogram;
      line = subprogram_line api s subprogram;
      ty = ty';
      is_local_to_unit = 1;
      is_definition = 1;
      scope_line = subprogram_line api s subprogram;
      flags = type_flags api s subprogram;
      is_optimized = 1;
    })
    new_program ← calling (api.di_builder_create_function builder args)
    changing (api.di_builder_finalize_subprogram builder new_program)
    pure (api.metadata_as_value new_program)

  -- The subprogram of one function is replaced.
  unfoldable pub localize : Ref → Ref → Ref → Visit L Ref
  localize builder function subprogram = do
    new_program ← create_local builder subprogram
    changing (set_function_subprogram api function new_program)
    u ← reading (λ s. unit api s subprogram)
    set_optional (set_unit api new_program) u
    nodes ← reading (λ s. retained_nodes api s subprogram)
    set_optional (set_retained_nodes api new_program) nodes
    empty_node ← calling (api.md_node_in_context [])
    changing (set_retained_nodes api subprogram empty_node)
    pure new_program

  -- `replace.insert(…)` with its `assert!` that the key is new, after what `get` found.
  unfoldable pub insert_found : Replacements → ℕ → Ref → Option Ref → Visit L Replacements
  insert_found replace key metadata none = pure (replace ++ (key, metadata) ∷ [])
  insert_found replace key metadata (some _) = abort

  unfoldable pub insert_new : Replacements → ℕ → Ref → Visit L Replacements
  insert_new replace key metadata = insert_found replace key metadata (get key replace)

  -- Functions with no subprogram are skipped.
  unfoldable pub fix_subprogram : Ref → Ref → Replacements → Option Ref → Visit L Replacements
  fix_subprogram builder function replace none = pure replace
  fix_subprogram builder function replace (some subprogram) = do
    new_program ← localize builder function subprogram
    insert_new replace subprogram (api.value_as_metadata new_program)

  -- The body of the loop.
  unfoldable pub fix_function : Ref → List Text → Ref → Replacements → Visit L Replacements
  fix_function builder export_symbols function replace = do
    found ← reading (λ s. api.value_name s function)
    name ← unwrap found
    if exports export_symbols name then pure replace else do
      sub ← reading (λ s. function_subprogram api s function)
      fix_subprogram builder function replace sub

  unfoldable pub fix_functions : Ref → List Text → List Ref → Replacements → Visit L Replacements
  fix_functions builder export_symbols [] replace = pure replace
  fix_functions builder export_symbols (f ∷ fs) replace = do
    replace' ← fix_function builder export_symbols f replace
    fix_functions builder export_symbols fs replace'

  unfoldable pub fix_subprogram_linkage : (L → Ref → List Ref) → List Text → Visit L Replacements
  fix_subprogram_linkage functions export_symbols s =
      fix_functions s.builder export_symbols (functions s.llvm s.module_ref) [] s
