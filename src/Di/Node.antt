-- ===== src/Di/Node.antt =====
-- `visit_mdnode` of llvm/di.rs: one metadata node is made fit for the kernel.
pub mod Quiet
pub mod Writes
pub mod Effect
pub mod Structure
pub mod Total
pub mod Framed
pub mod Frame
pub mod Keeps
pub mod Named
pub mod Legible
pub mod Cost
use bpf_linker.Prelude.{
  ℕ, Bool, true, false, Option, none, some, List, [], ◌∷◌, ◌==◌, if◌then◌else◌, Text,
}
use bpf_linker.Outcome.{Outcome, ok, err, panic, Exec, pure, unwrap, ◌>>=◌, ◌>>◌}
use bpf_linker.Types.Api.{Ref, Api}
use bpf_linker.Types.Ir.{
  Metadata, composite_type, derived_type, subprogram, from_value_ref, empty_node, with_elements,
}
use bpf_linker.Types.Di.{
  offset_in_bits, tag, replace_type_name, elements, composite_name, flags, replace_elements,
  subprogram_name, replace_subprogram_name,
}
use bpf_linker.Di.Names.{DefaultHasher, sanitize_type_name}
use bpf_linker.Di.Sort.{sort_by_key}
use bpf_linker.Di.Sanitizer.{Sanitizer, Stop, Visit, reading, changing, calling, unwrapping}
use bpf_linker.Di.Scan.{Scan, scan}

module _ {L : Type 0} (hasher : DefaultHasher) (api : Api L) where
  -- The original name and the sanitized one.
  unfoldable pub names_of : Option Text → Visit L (Option (Text × Text))
  names_of none = pure none
  names_of (some original_name) = do
    sanitized_name ← unwrap (sanitize_type_name hasher original_name)
    pure (some (original_name, sanitized_name))

  -- `sort_by_cached_key` at the members' offsets, then `replace_elements`.
  unfoldable pub replace_members : Ref → Bool → List Ref → Visit L Unit
  replace_members v true members = do
    node ← calling (empty_node api)
    changing (replace_elements api v node)
  replace_members v false [] = pure tt
  replace_members v false (m ∷ members) = do
    sorted ← reading (λ s. sort_by_key (offset_in_bits api s) (m ∷ members))
    node ← calling (with_elements api sorted)
    changing (replace_elements api v node)

  unfoldable pub rename : Ref → Bool → Option (Text × Text) → Visit L Unit
  rename v true names = unwrapping (replace_type_name api v [])
  rename v false none = pure tt
  rename v false (some (_, sanitized_name)) = unwrapping (replace_type_name api v sanitized_name)

  abbrev pub start_scan : Sanitizer L → Scan
  start_scan s = record {
    is_data_carrying_enum = false;
    remove_name = false;
    members = [];
    skipped_types = s.skipped_types;
  }

  -- The scan only reads LLVM, and may add to `skipped_types`.
  unfoldable pub scanning : Option (Text × Text) → Ref → Visit L Scan
  scanning names v s =
      let r = scan api s.llvm names (elements api s.llvm v) (start_scan s) in
      (ok r, record s { skipped_types = r.skipped_types })

  -- The arm for `DW_TAG_structure_type`.
  unfoldable pub visit_structure : Ref → Visit L Unit
  visit_structure v = do
    name ← reading (λ s. composite_name api s v)
    names ← names_of name
    declared ← reading (λ s. flags api s v)
    if declared == api.di_flag_fwd_decl then pure tt else do
      r ← scanning names v
      replace_members v r.is_data_carrying_enum r.members
      rename v r.remove_name names

  -- The arm for a subprogram that has a name.
  unfoldable pub rename_subprogram : Ref → Option Text → Visit L Unit
  rename_subprogram v none = pure tt
  rename_subprogram v (some name) = do
    sanitized ← unwrap (sanitize_type_name hasher name)
    unwrapping (replace_subprogram_name api v sanitized)

  unfoldable pub visit_metadata : Metadata → Visit L Unit
  visit_metadata (composite_type v) = do
    t ← reading (λ s. tag api s v)
    if t == api.dw_tag_structure_type then visit_structure v else pure tt
  visit_metadata (derived_type v) = do
    t ← reading (λ s. tag api s v)
    if t == api.dw_tag_pointer_type then unwrapping (replace_type_name api v []) else pure tt
  visit_metadata (subprogram v) = do
    found ← reading (λ s. subprogram_name api s v)
    name ← unwrap found
    rename_subprogram v name
  visit_metadata _ = pure tt

  unfoldable pub visit_mdnode : Ref → Visit L Unit
  visit_mdnode mdnode = do
    metadata ← reading (λ s. from_value_ref api s mdnode)
    visit_metadata metadata
