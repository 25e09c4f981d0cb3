-- ===== src/Di/Scan.antt =====
-- The loop over the elements of a structure in `visit_mdnode` of llvm/di.rs.
pub mod Laws
use bpf_linker.Prelude.{
  ℕ, Bool, true, false, ◌||◌, Option, none, some, List, [], ◌∷◌, ◌++◌, ◌==◌, if◌then◌else◌, Text,
  codes, text_eq,
}
use bpf_linker.Types.Api.{Ref, Api}
use bpf_linker.Types.Ir.{Metadata, composite_type, derived_type}
use bpf_linker.Types.Di.{base_type, tag, composite_name}

-- The variables of the loop; `members` holds the `value_ref`s.
pub record Scan : Type 0 where
  pub is_data_carrying_enum : Bool
  pub remove_name : Bool
  pub members : List Ref
  pub skipped_types : List Text

abbrev pub marker : Text
marker = codes "AyaBtfMapMarker"

abbrev pub anon : Text
anon = codes "(anon)"

-- What a data-carrying enum is called in the log.
abbrev pub log_name : Option (Text × Text) → Text
log_name none = anon
log_name (some (original_name, _)) = original_name

module _ {L : Type 0} (api : Api L) (s : L) where
  -- Whether the base type is the composite type `AyaBtfMapMarker`.
  abbrev pub is_marker : Metadata → Bool
  is_marker (composite_type base) = elim (composite_name api s base) [
    | none ↦ false
    | some n ↦ text_eq n marker
  ]
  is_marker _ = false

  -- The arm for a derived type: the field is kept, or it takes away the structure's name.
  abbrev pub member : Scan → Ref → Scan
  member acc d =
      if is_marker (base_type api s d)
      then record acc { remove_name = true }
      else record acc { members = acc.members ++ d ∷ [] }

  abbrev pub is_variant_part : Metadata → Bool
  is_variant_part (composite_type inner) = tag api s inner == api.dw_tag_variant_part
  is_variant_part _ = false

  -- The loop breaks at a variant part.
  pub scan : Option (Text × Text) → List Metadata → Scan → Scan
  scan names [] acc = acc
  scan names (composite_type inner ∷ es) acc =
      let rest = scan names es acc in
      if is_variant_part (composite_type inner)
      then record acc {
        is_data_carrying_enum = true;
        skipped_types = acc.skipped_types ++ log_name names ∷ [];
      }
      else rest
  scan names (derived_type d ∷ es) acc = scan names es (member acc d)
  scan names (_ ∷ es) acc = scan names es acc
