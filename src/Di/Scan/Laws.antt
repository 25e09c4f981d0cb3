-- ===== src/Di/Scan/Laws.antt =====
-- What the loop over a structure's elements finds, without the loop.
use mathlib.Core.List.{append-nil, append_assoc}
use bpf_linker.Prelude.{
  All, All-append, Bool-cases, inl, inr, Bool, false, ◌||◌, Option, ◌≡◌, List, [], ◌∷◌, ◌++◌,
  if◌then◌else◌, arith, Text,
}
use bpf_linker.Types.Api.{Ref, Api, MetadataKind, di_composite_type, di_derived_type, di_subprogram}
use bpf_linker.Types.Ir.{of_kind, Metadata, composite_type, derived_type, subprogram}
use bpf_linker.Types.Di.{base_type}
use bpf_linker.Di.Scan.{Scan, is_marker, member, is_variant_part, log_name, scan}

-- Of what is a field, if anything is one.
abbrev pub OfField : (Ref → Type 0) → Metadata → Type 0
OfField P (derived_type d) = P d
OfField P _ = Unit

pub OfField-of_kind :
    (P : Ref → Type 0) (k : MetadataKind) (v : Ref) → P v → OfField P (of_kind k v)
OfField-of_kind P di_derived_type v h = h
OfField-of_kind P di_composite_type v h = tt
OfField-of_kind P di_subprogram v h = tt
OfField-of_kind P _ v h = tt

module _ {L : Type 0} (api : Api L) (s : L) where
  -- Whether the structure is a data-carrying enum.
  abbrev pub has_variant : List Metadata → Bool
  has_variant [] = false
  has_variant (e ∷ es) = is_variant_part api s e || has_variant es

  -- The elements before the first variant part.
  abbrev pub before_variant : List Metadata → List Metadata
  before_variant [] = []
  before_variant (e ∷ es) = if is_variant_part api s e then [] else e ∷ before_variant es

  abbrev pub is_marker_field : Metadata → Bool
  is_marker_field (derived_type d) = is_marker api s (base_type api s d)
  is_marker_field _ = false

  abbrev pub has_marker : List Metadata → Bool
  has_marker [] = false
  has_marker (e ∷ es) = is_marker_field e || has_marker es

  abbrev pub field : Metadata → List Ref
  field (derived_type d) = if is_marker api s (base_type api s d) then [] else d ∷ []
  field _ = []

  -- The fields that stay.
  abbrev pub fields : List Metadata → List Ref
  fields [] = []
  fields (e ∷ es) = field e ++ fields es

  abbrev pub summary : Option (Text × Text) → List Metadata → Scan → Scan
  summary names es acc = record {
    is_data_carrying_enum = acc.is_data_carrying_enum || has_variant es;
    remove_name = acc.remove_name || has_marker (before_variant es);
    members = acc.members ++ fields (before_variant es);
    skipped_types = acc.skipped_types ++ (if has_variant es then log_name names ∷ [] else []);
  }

  pub scan_lem :
      (names : Option (Text × Text)) (es : List Metadata) (acc : Scan)
      → scan api s names es acc ≡ summary names es acc
  unfolding scan
  scan_lem names [] acc = ground (arith, append-nil acc.members, append-nil acc.skipped_types)
  scan_lem names (composite_type inner ∷ es) acc =
      ground (arith, append-nil acc.members, scan_lem names es acc)
  scan_lem names (derived_type d ∷ es) acc = ground (
    arith,
    scan_lem names es (member api s acc d),
    append_assoc acc.members (d ∷ []) (fields (before_variant es)),
  )
  scan_lem names (subprogram d ∷ es) acc = scan_lem names es acc
  scan_lem names (_ ∷ es) acc = scan_lem names es acc

  module _ (P : Ref → Type 0) where
    All-member :
        (acc : Scan) (d : Ref) → P d → All P acc.members → All P (member api s acc d).members
    All-member acc d hd h = elim (Bool-cases (is_marker api s (base_type api s d))) [
      | inl e ↦ rw e h
      | inr e ↦ rw e (All-append _ acc.members (d ∷ []) h (hd, tt))
    ]

    -- The members are fields that the loop has seen.
    pub All-scan :
        (names : Option (Text × Text)) (es : List Metadata) (acc : Scan)
        → All (OfField P) es
        → All P acc.members
        → All P (scan api s names es acc).members
    unfolding scan
    All-scan names [] acc h k = k
    All-scan names (composite_type inner ∷ es) acc h k =
        elim (Bool-cases (is_variant_part api s (composite_type inner))) [
          | inl e ↦ rw e k
          | inr e ↦ rw e (All-scan names es acc h.1 k)
        ]
    All-scan names (derived_type d ∷ es) acc h k =
        All-scan names es (member api s acc d) h.1 (All-member acc d h.0 k)
    All-scan names (subprogram d ∷ es) acc h k = All-scan names es acc h.1 k
    All-scan names (_ ∷ es) acc h k = All-scan names es acc h.1 k
