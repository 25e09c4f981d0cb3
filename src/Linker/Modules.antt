-- ===== src/Linker/Modules.antt =====
-- `link_modules` and `link_reader` of linker.rs: every input, archive members included, is linked
-- into one module.
pub mod Errors
pub mod Order
use bpf_linker.Prelude.{
  ℕ, Bool, true, false, not, Option, none, some, List, [], ◌∷◌, ◌==◌, if◌then◌else◌, Text, is_utf8,
}
use bpf_linker.Outcome.{
  Outcome, ok, err, panic, Exec, pure, fail, abort, lift, unwrap, map_err, ◌>>=◌, ◌>>◌,
}
use bpf_linker.Types.Api.{Ref}
use bpf_linker.Llvm.Api.{ObjectApi, Bytes}
use bpf_linker.Llvm.Object.{find_embedded_bitcode, link_bitcode_buffer}
use bpf_linker.Linker.Options.{
  FilePath, IoError, LinkerError, io_error, invalid_input_type, link_module_error,
  link_archive_module_error, embedded_bitcode_error, missing_bitcode_section, InputType, elf,
  mach_o, archive,
}
use bpf_linker.Linker.InputType.{detect_input_type}

-- The result of an operation of the operating system.
pub data IoResult (A : Type 0) : Type 0 where
  done : A → IoResult A
  failed : IoError → IoResult A

-- A member of an archive, as the `ar` crate hands it out: its identifier and what reading it to the
-- end gives.
pub record Member : Type 0 where
  pub identifier : Bytes
  pub content : IoResult Bytes

-- An open file: what `read_exact` of eight bytes, `rewind` and then `read_to_end` give, and the
-- results of `next_entry` of an archive over it, up to the first `None`.
pub record InputFile : Type 0 where
  pub header : IoResult Bytes
  pub rewound : IoResult Unit
  pub content : IoResult Bytes
  pub entries : List (IoResult Member)

-- `.ok_or(e)`.
abbrev pub ok_or {ℓ} : {E A : Type ℓ} → E → Option A → Outcome E A
ok_or e none = err e
ok_or e (some a) = ok a

-- `.map_err(|e| LinkerError::IoError(path, e))`.
abbrev pub io : {A : Type 0} → FilePath → IoResult A → Outcome LinkerError A
io path (done a) = ok a
io path (failed e) = err (io_error path e)

module _ {L : Type 0} (api : ObjectApi L) (context module_ref : Ref) where
  -- The match on what `find_embedded_bitcode` returns.
  abbrev pub embedded : FilePath → Outcome Text (Option Bytes) → Outcome LinkerError Bytes
  embedded path (ok (some bitcode)) = ok bitcode
  embedded path (ok none) = err (missing_bitcode_section path)
  embedded path (err e) = err (embedded_bitcode_error e)
  embedded path panic = panic

  -- The bitcode of an input. A nested archive panics.
  unfoldable pub extract : FilePath → InputType → Bytes → Exec L LinkerError Bytes
  extract path InputType.bitcode bytes s = pure bytes s
  extract path elf bytes s =
      let (r, s') = find_embedded_bitcode api context bytes s in (embedded path r, s')
  extract path mach_o bytes s = fail (invalid_input_type path) s
  extract path archive bytes s = abort s

  -- `in_type.or_else(|| detect_input_type(&data))`.
  abbrev pub or_detect : Option InputType → Bytes → Option InputType
  or_detect none bytes = detect_input_type bytes
  or_detect (some ty) bytes = some ty

  unfoldable pub link_reader :
      FilePath → IoResult Bytes → Option InputType → Exec L LinkerError Unit
  link_reader path reader in_type = do
    bytes ← lift (io path reader)
    ty ← lift (ok_or (invalid_input_type path) (or_detect in_type bytes))
    bitcode ← extract path ty bytes
    linked ← link_bitcode_buffer api context module_ref bitcode
    if not linked then fail (link_module_error path) else pure tt

  -- What the two matches on the result of `link_reader` make of it.
  abbrev pub member_result :
      FilePath → FilePath → Outcome LinkerError Unit → Outcome LinkerError Unit
  member_result path name (ok u) = ok tt
  member_result path name (err (invalid_input_type p)) = ok tt
  member_result path name (err (missing_bitcode_section p)) = ok tt
  member_result path name (err _) = err (link_archive_module_error path name)
  member_result path name panic = panic

  abbrev pub file_result : Outcome LinkerError Unit → Outcome LinkerError Unit
  file_result (ok u) = ok tt
  file_result (err (invalid_input_type p)) = ok tt
  file_result (err (missing_bitcode_section p)) = ok tt
  file_result r = r

  unfoldable pub link_member : FilePath → Member → Exec L LinkerError Unit
  link_member path item s =
      let (r, s') = link_reader item.identifier item.content none s in
      if is_utf8 item.identifier then (member_result path item.identifier r, s') else (panic, s)

  -- `while let Some(Ok(item)) = archive.next_entry()`: the loop ends at an entry that cannot be read.
  unfoldable pub link_members : FilePath → List (IoResult Member) → Exec L LinkerError Unit
  link_members path [] = pure tt
  link_members path (failed e ∷ entries) = pure tt
  link_members path (done item ∷ entries) = do link_member path item; link_members path entries

  -- The `match` on the type of a file.
  unfoldable pub link_typed : FilePath → InputFile → InputType → Exec L LinkerError Unit
  link_typed path file archive s = link_members path file.entries s
  link_typed path file ty s =
      let (r, s') = link_reader path file.content (some ty) s in (file_result r, s')

  unfoldable pub link_file : FilePath → InputFile → Exec L LinkerError Unit
  link_file path file = do
    header ← lift (io path file.header)
    lift (io path file.rewound)
    ty ← lift (ok_or (invalid_input_type path) (detect_input_type header))
    link_typed path file ty

  -- `File::open` is a parameter.
  module _ (open_file : FilePath → IoResult InputFile) where
    unfoldable pub link_modules : List FilePath → Exec L LinkerError Unit
    link_modules [] = pure tt
    link_modules (path ∷ inputs) = do
      file ← lift (io path (open_file path))
      link_file path file
      link_modules inputs
