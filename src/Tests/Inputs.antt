-- ===== src/Tests/Inputs.antt =====
-- Inputs of each type, and archives.
use bpf_linker.Prelude.{
  ◌≡◌, ◌≤◌, ◌↔◌, inl, refl, true, none, some, List, [], ◌∷◌, ◌++◌, if◌then◌else◌, codes, is_utf8,
  length, take, text_eq,
}
use bpf_linker.Outcome.{ok, err, panic, pure, ◌>>◌}
use bpf_linker.Llvm.Api.{Bytes}
use bpf_linker.Linker.Options.{FilePath, link_archive_module_error, InputType, archive}
use bpf_linker.Linker.InputType.{detect_input_type, Starts, detect_input_type_iff}
use bpf_linker.Linker.Modules.{
  IoResult, done, failed, Member, InputFile, link_reader, link_member, link_members, link_modules,
}
use bpf_linker.Linker.Modules.Errors.{
  link_members_skip, link_members_nested, link_members_truncated, AboutMember, link_members_errors,
}
use bpf_linker.Linker.Modules.Order.{HasBytes, link_buffers, link_modules_bitcode}
use bpf_linker.Tests.Objects.{objects}

abbrev bitcode_file : Bytes
bitcode_file = b'B' ∷ b'C' ∷ 192 ∷ 222 ∷ 53 ∷ 20 ∷ 0 ∷ 0 ∷ 5 ∷ []

abbrev metadata_file : Bytes
metadata_file = codes "rust metadata"

abbrev archive_file : Bytes
archive_file = codes "!<arch>" ++ 10 ∷ codes "/"

detect_test :
    (detect_input_type bitcode_file ≡ some InputType.bitcode)
    × (detect_input_type metadata_file ≡ none)
    × (detect_input_type archive_file ≡ some archive)
unfolding detect_input_type
detect_test = (refl, refl, refl)

detect_input_type_iff_example :
    (detect_input_type bitcode_file ≡ some InputType.bitcode)
    ↔ ((8 ≤ length bitcode_file) × Starts InputType.bitcode bitcode_file)
detect_input_type_iff_example = detect_input_type_iff bitcode_file InputType.bitcode

abbrev member_of : Bytes → Member
member_of bytes = record { identifier = codes "lib.rmeta"; content = done bytes }

abbrev unreadable_member : Member
unreadable_member = record { identifier = codes "lib.rmeta"; content = failed (codes "eof") }

is_named : is_utf8 (codes "lib.rmeta") ≡ true
unfolding is_utf8
is_named = refl

link_members_skip_example :
    link_members
      (objects true)
      50
      51
      (codes "a.rlib")
      (done (member_of bitcode_file)
        ∷ done (member_of metadata_file)
        ∷ done (member_of bitcode_file)
        ∷ [])
      0
    ≡ link_members
        (objects true)
        50
        51
        (codes "a.rlib")
        (done (member_of bitcode_file) ∷ done (member_of bitcode_file) ∷ [])
        0
link_members_skip_example =
    link_members_skip (objects true) 50 51 (codes "a.rlib") (done (member_of bitcode_file) ∷ [])
      (member_of metadata_file) metadata_file (done (member_of bitcode_file) ∷ []) 0 is_named refl
      (inl detect_test.1)

nothing_test : link_members (objects true) 50 51 (codes "a.rlib") [] 0 ≡ (ok tt, 0)
unfolding link_members pure
nothing_test = refl

link_members_nested_example :
    link_members
      (objects true)
      50
      51
      (codes "a.rlib")
      (done (member_of archive_file) ∷ done (member_of bitcode_file) ∷ [])
      0
    ≡ (panic, 0)
link_members_nested_example =
    link_members_nested (objects true) 50 51 (codes "a.rlib") [] (member_of archive_file)
      archive_file (done (member_of bitcode_file) ∷ []) 0 0 tt nothing_test is_named refl
      detect_test.2

link_members_truncated_example :
    link_members
      (objects true)
      50
      51
      (codes "a.rlib")
      (failed (codes "bad header") ∷ done (member_of bitcode_file) ∷ [])
      0
    ≡ link_members (objects true) 50 51 (codes "a.rlib") [] 0
link_members_truncated_example =
    link_members_truncated (objects true) 50 51 (codes "a.rlib") [] (codes "bad header")
      (done (member_of bitcode_file) ∷ []) 0

abbrev two_members : List (IoResult Member)
two_members = done (member_of metadata_file) ∷ done unreadable_member ∷ []

unreadable_test :
    (link_members (objects true) 50 51 (codes "a.rlib") two_members 0).0
    ≡ err (link_archive_module_error (codes "a.rlib") (codes "lib.rmeta"))
unfolding link_members is_utf8 ◌>>◌ link_member link_reader detect_input_type
unreadable_test = refl

link_members_errors_example :
    AboutMember
      (objects true)
      50
      51
      (codes "a.rlib")
      two_members
      0
      (link_archive_module_error (codes "a.rlib") (codes "lib.rmeta"))
link_members_errors_example =
    link_members_errors (objects true) 50 51 (codes "a.rlib") two_members 0
      (link_archive_module_error (codes "a.rlib") (codes "lib.rmeta")) unreadable_test

abbrev one_file : InputFile
one_file = record {
  header = done (take 8 bitcode_file);
  rewound = done tt;
  content = done bitcode_file;
  entries = [];
}

abbrev open_file : FilePath → IoResult InputFile
open_file path =
    if text_eq path (codes "a.bc") then done one_file else failed (codes "no such file")

abbrev inputs : List (FilePath × Bytes)
inputs = (codes "a.bc", bitcode_file) ∷ (codes "a.bc", bitcode_file) ∷ []

one_file_bytes : HasBytes one_file bitcode_file
one_file_bytes = record { header = refl; rewound = refl; content = refl }

link_modules_bitcode_example :
    link_modules (objects true) 50 51 open_file (codes "a.bc" ∷ codes "a.bc" ∷ []) 0
    ≡ link_buffers (objects true) 50 51 inputs 0
link_modules_bitcode_example = link_modules_bitcode (objects true) 50 51 open_file inputs 0 (
  (one_file, refl, one_file_bytes, detect_test.0),
  ((one_file, refl, one_file_bytes, detect_test.0), tt),
)
