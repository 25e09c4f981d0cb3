-- ===== src/Tests/Objects.antt =====
-- An object file with one section of bitcode, and one that LLVM does not open.
use bpf_linker.Prelude.{
  ℕ, suc, ◌-◌, ◌≡◌, ◌≢◌, refl, Bool, true, false, none, some, [], ◌∷◌, arith, if◌then◌else◌, Text,
  codes, is_utf8,
}
use bpf_linker.Outcome.{ok, err, ◌>>=◌, ◌>>◌}
use bpf_linker.Llvm.Message.{fail_with}
use bpf_linker.Llvm.Api.{ObjectApi}
use bpf_linker.Llvm.Object.{find_embedded_bitcode, link_bitcode_buffer}
use bpf_linker.Llvm.Object.Laws.{
  BufferLaws, Leaves, find_embedded_bitcode_lem, live-link_bitcode_buffer,
  find_embedded_bitcode-Leaves,
}

-- The state is the number of live buffers. `opens` is whether LLVM opens an object file.
abbrev pub objects : Bool → ObjectApi ℕ
objects opens = record {
  create_memory_buffer_with_memory_range = λ b s. (1, suc s);
  dispose_memory_buffer = λ r s. s - 1;
  create_binary = λ b c s. (if opens then (2, 0) else (0, 3), s);
  dispose_binary = λ r s. s;
  object_file_copy_section_iterator = λ r s. (4, s);
  dispose_section_iterator = λ r s. s;
  sections = λ s r.
      record { name = none; contents = [] }
      ∷ record { name = some (codes ".llvmbc"); contents = codes "BC" }
      ∷ [];
  c_string = λ s r. codes "The file was not recognized as a valid object file";
  dispose_message = λ r s. s;
  parse_bitcode_in_context = λ c b s. ((0, 5), s);
  link_modules = λ m t s. (0, s);
}

object_laws : (opens : Bool) → BufferLaws (objects opens) (λ s. s)
object_laws opens = record {
  live-create = λ b s. refl;
  live-dispose = λ r s. refl;
  live-create_binary = λ b c s. refl;
  live-dispose_binary = λ r s. refl;
  live-copy_iterator = λ r s. refl;
  live-dispose_iterator = λ r s. refl;
  live-dispose_message = λ r s. refl;
  live-parse = λ c b s. refl;
  live-link = λ m t s. refl;
}

is_open : ◌≢◌ {A = ℕ} 2 0
is_open h = ground arith

section_names : is_utf8 (codes ".llvmbc") ≡ true
unfolding is_utf8
section_names = refl

find_embedded_bitcode_example :
    (find_embedded_bitcode (objects true) 50 (codes "ELF") 0).0 ≡ ok (some (codes "BC"))
find_embedded_bitcode_example =
    find_embedded_bitcode_lem (objects true) 50 (codes "ELF") 0 is_open (tt, (section_names, tt))

-- One buffer is left behind.
find_embedded_bitcode-Leaves_example :
    Leaves
      (objects false)
      (λ s. s)
      (object_laws false)
      0
      (find_embedded_bitcode (objects false) 50 (codes "ELF") 0)
find_embedded_bitcode-Leaves_example =
    find_embedded_bitcode-Leaves (objects false) (λ s. s) (object_laws false) 50 (codes "ELF") 0

leak_test :
    (find_embedded_bitcode (objects false) 50 (codes "ELF") 0)
    ≡ (err (codes "The file was not recognized as a valid object file"), 1)
unfolding find_embedded_bitcode is_utf8 ◌>>=◌ fail_with ◌>>◌
leak_test = refl

live-link_bitcode_buffer_example :
    (link_bitcode_buffer (objects true) {E = Text} 50 51 (codes "BC") 3).1 ≡ 3
live-link_bitcode_buffer_example =
    live-link_bitcode_buffer (objects true) (λ s. s) (object_laws true) Text 50 51 (codes "BC") 3
