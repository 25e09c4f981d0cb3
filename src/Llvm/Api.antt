-- ===== src/Llvm/Api.antt =====
-- What llvm/mod.rs calls of LLVM's C interface. `L` is everything that LLVM owns; the calls are
-- parameters, without their prefix `LLVM`.
use bpf_linker.Prelude.{ℕ, Option, List}
use bpf_linker.Types.Api.{Ref}

abbrev pub Bytes : Type 0
Bytes = List ℕ

-- A section of an object file: its name as a C string, `none` for a null pointer, and its bytes.
pub record Section : Type 0 where
  pub name : Option Bytes
  pub contents : Bytes

pub record ObjectApi (L : Type 0) : Type 0 where
  pub create_memory_buffer_with_memory_range : Bytes → L → Ref × L
  pub dispose_memory_buffer : Ref → L → L
  -- The binary and the address of an error message; 0 is null for both.
  pub create_binary : Ref → Ref → L → (Ref × Ref) × L
  pub dispose_binary : Ref → L → L
  pub object_file_copy_section_iterator : Ref → L → Ref × L
  pub dispose_section_iterator : Ref → L → L
  -- The sections that the iterator passes until it is at its end.
  pub sections : L → Ref → List Section
  -- The C string at an address.
  pub c_string : L → Ref → Bytes
  pub dispose_message : Ref → L → L
  pub parse_bitcode_in_context : Ref → Ref → L → (ℕ × Ref) × L
  pub link_modules : Ref → Ref → L → ℕ × L
