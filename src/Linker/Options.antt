-- ===== src/Linker/Options.antt =====
-- The data types of linker.rs.
use bpf_linker.Prelude.{Bool, Option, List, Text}

-- A path, as its bytes.
abbrev pub FilePath : Type 0
FilePath = Text

-- `io::Error`, by its message.
abbrev pub IoError : Type 0
IoError = Text

pub data LinkerError : Type 0 where
  invalid_cpu invalid_target : Text → LinkerError
  io_error : FilePath → IoError → LinkerError
  invalid_input_type link_module_error : FilePath → LinkerError
  link_archive_module_error : FilePath → FilePath → LinkerError
  optimize_error emit_code_error : Text → LinkerError
  write_bitcode_error : LinkerError
  write_ir_error embedded_bitcode_error : Text → LinkerError
  missing_bitcode_section : FilePath → LinkerError

pub data Cpu : Type 0 where
  generic probe v1 v2 v3 : Cpu

pub data OptLevel : Type 0 where
  no_opt less default aggressive size size_min : OptLevel

pub data InputType : Type 0 where
  bitcode elf mach_o archive : InputType

pub data OutputType : Type 0 where
  bitcode assembly llvm_assembly object : OutputType

pub record LinkerOptions : Type 0 where
  pub target : Option Text
  pub cpu : Cpu
  pub cpu_features : Text
  pub inputs : List FilePath
  pub output : FilePath
  pub output_type : OutputType
  pub libs : List FilePath
  pub optimize : OptLevel
  pub export_symbols : List Text
  pub unroll_loops : Bool
  pub ignore_inline_never : Bool
  pub dump_module : Option FilePath
  pub llvm_args : List Text
  pub disable_expand_memcpy_in_order : Bool
  pub disable_memory_builtins : Bool
  pub btf : Bool
