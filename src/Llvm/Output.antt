-- ===== src/Llvm/Output.antt =====
-- llvm/mod.rs around a module: the start of LLVM, the module itself, and what is written of it.
pub mod Laws
use bpf_linker.Prelude.{ℕ, Bool, not, ◌==◌, Option, none, some, List, [], ◌∷◌, if◌then◌else◌, Text}
use bpf_linker.Outcome.{Exec, pure, abort, call, modify, ◌>>=◌, ◌>>◌}
use bpf_linker.Types.Api.{Ref}
use bpf_linker.Types.Ir.{has_nul}
use bpf_linker.Llvm.Api.{ObjectApi}
use bpf_linker.Llvm.Message.{drop_message, fail_with}

-- `LLVMCodeGenFileType`.
pub data FileType : Type 0 where
  assembly_file object_file : FileType

-- The calls of linker.rs itself and of the functions here.
pub record OutputApi (L : Type 0) : Type 0 where
  -- `LLVMInitializeBPF…`.
  pub initialize_bpf : L → L
  pub parse_command_line_options : List Text → Text → L → L
  pub context_create : L → Ref × L
  pub context_dispose : Ref → L → L
  pub context_set_diagnostic_handler : Ref → L → L
  pub install_fatal_error_handler : L → L
  pub enable_pretty_stack_trace : L → L
  pub module_create_with_name_in_context : Text → Ref → L → Ref × L
  pub dispose_module : Ref → L → L
  pub dispose_target_machine : Ref → L → L
  pub strip_module_debug_info : Ref → L → ℕ × L
  pub write_bitcode_to_file : Ref → Text → L → ℕ × L
  -- The returned code and the address of a message.
  pub print_module_to_file : Ref → Text → L → (ℕ × Ref) × L
  pub target_machine_emit_to_file : Ref → Ref → Text → FileType → L → (ℕ × Ref) × L

-- `CString::new(text).unwrap()`.
unfoldable pub c_string : {S E : Type 0} → Text → Exec S E Text
c_string text = if has_nul text then abort else pure text

unfoldable pub c_strings : {S E : Type 0} → List Text → Exec S E (List Text)
c_strings [] = pure []
c_strings (text ∷ texts) = do first ← c_string text; rest ← c_strings texts; pure (first ∷ rest)

module _ {L : Type 0} (api : OutputApi L) where
  unfoldable pub parse_command_line_options : {E : Type 0} → List Text → Text → Exec L E Unit
  parse_command_line_options args overview = do
    c_args ← c_strings args
    c_overview ← c_string overview
    modify (api.parse_command_line_options c_args c_overview)

  unfoldable pub init : {E : Type 0} → List Text → Text → Exec L E Unit
  init args overview = do modify api.initialize_bpf; parse_command_line_options args overview

  unfoldable pub create_module : {E : Type 0} → Text → Ref → Exec L E (Option Ref)
  create_module name context = do
    c_name ← c_string name
    m ← call (api.module_create_with_name_in_context c_name context)
    pure (if m == 0 then none else some m)

  unfoldable pub strip_debug_info : {E : Type 0} → Ref → Exec L E Bool
  strip_debug_info m = do changed ← call (api.strip_module_debug_info m); pure (not (changed == 0))

module _ {L : Type 0} (objects : ObjectApi L) (api : OutputApi L) where
  -- What is made of a returned code and a message.
  unfoldable pub checked : (L → (ℕ × Ref) × L) → Exec L Text Unit
  checked f = do
    r ← call f
    if r.0 == 0 then modify (drop_message objects r.1) else fail_with objects r.1

  unfoldable pub write_ir : Ref → Text → Exec L Text Unit
  write_ir m output = checked (api.print_module_to_file m output)

  unfoldable pub codegen : Ref → Ref → Text → FileType → Exec L Text Unit
  codegen tm m output output_type =
      checked (api.target_machine_emit_to_file tm m output output_type)
