-- ===== src/Tests/Stages.antt =====
-- A linker whose LLVM does nothing but write files.
use bpf_linker.Prelude.{
  is_utf8, ◌==◌, if◌then◌else◌, arith, ◌≡◌, refl, ◌⊎◌, true, false, none, some, [], ◌∷◌, codes,
  Text,
}
use bpf_linker.Types.Api.{Ref, Api}
use bpf_linker.Llvm.Api.{ObjectApi}
use bpf_linker.Llvm.Target.{TargetApi}
use bpf_linker.Llvm.Optimize.{OptimizeApi}
use bpf_linker.Linker.Options.{LinkerOptions, OutputType, v3, aggressive}
use bpf_linker.Linker.Modules.{done, failed}
use bpf_linker.Outcome.{ok, panic}
use bpf_linker.Llvm.Diagnostic.{DiagnosticApi, ds_error, ds_warning}
use bpf_linker.Linker.Diagnostics.{tolerated}
use bpf_linker.Linker.Diagnostics.Callback.{callbacks, callbacks_lem}
use bpf_linker.Linker.Link.{Environment, codegen, link_in}
use bpf_linker.Llvm.Output.{OutputApi, parse_command_line_options}
use bpf_linker.Llvm.Output.Laws.{parse_command_line_options_lem}
use bpf_linker.Linker.Link.Silent.{Silent, link_in_writes_last}
use bpf_linker.Tests.Memory.{Memory, pair_shape, memory_api, pair_memory, constant_hasher}

-- `text` holds the name of the file that was written last, at every address.
abbrev written : Text → Memory → Memory
written path s = record s { text = λ r. some path }

abbrev quiet_metadata : Api Memory
quiet_metadata = record (memory_api (pair_shape 0)) {
  replace_md_node_operand_with = λ v i m s. s;
  md_string_in_context = λ t s. (6, s);
  md_node_in_context = λ es s. (6, s);
}

abbrev quiet_objects : ObjectApi Memory
quiet_objects = record {
  create_memory_buffer_with_memory_range = λ b s. (20, s);
  dispose_memory_buffer = λ b s. s;
  create_binary = λ b c s. ((21, 0), s);
  dispose_binary = λ b s. s;
  object_file_copy_section_iterator = λ b s. (22, s);
  dispose_section_iterator = λ i s. s;
  sections = λ s i. [];
  c_string = λ s r. [];
  dispose_message = λ m s. s;
  parse_bitcode_in_context = λ c b s. ((0, 23), s);
  link_modules = λ m n s. (0, s);
}

abbrev quiet_targets : TargetApi Memory
quiet_targets = record {
  get_target = λ s m. codes "bpf";
  get_target_from_triple = λ t s. ((0, 30, 0), s);
  create_target_machine = λ target triple cpu features s. (31, s);
}

abbrev quiet_passes : OptimizeApi Memory
quiet_passes = record {
  internal_linkage = 8;
  default_visibility = 0;
  attribute_function_index = 1;
  get_module_inline_asm = λ s m. none;
  set_module_inline_asm = λ m a s. s;
  globals = λ s m. [];
  global_aliases = λ s m. [];
  functions = λ s m. 1 ∷ [];
  value_name = λ s v. codes "entry";
  set_linkage = λ v k s. s;
  set_visibility = λ v k s. s;
  get_enum_attribute_kind_for_name = λ name. 27;
  remove_enum_attribute_at_index = λ v i k s. s;
  create_pass_builder_options = λ s. (40, s);
  dispose_pass_builder_options = λ o s. s;
  run_passes = λ m p tm o s. (0, s);
  get_error_type_id = λ s e. 0;
  get_string_error_type_id = 0;
  get_error_message = λ e s. (41, s);
  dispose_error_message = λ e s. s;
  c_string = λ s r. [];
}

abbrev writing_output : OutputApi Memory
writing_output = record {
  initialize_bpf = λ s. s;
  parse_command_line_options = λ args overview s. s;
  context_create = λ s. (50, s);
  context_dispose = λ c s. s;
  context_set_diagnostic_handler = λ c s. s;
  install_fatal_error_handler = λ s. s;
  enable_pretty_stack_trace = λ s. s;
  module_create_with_name_in_context = λ name c s. (51, s);
  dispose_module = λ m s. s;
  dispose_target_machine = λ tm s. s;
  strip_module_debug_info = λ m s. (1, s);
  write_bitcode_to_file = λ m path s. (0, written path s);
  print_module_to_file = λ m path s. ((0, 0), written path s);
  target_machine_emit_to_file = λ tm m path ty s. ((0, 0), written path s);
}

abbrev writing_environment : Environment Memory
writing_environment = record {
  files = record { open_file = λ path. failed (codes "missing"); create_dir_all = λ path. done tt };
  hasher = constant_hasher;
  metadata = quiet_metadata;
  blocks = record {
    instructions = λ s f. [];
    globals = λ s m. [];
    global_aliases = λ s m. [];
    functions = λ s m. [];
  };
  objects = quiet_objects;
  targets = quiet_targets;
  passes = quiet_passes;
  output = writing_output;
}

-- No file has been written.
abbrev IsUnwritten : Memory → Type 0
IsUnwritten s = s.text 0 ≡ none

writing_silent : Silent writing_environment IsUnwritten
writing_silent = record {
  of_objects = record {
    of_buffer = λ b l h. h;
    of_dispose_buffer = λ b l h. h;
    of_binary = λ b c l h. h;
    of_dispose_binary = λ b l h. h;
    of_iterator = λ b l h. h;
    of_dispose_iterator = λ i l h. h;
    of_dispose_message = λ m l h. h;
    of_parse = λ c b l h. h;
    of_link = λ m n l h. h;
  };
  of_targets = record { of_target = λ t l h. h; of_machine = λ target triple cpu features l h. h };
  of_metadata = record {
    stable = record {
      of_replace = λ v i m l place h. h;
      of_node = λ es l h. h;
      of_create = λ b args l h. h;
      of_finalize = λ b p l h. h;
    };
    of_replace = λ v i m l h. h;
    of_string = λ t l h. h;
    of_operand = λ v i x l h. h;
    of_subprogram = λ f p l h. h;
    of_builder = λ m l h. h;
    of_dispose = λ b l h. h;
  };
  of_passes = record {
    of_asm = λ m a l h. h;
    of_linkage = λ v k l h. h;
    of_visibility = λ v k l h. h;
    of_attribute = λ v i k l h. h;
    of_options = λ l h. h;
    of_dispose_options = λ o l h. h;
    of_passes = λ m p tm o l h. h;
    of_error = λ e l h. h;
    of_dispose_error = λ e l h. h;
  };
  of_strip = λ m l h. h;
}

abbrev strip_options : LinkerOptions
strip_options = record {
  target = none;
  cpu = v3;
  cpu_features = [];
  inputs = [];
  output = codes "out.o";
  output_type = OutputType.object;
  libs = [];
  optimize = aggressive;
  export_symbols = [];
  unroll_loops = false;
  ignore_inline_never = true;
  dump_module = none;
  llvm_args = [];
  disable_expand_memcpy_in_order = false;
  disable_memory_builtins = false;
  btf = true;
}

link_in_writes_last_example :
    IsUnwritten (link_in writing_environment strip_options 50 51 pair_memory).1
    ⊎ ((tm : Ref) × (t : Memory) × IsUnwritten t
        × (link_in writing_environment strip_options 50 51 pair_memory
            ≡ codegen writing_environment strip_options tm 51 t))
link_in_writes_last_example =
    link_in_writes_last writing_environment IsUnwritten writing_silent strip_options 50 51
      pair_memory refl refl

-- Diagnostic 70 is an error and 71 a warning, each described by a message at the address 60.
abbrev described : Ref → Memory → Ref × Memory
described info s =
    (60, record s { text = λ r. some (if info == 70 then codes "stack limit" else codes "unused") })

abbrev diagnostics : DiagnosticApi Memory
diagnostics = record {
  get_diag_info_severity = λ s info. if info == 70 then ds_error else ds_warning;
  get_diag_info_description = described;
}

abbrev text_objects : ObjectApi Memory
text_objects = record quiet_objects { c_string = λ s r. elim (s.text r) [ none ↦ [] | some t ↦ t ] }

callbacks_lem_example :
    callbacks text_objects diagnostics {E = Unit} (71 ∷ 70 ∷ []) (false, pair_memory)
    ≡ (ok tt, (true, (described 70 (described 71 pair_memory).1).1))
unfolding is_utf8 tolerated
callbacks_lem_example =
    callbacks_lem text_objects diagnostics (71 ∷ 70 ∷ [])
      (record { severity = ds_warning; message = codes "unused" }
        ∷ record { severity = ds_error; message = codes "stack limit" }
        ∷ [])
      false pair_memory (described 70 (described 71 pair_memory).1).1
      (refl, ground arith, refl, refl, (refl, ground arith, refl, refl, refl))

parse_command_line_options_example :
    parse_command_line_options writing_output {E = Unit}
      ((97 ∷ 0 ∷ []) ∷ [])
      (codes "BPF linker")
      pair_memory
    ≡ (panic, pair_memory)
parse_command_line_options_example =
    parse_command_line_options_lem writing_output ((97 ∷ 0 ∷ []) ∷ []) (codes "BPF linker")
      pair_memory
