-- ===== src/Linker/Link.antt =====
-- `Linker::link` of linker.rs and the stages that it runs.
pub mod Silent
use bpf_linker.Prelude.{
  ℕ, ◌+◌, ◌^◌, not, Option, none, some, List, [], ◌∷◌, ◌++◌, ◌==◌, if◌then◌else◌, Text, codes,
  is_utf8,
}
use bpf_linker.Outcome.{
  Outcome, ok, err, panic, Exec, pure, fail, abort, lift, unwrap, call, modify, map_err, ◌>>=◌,
  ◌>>◌,
}
use bpf_linker.Paths.{file_stem, join}
use bpf_linker.Types.Api.{Ref, Api}
use bpf_linker.Types.Ir.{has_nul}
use bpf_linker.Di.Names.{DefaultHasher}
use bpf_linker.Di.Sanitizer.{Stop, out_of_fuel, new}
use bpf_linker.Di.Visit.{Blocks}
use bpf_linker.Di.Run.{run}
use bpf_linker.Llvm.Api.{ObjectApi}
use bpf_linker.Llvm.Message.{drop_message, fail_with}
use bpf_linker.Llvm.Target.{TargetApi}
use bpf_linker.Llvm.Output
use bpf_linker.Llvm.Output.{
  FileType, assembly_file, object_file, OutputApi, c_string, init, create_module, strip_debug_info,
}
use bpf_linker.Llvm.Optimize
use bpf_linker.Llvm.Optimize.{OptimizeApi}
use bpf_linker.Linker.Options.{
  FilePath, LinkerError, optimize_error, emit_code_error, write_bitcode_error, write_ir_error,
  LinkerOptions, OutputType, assembly, llvm_assembly, object,
}
use bpf_linker.Linker.Args.{llvm_command_line}
use bpf_linker.Linker.Modules
use bpf_linker.Linker.Modules.{IoResult, InputFile, io}
use bpf_linker.Linker.TargetMachine.{create_target_machine}

-- What the operating system offers.
pub record FileSystem : Type 0 where
  pub open_file : FilePath → IoResult InputFile
  pub create_dir_all : FilePath → IoResult Unit

-- All of LLVM, and the hash function of the standard library.
pub record Environment (L : Type 0) : Type 0 where
  pub files : FileSystem
  pub hasher : DefaultHasher
  pub metadata : Api L
  pub blocks : Blocks L
  pub objects : ObjectApi L
  pub targets : TargetApi L
  pub passes : OptimizeApi L
  pub output : OutputApi L

-- More than there are addresses of 64 bits: enough for `visit_item`.
abbrev pub visit_fuel : ℕ
visit_fuel = 2 ^ 64 + 1

abbrev pub memory_builtins : List Text
memory_builtins =
    codes "memcpy" ∷ codes "memmove" ∷ codes "memset" ∷ codes "memcmp" ∷ codes "bcmp" ∷ []

-- The set of exported symbols that `optimize` works with.
unfoldable pub exported : LinkerOptions → List Text
exported options =
    if not options.disable_memory_builtins
    then options.export_symbols ++ memory_builtins
    else options.export_symbols

module _ {L : Type 0} (env : Environment L) where
  -- The body of `llvm_init`, which yields the context and the module.
  unfoldable pub llvm_init : LinkerOptions → Exec L LinkerError (Ref × Ref)
  llvm_init options = do
    init env.output (llvm_command_line options) (codes "BPF linker")
    context ← call env.output.context_create
    modify (env.output.context_set_diagnostic_handler context)
    modify env.output.install_fatal_error_handler
    modify env.output.enable_pretty_stack_trace
    stem ← unwrap (file_stem options.output)
    name ← (if is_utf8 stem then pure stem else abort)
    created ← create_module env.output name context
    m ← unwrap created
    pure (context, m)

  unfoldable pub write_ir : Ref → Text → Exec L LinkerError Unit
  write_ir m output = map_err write_ir_error (Output.write_ir env.objects env.output m output)

  unfoldable pub write_bitcode : Ref → Text → Exec L LinkerError Unit
  write_bitcode m output = do
    r ← call (env.output.write_bitcode_to_file m output)
    if r == 1 then fail write_bitcode_error else pure tt

  unfoldable pub emit : Ref → Ref → Text → FileType → Exec L LinkerError Unit
  emit tm m output ty =
      map_err emit_code_error (Output.codegen env.objects env.output tm m output ty)

  -- The match on the output type.
  unfoldable pub generate : Ref → Ref → Text → OutputType → Exec L LinkerError Unit
  generate tm m output OutputType.bitcode = write_bitcode m output
  generate tm m output llvm_assembly = write_ir m output
  generate tm m output assembly = emit tm m output assembly_file
  generate tm m output object = emit tm m output object_file

  unfoldable pub codegen : LinkerOptions → Ref → Ref → Exec L LinkerError Unit
  codegen options tm m = do
    output ← (if is_utf8 options.output then c_string options.output else abort)
    generate tm m output options.output_type

  -- `DISanitizer::new(…).run(…)`. Its fuel is enough for every address.
  abbrev pub sanitized : Outcome Stop Unit → Outcome LinkerError Unit
  sanitized (ok u) = ok tt
  sanitized (err out_of_fuel) = panic
  sanitized panic = panic

  unfoldable pub sanitize : Ref → Ref → List Text → Exec L LinkerError Unit
  sanitize context m export_symbols s =
      let (r, t) =
        run env.hasher env.metadata env.blocks visit_fuel export_symbols
          (new env.metadata context m s) in
      (sanitized r, t.llvm)

  unfoldable pub strip : Ref → Exec L LinkerError Unit
  strip m = do changed ← strip_debug_info env.output m; pure tt

  unfoldable pub optimize : LinkerOptions → Ref → Ref → Ref → Exec L LinkerError Unit
  optimize options context m tm = do
    if options.btf then sanitize context m (exported options) else strip m
    map_err optimize_error (
        Optimize.optimize env.passes tm m options.optimize options.ignore_inline_never
          (exported options))

  -- One of the two dumps of the module's IR.
  unfoldable pub dump : Option FilePath → Ref → Text → Exec L LinkerError Unit
  dump none m name = pure tt
  dump (some path) m name = do output ← c_string (join path name); write_ir m output

  unfoldable pub create_dump_dir : Option FilePath → Exec L LinkerError Unit
  create_dump_dir none = pure tt
  create_dump_dir (some path) = lift (io path (env.files.create_dir_all path))

  -- What follows `llvm_init`.
  unfoldable pub link_in : LinkerOptions → Ref → Ref → Exec L LinkerError Unit
  link_in options context m = do
    Modules.link_modules env.objects context m env.files.open_file options.inputs
    tm ←
        create_target_machine env.objects env.targets m options.target options.cpu
          options.cpu_features
    create_dump_dir options.dump_module
    dump options.dump_module m (codes "pre-opt.ll")
    optimize options context m tm
    dump options.dump_module m (codes "post-opt.ll")
    codegen options tm m

  unfoldable pub link : LinkerOptions → Exec L LinkerError Unit
  link options = do r ← llvm_init options; link_in options r.0 r.1

  -- `Drop`: what was created is disposed of, the target machine first and the context last.
  unfoldable pub drop : Ref → Ref → Ref → L → L
  drop context m tm s =
      let s = if tm == 0 then s else env.output.dispose_target_machine tm s in
      let s = if m == 0 then s else env.output.dispose_module m s in
      if context == 0 then s else env.output.context_dispose context s
