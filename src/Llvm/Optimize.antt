-- ===== src/Llvm/Optimize.antt =====
-- `optimize`, `internalize` and the helpers of llvm/mod.rs: which symbols stay visible, and the
-- passes that run.
pub mod Symbols
use bpf_linker.Prelude.{
  ℕ, Bool, true, false, not, ◌||◌, ◌&&◌, Option, none, some, List, [], ◌∷◌, ◌++◌, ◌==◌,
  if◌then◌else◌, Text, codes, starts_with, is_utf8,
}
use bpf_linker.Outcome.{Exec, pure, fail, abort, assert, call, read, modify, ◌>>=◌, ◌>>◌}
use bpf_linker.Types.Api.{Ref}
use bpf_linker.Llvm.Api.{Bytes}
use bpf_linker.Linker.Options.{OptLevel, no_opt, less, default, aggressive, size, size_min}
use bpf_linker.Di.Linkage.{exports}

pub record OptimizeApi (L : Type 0) : Type 0 where
  -- Constants of the `llvm-sys` crate.
  pub internal_linkage : ℕ
  pub default_visibility : ℕ
  pub attribute_function_index : ℕ
  -- The inline assembly of a module, `none` for a null pointer.
  pub get_module_inline_asm : L → Ref → Option Bytes
  pub set_module_inline_asm : Ref → Bytes → L → L
  -- The values of a module, as the iterators of llvm/iter.rs yield them.
  pub globals : L → Ref → List Ref
  pub global_aliases : L → Ref → List Ref
  pub functions : L → Ref → List Ref
  pub value_name : L → Ref → Bytes
  pub set_linkage : Ref → ℕ → L → L
  pub set_visibility : Ref → ℕ → L → L
  pub get_enum_attribute_kind_for_name : Text → ℕ
  pub remove_enum_attribute_at_index : Ref → ℕ → ℕ → L → L
  pub create_pass_builder_options : L → Ref × L
  pub dispose_pass_builder_options : Ref → L → L
  -- The address of an error, 0 if there is none.
  pub run_passes : Ref → Text → Ref → Ref → L → Ref × L
  pub get_error_type_id : L → Ref → Ref
  pub get_string_error_type_id : Ref
  pub get_error_message : Ref → L → Ref × L
  pub dispose_error_message : Ref → L → L
  pub c_string : L → Ref → Bytes

abbrev pub llvm_prefix : Text
llvm_prefix = codes "llvm."

-- `str::contains`.
abbrev pub has_substring : Text → Text → Bool
has_substring p [] = starts_with [] p
has_substring p (c ∷ s) = starts_with (c ∷ s) p || has_substring p s

-- The pass pipeline of a level. `-O0` is an alias of `-O1`.
unfoldable pub pipeline : OptLevel → Text
pipeline no_opt = codes "default<O1>"
pipeline less = codes "default<O1>"
pipeline default = codes "default<O2>"
pipeline aggressive = codes "default<O3>"
pipeline size = codes "default<Os>"
pipeline size_min = codes "default<Oz>"

-- `passes.join(",")`.
unfoldable pub passes : OptLevel → Text
unfolding pipeline
passes opt_level = pipeline opt_level ++ (codes "," ++ codes "dce")

module _ {L : Type 0} (api : OptimizeApi L) where
  unfoldable pub module_asm_is_probestack : L → Ref → Bool
  module_asm_is_probestack s m = elim (api.get_module_inline_asm s m) [
    | none ↦ false
    | some asm ↦ has_substring (codes "__rust_probestack") asm
  ]

  -- `symbol_name`: it panics on a name that is not UTF-8.
  unfoldable pub symbol_name : {E : Type 0} → Ref → Exec L E Text
  symbol_name v = do
    name ← read (λ s. api.value_name s v)
    if is_utf8 name then pure name else abort

  unfoldable pub remove_attribute : Ref → Text → L → L
  remove_attribute f name =
      api.remove_enum_attribute_at_index f api.attribute_function_index
        (api.get_enum_attribute_kind_for_name name)

  unfoldable pub internalize : Ref → Text → List Text → L → L
  internalize v name export_symbols s =
      if not (starts_with name llvm_prefix) && not (exports export_symbols name)
      then api.set_visibility v api.default_visibility (api.set_linkage v api.internal_linkage s)
      else s

  -- The loops over the globals and over the aliases.
  unfoldable pub internalize_all : {E : Type 0} → List Text → List Ref → Exec L E Unit
  internalize_all export_symbols [] = pure tt
  internalize_all export_symbols (sym ∷ syms) = do
    name ← symbol_name sym
    modify (internalize sym name export_symbols)
    internalize_all export_symbols syms

  -- The body of the loop over the functions.
  unfoldable pub prepare_function : Bool → List Text → Ref → Text → L → L
  prepare_function ignore_inline_never export_symbols f name s =
      if not (starts_with name llvm_prefix)
      then internalize f name export_symbols
          (if ignore_inline_never then remove_attribute f (codes "noinline") s else s)
      else s

  unfoldable pub prepare_functions : {E : Type 0} → Bool → List Text → List Ref → Exec L E Unit
  prepare_functions ignore_inline_never export_symbols [] = pure tt
  prepare_functions ignore_inline_never export_symbols (f ∷ fs) = do
    name ← symbol_name f
    modify (prepare_function ignore_inline_never export_symbols f name)
    prepare_functions ignore_inline_never export_symbols fs

  unfoldable pub drop_probestack : Ref → L → L
  drop_probestack m s = if module_asm_is_probestack s m then api.set_module_inline_asm m [] s else s

  -- All that happens before the passes run.
  unfoldable pub prepare : {E : Type 0} → Ref → Bool → List Text → Exec L E Unit
  prepare m ignore_inline_never export_symbols = do
    modify (drop_probestack m)
    globals ← read (λ s. api.globals s m)
    internalize_all export_symbols globals
    aliases ← read (λ s. api.global_aliases s m)
    internalize_all export_symbols aliases
    functions ← read (λ s. api.functions s m)
    prepare_functions ignore_inline_never export_symbols functions

  -- The error of `LLVMRunPasses` as a text.
  unfoldable pub pass_error : Ref → Exec L Text Unit
  pass_error error = do
    id ← read (λ s. api.get_error_type_id s error)
    assert (id == api.get_string_error_type_id)
    message ← call (api.get_error_message error)
    text ← read (λ s. api.c_string s message)
    if is_utf8 text then (do modify (api.dispose_error_message message); fail text) else abort

  unfoldable pub run_passes : Ref → Ref → OptLevel → Exec L Text Unit
  run_passes tm m opt_level = do
    options ← call api.create_pass_builder_options
    error ← call (api.run_passes m (passes opt_level) tm options)
    modify (api.dispose_pass_builder_options options)
    if error == 0 then pure tt else pass_error error

  unfoldable pub optimize : Ref → Ref → OptLevel → Bool → List Text → Exec L Text Unit
  optimize tm m opt_level ignore_inline_never export_symbols = do
    prepare m ignore_inline_never export_symbols
    run_passes tm m opt_level
