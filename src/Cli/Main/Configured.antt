-- ===== src/Cli/Main/Configured.antt =====
-- The linker's options and the command line of bin/bpf-linker.rs.
use bpf_linker.Prelude.{◌≡◌, refl, ap, some, List, [], ◌∷◌, ◌++◌, Text}
use bpf_linker.Linker.Options.{OptLevel, OutputType, LinkerOptions}
use bpf_linker.Cli.Main.{CommandLine, first, last, linker_options}

-- The linker's options are the command line's of the same name, with the first output type and the
-- last level.
pub record Configured (c : CommandLine) (o : LinkerOptions) : Type 0 where
  pub target : o.target ≡ c.target
  pub cpu : o.cpu ≡ c.cpu
  pub cpu_features : o.cpu_features ≡ c.cpu_features
  pub inputs : o.inputs ≡ c.inputs
  pub output : o.output ≡ c.output
  pub output_type : (rest : List OutputType) × (c.emit ≡ o.output_type ∷ rest)
  pub libs : o.libs ≡ c.libs
  pub optimize : (before : List OptLevel) × (c.optimize ≡ before ++ o.optimize ∷ [])
  pub unroll_loops : o.unroll_loops ≡ c.unroll_loops
  pub ignore_inline_never : o.ignore_inline_never ≡ c.ignore_inline_never
  pub dump_module : o.dump_module ≡ c.dump_module
  pub llvm_args : o.llvm_args ≡ c.llvm_args
  pub no_expansion : o.disable_expand_memcpy_in_order ≡ c.disable_expand_memcpy_in_order
  pub no_builtins : o.disable_memory_builtins ≡ c.disable_memory_builtins
  pub btf : o.btf ≡ c.btf

first-some :
    (es : List OutputType) (e : OutputType)
    → first es ≡ some e
    → (rest : List OutputType) × (es ≡ e ∷ rest)
first-some [] e h = cc
first-some (e' ∷ es) e h = (es, let same : e' ≡ e = cc in ap (λ x. x ∷ es) same)

last-some :
    (ls : List OptLevel) (l : OptLevel)
    → last ls ≡ some l
    → (before : List OptLevel) × (ls ≡ before ++ l ∷ [])
last-some [] l h = cc
last-some (k ∷ []) l h = ([], let same : k ≡ l = cc in ap (λ x. x ∷ []) same)
last-some (k ∷ k' ∷ ls) l h =
    let (before, e) = last-some (k' ∷ ls) l h in (k ∷ before, ap (λ x. k ∷ x) e)

pub last-end : (before : List OptLevel) (l : OptLevel) → last (before ++ l ∷ []) ≡ some l
last-end [] l = refl
last-end (k ∷ []) l = refl
last-end (k ∷ k' ∷ before) l = last-end (k' ∷ before) l

pub Configured-linker_options :
    (c : CommandLine) (o : LinkerOptions)
    → Configured c o
    → o ≡ linker_options c o.export_symbols o.output_type o.optimize
unfolding linker_options
Configured-linker_options c o h i = record {
  target = h.target i;
  cpu = h.cpu i;
  cpu_features = h.cpu_features i;
  inputs = h.inputs i;
  output = h.output i;
  output_type = o.output_type;
  libs = h.libs i;
  optimize = o.optimize;
  export_symbols = o.export_symbols;
  unroll_loops = h.unroll_loops i;
  ignore_inline_never = h.ignore_inline_never i;
  dump_module = h.dump_module i;
  llvm_args = h.llvm_args i;
  disable_expand_memcpy_in_order = h.no_expansion i;
  disable_memory_builtins = h.no_builtins i;
  btf = h.btf i;
}

pub linker_options-Configured :
    (c : CommandLine) (names : List Text) (e : OutputType) (l : OptLevel)
    → first c.emit ≡ some e
    → last c.optimize ≡ some l
    → Configured c (linker_options c names e l)
unfolding linker_options
linker_options-Configured c names e l emits levels = record {
  target = refl;
  cpu = refl;
  cpu_features = refl;
  inputs = refl;
  output = refl;
  output_type = first-some c.emit e emits;
  libs = refl;
  optimize = last-some c.optimize l levels;
  unroll_loops = refl;
  ignore_inline_never = refl;
  dump_module = refl;
  llvm_args = refl;
  no_expansion = refl;
  no_builtins = refl;
  btf = refl;
}
