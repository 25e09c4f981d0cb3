-- ===== src/Di/Run.antt =====
-- `DISanitizer::run` of llvm/di.rs.
pub mod Ends
pub mod Marks
pub mod Keeps
pub mod Top
pub mod Closed
pub mod Reach
pub mod Returns
pub mod Total
use bpf_linker.Prelude.{ℕ, List, [], ◌∷◌, ◌++◌, map, Text}
use bpf_linker.Outcome.{Outcome, ok, Exec, pure, ◌>>=◌, ◌>>◌}
use bpf_linker.Types.Api.{Ref, Api}
use bpf_linker.Di.Names.{DefaultHasher}
use bpf_linker.Di.Sanitizer.{Sanitizer, Visit, reading, changing}
use bpf_linker.Di.Visit.{
  Item, global_variable, global_alias, function_item, Blocks, visit_all, visit_item,
}
use bpf_linker.Di.Linkage.{Replacements, fix_subprogram_linkage}

module _ {L : Type 0} (hasher : DefaultHasher) (api : Api L) (blocks : Blocks L) where
  unfoldable pub set_replacements : Replacements → Visit L Unit
  set_replacements m s = (ok tt, record s { replace_operands = m })

  unfoldable pub module_of : Visit L Ref
  module_of s = (ok s.module_ref, s)

  -- `LLVMDisposeDIBuilder`.
  unfoldable pub dispose : Visit L Unit
  dispose s = (ok tt, record s { llvm = api.dispose_di_builder s.builder s.llvm })

  -- One of the three loops over the module's top level.
  unfoldable pub visit_roots : ℕ → (L → Ref → List Ref) → (Ref → Item) → Visit L Unit
  visit_roots fuel list item = do
    m ← module_of
    refs ← reading (λ s. list s m)
    visit_all hasher api blocks (visit_item hasher api blocks fuel) (map item refs)

  -- The three loops, in their order.
  unfoldable pub visit_module : ℕ → Visit L Unit
  visit_module fuel = do
    visit_roots fuel blocks.globals global_variable
    visit_roots fuel blocks.global_aliases global_alias
    visit_roots fuel blocks.functions function_item

  unfoldable pub run : ℕ → List Text → Visit L Unit
  run fuel exported_symbols = do
    m ← fix_subprogram_linkage api blocks.functions exported_symbols
    set_replacements m
    visit_module fuel
    dispose
