-- ===== src/Di/Run/Returns.antt =====
-- The sanitizer's pass without a panic: the loops over the module's top level, and `run`.
use bpf_linker.Prelude.{ℕ, ◌≡◌, ◌≢◌, refl, List, map, All, Text}
use bpf_linker.Outcome.{Outcome, ok, err, panic, ◌>>=◌, ◌>>◌}
use bpf_linker.Types.Api.{Ref, Api}
use bpf_linker.Types.Laws.{MetadataLaws}
use bpf_linker.Types.Text.{TextLaws, Legible}
use bpf_linker.Di.Names.{DefaultHasher}
use bpf_linker.Di.Sanitizer.{Sanitizer, Stop, out_of_fuel, new, reading}
use bpf_linker.Di.Linkage.Exported.{SubprogramLaws}
use bpf_linker.Di.Linkage.Extends.{CreateLaws}
use bpf_linker.Di.Linkage.Attached.{Attached, AllApart, IsAttached}
use bpf_linker.Di.Linkage.Returns.{fix_subprogram_linkage_returns}
use bpf_linker.Di.Visit.{Item, global_variable, global_alias, function_item, Blocks, visit_item}
use bpf_linker.Di.Visit.Safe.{Fares, Safe, Safe-then}
use bpf_linker.Di.Visit.Fits.{Fits}
use bpf_linker.Di.Visit.Returns.{NoNull, map-Fits, Safe-visit_all, Fares-visit_item}
use bpf_linker.Di.Run.{set_replacements, module_of, dispose, visit_roots, visit_module, run}

-- No null pointer is among the globals, aliases and functions that LLVM lists.
pub record NoNullRoots {L : Type 0} (blocks : Blocks L) : Type 0 where
  pub globals-ne : (s : L) (m : Ref) → All (λ r. r ≢ 0) (blocks.globals s m)
  pub global_aliases-ne : (s : L) (m : Ref) → All (λ r. r ≢ 0) (blocks.global_aliases s m)
  pub functions-ne : (s : L) (m : Ref) → All (λ r. r ≢ 0) (blocks.functions s m)

module _ {L : Type 0} (hasher : DefaultHasher) (api : Api L) (blocks : Blocks L)
    (laws : MetadataLaws api) (texts : TextLaws api) (nonull : NoNull api blocks)
    (roots : NoNullRoots blocks) where
  Safe-visit_roots :
      (fuel : ℕ) (list : L → Ref → List Ref) (item : Ref → Item)
      → ((l : L) (m : Ref) → All (λ r. r ≢ 0) (list l m))
      → ((r : Ref) → r ≢ 0 → (s : Sanitizer L) → Fits hasher api blocks laws texts s (item r))
      → Safe api (visit_roots hasher api blocks fuel list item)
  unfolding visit_roots module_of reading ◌>>=◌
  Safe-visit_roots fuel list item other fits = record {
    at = λ s ready.
        (Safe-visit_all hasher api blocks laws texts nonull (visit_item hasher api blocks fuel)
            (Fares-visit_item hasher api blocks laws texts nonull fuel) _
            (map-Fits hasher api blocks laws texts item fits _ (other s.llvm s.module_ref))).at
          s ready;
  }

  pub Safe-visit_module : (fuel : ℕ) → Safe api (visit_module hasher api blocks fuel)
  unfolding visit_module
  Safe-visit_module fuel =
      Safe-then api _ _
        (Safe-visit_roots fuel blocks.globals global_variable roots.globals-ne (λ r h s. h))
        (Safe-then api _ _
          (Safe-visit_roots fuel blocks.global_aliases global_alias roots.global_aliases-ne
            (λ r h s. h))
          (Safe-visit_roots fuel blocks.functions function_item roots.functions-ne (λ r h s. h)))

  -- The disposal of the builder always returns.
  dispose-ne-panic :
      (r : Outcome Stop Unit) (t : Sanitizer L) (fuel : ℕ) (s : Sanitizer L)
      → visit_module hasher api blocks fuel s ≡ (r, t)
      → Fares api (r, t)
      → ((visit_module hasher api blocks fuel >> dispose hasher api blocks) s).0 ≢ panic
  unfolding dispose ◌>>◌ ◌>>=◌
  dispose-ne-panic (ok tt) t fuel s e fares stops = let h = (rw e at stops) in cc
  dispose-ne-panic (err out_of_fuel) t fuel s e fares stops = let h = (rw e at stops) in cc
  dispose-ne-panic panic t fuel s e fares stops = absurd fares

  -- The sanitizer's pass does not panic, whatever its fuel: no `unwrap`, `expect`, `panic!` or
  -- `assert!` in it fails, if the functions of the module are listed with their names and their
  -- subprograms, no function and no subprogram twice; if each subprogram that is to be replaced has a
  -- name and a scope; and if these names, the names of all subprograms, and the linkage names of
  -- those to be replaced are UTF-8.
  pub run-ne-panic :
      (creates : CreateLaws api) (subprograms : SubprogramLaws api) (fuel : ℕ) (es : List Text)
      (context module_ref : Ref) (l : L) (listed : List Attached)
      → let s = new api context module_ref l in
        blocks.functions s.llvm module_ref ≡ map (λ a. a.function) listed
        → Legible api s.llvm
        → All (IsAttached api es s.llvm) listed
        → AllApart listed
        → (run hasher api blocks fuel es s).0 ≢ panic
  unfolding run set_replacements new ◌>>=◌ ◌>>◌
  run-ne-panic creates subprograms fuel es context module_ref l listed same legible att apart
        stops =
      let s = new api context module_ref l in
      let (r, t, e, fit) =
        fix_subprogram_linkage_returns api es laws texts creates subprograms blocks.functions listed
          s same legible att apart in
      let s2 : Sanitizer L = record t { replace_operands = r } in
      let visited = visit_module hasher api blocks fuel s2 in
      dispose-ne-panic visited.0 visited.1 fuel s2 refl ((Safe-visit_module fuel).at s2 fit)
        (rw e at stops)
