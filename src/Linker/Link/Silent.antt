-- ===== src/Linker/Link/Silent.antt =====
-- The stages of `Linker::link` before the last one, and a property of LLVM's state that no call but
-- those that write files affects.
use bpf_linker.Prelude.{◌≡◌, refl, ◌⊎◌, inl, inr, Option, none, some, List, Text}
use bpf_linker.Outcome.{Outcome, ok, err, panic, Exec, continue, ◌>>=◌, ◌>>◌}
use bpf_linker.Outcome.Keeps.{
  Keeps, Keeps-then, Keeps-if, Keeps-pure, Keeps-map_err, Keeps-lift, keeps_rules,
}
use bpf_linker.Types.Api.{Ref}
use bpf_linker.Llvm.Keeps.{ObjectKeeps, TargetKeeps, PassKeeps, Keeps-optimize}
use bpf_linker.Linker.Options.{FilePath, LinkerError, LinkerOptions}
use bpf_linker.Di.Node.Keeps.{MetadataKeeps}
use bpf_linker.Di.Run.Keeps.{run-Holds}
use bpf_linker.Llvm.Output.{strip_debug_info}
use bpf_linker.Linker.Keeps.{Keeps-link_modules, Keeps-machine}
use bpf_linker.Linker.Link.{
  Environment, visit_fuel, sanitize, strip, optimize, dump, create_dump_dir, codegen, link_in,
}

-- The calls that do not write a file keep the property.
pub record Silent {L : Type 0} (env : Environment L) (P : L → Type 0) : Type 0 where
  pub of_objects : ObjectKeeps env.objects P
  pub of_targets : TargetKeeps env.targets P
  pub of_metadata : MetadataKeeps env.metadata P
  pub of_passes : PassKeeps env.passes P
  pub of_strip : (m : Ref) (l : L) → P l → P (env.output.strip_module_debug_info m l).1

module _ {L : Type 0} (env : Environment L) (P : L → Type 0) (silent : Silent env P) where
  Keeps-sanitize : (context m : Ref) (es : List Text) → Keeps P (sanitize env context m es)
  unfolding sanitize
  Keeps-sanitize context m es = record {
    at = run-Holds env.hasher env.metadata env.blocks P silent.of_metadata visit_fuel es context m;
  }

  Keeps-strip : (m : Ref) → Keeps P (strip env m)
  unfolding strip strip_debug_info
  Keeps-strip m = search (keeps_rules, silent.of_strip) depth 9

  Keeps-stage :
      (options : LinkerOptions) (context m tm : Ref) → Keeps P (optimize env options context m tm)
  unfolding optimize
  Keeps-stage options context m tm =
      Keeps-then _ _ (Keeps-if options.btf _ _ (Keeps-sanitize context m _) (Keeps-strip m))
        (Keeps-map_err _ _ (Keeps-optimize env.passes P silent.of_passes tm m _ _ _))

  Keeps-create_dump_dir : (path : Option FilePath) → Keeps P (create_dump_dir env path)
  unfolding create_dump_dir
  Keeps-create_dump_dir none = Keeps-pure tt
  Keeps-create_dump_dir (some path) = Keeps-lift _

  Keeps-dump :
      (path : Option FilePath) (m : Ref) (name : Text)
      → path ≡ none
      → Keeps P (dump env path m name)
  unfolding dump
  Keeps-dump none m name e = Keeps-pure tt
  Keeps-dump (some path) m name e = cc

  -- The action ends without an effect on `P`, or it ends as the code generation does from a state
  -- where `P` holds.
  abbrev EndsIn : LinkerOptions → Ref → Exec L LinkerError Unit → L → Type 0
  EndsIn options m k s =
      P (k s).1 ⊎ ((tm : Ref) × (t : L) × P t × (k s ≡ codegen env options tm m t))

  module _ (options : LinkerOptions) (m : Ref) where
    EndsIn-continue :
        {A : Type 0} (r : Outcome LinkerError A) (f : A → Exec L LinkerError Unit) (s : L)
        → P s
        → ((a : A) (t : L) → P t → EndsIn options m (f a) t)
        → P (continue r f s).1
          ⊎ ((tm : Ref) × (t : L) × P t × (continue r f s ≡ codegen env options tm m t))
    EndsIn-continue (ok a) f s h k = k a s h
    EndsIn-continue (err e) f s h k = inl h
    EndsIn-continue panic f s h k = inl h

    EndsIn-bind :
        {A : Type 0} (a : Exec L LinkerError A) (f : A → Exec L LinkerError Unit)
        → Keeps P a
        → ((x : A) (t : L) → P t → EndsIn options m (f x) t)
        → (s : L) → P s
        → EndsIn options m (a >>= f) s
    unfolding ◌>>=◌
    EndsIn-bind a f ka kf s h = EndsIn-continue (a s).0 f (a s).1 (ka.at s h) kf

    EndsIn-then :
        {A : Type 0} (a : Exec L LinkerError A) (k : Exec L LinkerError Unit)
        → Keeps P a
        → ((t : L) → P t → EndsIn options m k t)
        → (s : L) → P s
        → EndsIn options m (a >> k) s
    unfolding ◌>>◌
    EndsIn-then a k ka kk s h = EndsIn-bind a (λ x. k) ka (λ x. kk) s h

  -- What no call but those that write files affects, such as the files' contents, is not affected
  -- before the last stage if no module is to be dumped: either the linker ends with it as it was, or
  -- it ends as the code generation does from a state in which it still is.
  pub link_in_writes_last :
      (options : LinkerOptions) (context m : Ref) (s : L)
      → options.dump_module ≡ none
      → P s
      → P (link_in env options context m s).1
        ⊎ ((tm : Ref) × (t : L) × P t
            × (link_in env options context m s ≡ codegen env options tm m t))
  unfolding link_in
  link_in_writes_last options context m s no_dump =
      EndsIn-then options m _ _
        (Keeps-link_modules env.objects P silent.of_objects context m env.files.open_file
          options.inputs)
        (EndsIn-bind options m _ _
          (Keeps-machine env.objects P silent.of_objects env.targets silent.of_targets m
            options.target options.cpu options.cpu_features)
          λ tm. EndsIn-then options m _ _ (Keeps-create_dump_dir options.dump_module) (
            EndsIn-then options m _ _ (Keeps-dump options.dump_module m _ no_dump) (
              EndsIn-then options m _ _ (Keeps-stage options context m tm) (
                EndsIn-then options m _ _ (Keeps-dump options.dump_module m _ no_dump)
                  λ t k. inr (tm, t, k, refl)))))
        s
