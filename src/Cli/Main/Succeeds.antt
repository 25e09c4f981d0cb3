-- ===== src/Cli/Main/Succeeds.antt =====
-- `main` of bin/bpf-linker.rs and the runs that succeed.
use bpf_linker.Prelude.{
  ◌≡◌, ◌≢◌, refl, sym, ap, subst, ◌∙◌, ◌↔◌, inl, inr, Bool-cases, Bool, true, false, ◌&&◌, Option,
  none, some, List, [], ◌∷◌, map, arith, Text, codes, text_eq, text_eq_iff, if◌then◌else◌,
}
use bpf_linker.Outcome.{Outcome, ok, err, panic}
use bpf_linker.Linker.Options.{LinkerError, OptLevel, OutputType, LinkerOptions}
use bpf_linker.Linker.Diagnostics.{Diagnostic, any_fatal, handle_all_lem}
use bpf_linker.Cli.Main.{
  CommandLine, Parsed, command_line, display, invalid, MainError, no_logger, rename_flavor, first,
  last, symbols, linker_options, Host, read_symbols, finish, chosen, configure, link_and_finish,
  with_symbols, run_command, main,
}
use bpf_linker.Cli.Main.Exports.{Exports, read_symbols-Exports, Exports-read_symbols}
use bpf_linker.Cli.Main.Configured.{
  Configured, last-end, Configured-linker_options, linker_options-Configured,
}

-- The arguments as the parser gets them: `-flavor` with two dashes, all others as they are.
pub data Renamed : List Text → List Text → Type 0 where
  no_more : Renamed [] []
  flavor :
      (args renamed : List Text)
      → Renamed args renamed
      → Renamed (codes "-flavor" ∷ args) (codes "--flavor" ∷ renamed)
  unchanged :
      (arg : Text) (args renamed : List Text)
      → arg ≢ codes "-flavor"
      → Renamed args renamed
      → Renamed (arg ∷ args) (arg ∷ renamed)

Renamed-map : (args renamed : List Text) → Renamed args renamed → map rename_flavor args ≡ renamed
unfolding rename_flavor
Renamed-map _ _ no_more = refl
Renamed-map _ _ (flavor args renamed h) =
    ap (λ xs. codes "--flavor" ∷ xs) (Renamed-map args renamed h)
Renamed-map _ _ (unchanged arg args renamed other h) =
    elim (Bool-cases (text_eq arg (codes "-flavor"))) [
      | inl e ↦ absurd (other ((text_eq_iff arg (codes "-flavor")).0 e))
      | inr e ↦ rw e (ap (λ xs. arg ∷ xs) (Renamed-map args renamed h))
    ]

module _ (host : Host) where
  -- The runs that succeed.
  pub data Succeeds : Parsed → Type 0 where
    shown : Succeeds display
    linked :
        (c : CommandLine) (o : LinkerOptions)
        → host.set_global_default ≡ true
        → Configured c o
        → Exports host c.export c.export_symbols o.export_symbols
        → (host.link o).0 ≡ ok tt
        → (c.fatal_errors && any_fatal (host.link o).1) ≡ false
        → Succeeds (command_line c)

  finish_iff :
      (fatal_errors : Bool) (r : Outcome LinkerError Unit × List Diagnostic)
      → (finish host fatal_errors r ≡ ok tt)
        ↔ ((r.0 ≡ ok tt) × ((fatal_errors && any_fatal r.1) ≡ false))
  unfolding finish
  finish_iff fatal_errors (ok u, ds) = ground (arith, handle_all_lem false ds)
  finish_iff fatal_errors (err e, ds) = ground arith
  finish_iff fatal_errors (panic, ds) = ground arith

  -- The run for the options that are configured.
  with_symbols_lem :
      (c : CommandLine) (file : Option Text) (e : OutputType) (l : OptLevel)
      → first c.emit ≡ some e
      → last c.optimize ≡ some l
      → with_symbols host c (ok file)
        ≡ finish host c.fatal_errors (host.link (linker_options c (symbols file c.export) e l))
  unfolding with_symbols configure chosen link_and_finish
  with_symbols_lem c file e l emits levels =
      λ i. link_and_finish host c (chosen host c (symbols file c.export) (emits i) (levels i))

  with_symbols-ok :
      (c : CommandLine) (r : Outcome MainError (Option Text))
      → with_symbols host c r ≡ ok tt
      → (file : Option Text) × (r ≡ ok file)
  unfolding with_symbols
  with_symbols-ok c (ok file) h = (file, refl)
  with_symbols-ok c (err e) h = cc
  with_symbols-ok c panic h = cc

  chosen-ok :
      (c : CommandLine) (names : List Text) (e : Option OutputType) (l : Option OptLevel)
      → link_and_finish host c (chosen host c names e l) ≡ ok tt
      → (output_type : OutputType) × (level : OptLevel) × (e ≡ some output_type) × (l ≡ some level)
  unfolding chosen link_and_finish
  chosen-ok c names none l h = cc
  chosen-ok c names (some e) none h = cc
  chosen-ok c names (some e) (some l) h = (e, l, refl, refl)

  with_symbols-Succeeds :
      (c : CommandLine)
      → host.set_global_default ≡ true
      → with_symbols host c (read_symbols host c.export_symbols) ≡ ok tt
      → Succeeds (command_line c)
  unfolding with_symbols configure linker_options symbols
  with_symbols-Succeeds c logger h =
      let (file, readable) = with_symbols-ok c (read_symbols host c.export_symbols) h in
      let h' : with_symbols host c (ok file) ≡ ok tt =
        subst (λ r. with_symbols host c r ≡ ok tt) readable h in
      let (e, l, emits, levels) =
        chosen-ok c (symbols file c.export) (first c.emit) (last c.optimize) h' in
      let o = linker_options c (symbols file c.export) e l in
      let (returned, clean) =
        (finish_iff c.fatal_errors (host.link o)).0
          (sym (with_symbols_lem c file e l emits levels) ∙ h') in
      linked c o logger (linker_options-Configured c (symbols file c.export) e l emits levels)
        (read_symbols-Exports host c.export_symbols file c.export readable) returned clean

  abbrev when_logged : CommandLine → Bool → Outcome MainError Unit
  when_logged c b =
      if b then with_symbols host c (read_symbols host c.export_symbols) else err no_logger

  logged :
      (c : CommandLine) {b : Bool}
      → host.set_global_default ≡ b
      → run_command host (command_line c) ≡ when_logged c b
  unfolding run_command
  logged c e = ap (when_logged c) e

  run_command-Succeeds : (parsed : Parsed) → run_command host parsed ≡ ok tt → Succeeds parsed
  unfolding run_command
  run_command-Succeeds (command_line c) h = elim (Bool-cases host.set_global_default) [
    | inl e ↦ with_symbols-Succeeds c e (sym (logged c e) ∙ h)
    | inr e ↦ let h' = sym (logged c e) ∙ h in cc
  ]
  run_command-Succeeds display h = shown
  run_command-Succeeds (invalid e) h = cc

  Succeeds-run_command : (parsed : Parsed) → Succeeds parsed → run_command host parsed ≡ ok tt
  unfolding run_command
  Succeeds-run_command _ shown = refl
  Succeeds-run_command _ (linked c o logger configured exports returned clean) =
      let (file, readable, names) =
        Exports-read_symbols host c.export_symbols c.export o.export_symbols exports in
      let (rest, emits) = configured.output_type in
      let (before, levels) = configured.optimize in
      let same : o ≡ linker_options c (symbols file c.export) o.output_type o.optimize =
        Configured-linker_options c o configured
        ∙ ap (λ ns. linker_options c ns o.output_type o.optimize) names in
      let finished : finish host c.fatal_errors (host.link o) ≡ ok tt =
        (finish_iff c.fatal_errors (host.link o)).1 (returned, clean) in
      logged c logger
      ∙ (ap (with_symbols host c) readable
          ∙ (with_symbols_lem c file o.output_type o.optimize (ap first emits)
                (ap last levels ∙ last-end before o.optimize)
              ∙ (sym (ap (λ p. finish host c.fatal_errors (host.link p)) same) ∙ finished)))

  -- The program succeeds exactly if the parser, which gets the arguments with `--flavor` in place of
  -- `-flavor`, asks for the help or the version to be shown, or else if the logger can be set and
  -- the linker returns without an error for the command line's options, with the first output type,
  -- the last level and as exported names the lines of the file of symbols, if one is given, and
  -- behind them those of `--export`, and, where fatal errors are asked for, if no diagnostic of the
  -- linker is an error that is not tolerated. That file, if given, has to be readable.
  pub main_iff :
      (args renamed : List Text)
      → Renamed args renamed
      → (main host args ≡ ok tt) ↔ Succeeds (host.try_parse_from renamed)
  unfolding main
  main_iff args renamed h =
      subst
        (λ xs.
          (run_command host (host.try_parse_from xs) ≡ ok tt)
          ↔ Succeeds (host.try_parse_from renamed))
        (sym (Renamed-map args renamed h))
        (
          run_command-Succeeds (host.try_parse_from renamed),
          Succeeds-run_command (host.try_parse_from renamed),
        )
