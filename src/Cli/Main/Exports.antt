-- ===== src/Cli/Main/Exports.antt =====
-- The exported names of bin/bpf-linker.rs, from the file of symbols and from `--export`.
use bpf_linker.Prelude.{◌≡◌, refl, sym, ap, ◌∙◌, Option, none, some, List, ◌++◌, Text, All}
use bpf_linker.Outcome.{ok}
use bpf_linker.Linker.Options.{FilePath}
use bpf_linker.Linker.Modules.{IoResult, done, failed}
use bpf_linker.Cli.Lines.{IsSymbolChar, lines, unlines, lines-unlines}
use bpf_linker.Cli.Main.{text_of, symbols, Host, read_symbols}

module _ (host : Host) where
  -- The exported names, by the path of a file of symbols and the names of `--export`.
  pub data Exports (export : List Text) : Option FilePath → List Text → Type 0 where
    options_alone : Exports export none export
    from_file :
        (path : FilePath) (text : Text)
        → host.read_to_string path ≡ done text
        → Exports export (some path) (lines text ++ export)

  -- The file of symbols.
  Exports-found :
      (path : FilePath) (file : Option Text) (export : List Text) (r : IoResult Text)
      → host.read_to_string path ≡ r
      → read_symbols host (some path) ≡ ok file
      → Exports export (some path) (symbols file export)
  unfolding read_symbols symbols
  Exports-found path file export (failed e) found h = let h' = sym (ap text_of found) ∙ h in cc
  Exports-found path none export (done text) found h = let h' = sym (ap text_of found) ∙ h in cc
  Exports-found path (some file) export (done text) found h =
      let h' = sym (ap text_of found) ∙ h in
      let same : text ≡ file = cc in from_file path file (found ∙ ap (λ x. done x) same)

  pub read_symbols-Exports :
      (path : Option FilePath) (file : Option Text) (export : List Text)
      → read_symbols host path ≡ ok file
      → Exports export path (symbols file export)
  unfolding read_symbols symbols
  read_symbols-Exports none none export h = options_alone
  read_symbols-Exports none (some file) export h = cc
  read_symbols-Exports (some path) file export h =
      Exports-found path file export (host.read_to_string path) refl h

  pub Exports-read_symbols :
      (path : Option FilePath) (export names : List Text)
      → Exports export path names
      → (file : Option Text) × (read_symbols host path ≡ ok file) × (names ≡ symbols file export)
  unfolding read_symbols symbols
  Exports-read_symbols _ export _ options_alone = (none, refl, refl)
  Exports-read_symbols _ export _ (from_file path text found) = (some text, ap text_of found, refl)

  -- A file with one symbol name behind another, each with a newline at its end and none with a
  -- newline or a carriage return inside, is read, and the exported names are these names in their
  -- order, empty ones included, and behind them those of `--export`.
  pub symbols-unlines :
      (path : FilePath) (names export : List Text)
      → All (All IsSymbolChar) names
      → host.read_to_string path ≡ done (unlines names)
      → (file : Option Text) × (read_symbols host (some path) ≡ ok file)
        × (symbols file export ≡ names ++ export)
  unfolding symbols read_symbols
  symbols-unlines path names export plain found =
      (some (unlines names), ap text_of found, ap (λ ns. ns ++ export) (lines-unlines names plain))
