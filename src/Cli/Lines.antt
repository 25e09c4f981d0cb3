-- ===== src/Cli/Lines.antt =====
-- `str::lines` of the standard library, by which bin/bpf-linker.rs reads the file of exported
-- symbols.
use mathlib.Core.List.{append-nil, append_assoc}
use bpf_linker.Prelude.{
  ℕ, ◌≡◌, ◌≢◌, refl, false, List, [], ◌∷◌, ◌++◌, arith, All, ◌==◌, Text, if◌then◌else◌,
}

abbrev pub newline : ℕ
newline = 10

abbrev pub carriage_return : ℕ
carriage_return = 13

-- A line without the carriage return that ended it.
unfoldable pub strip_return : Text → Text
strip_return [] = []
strip_return (c ∷ []) = if c == carriage_return then [] else c ∷ []
strip_return (c ∷ d ∷ cs) = c ∷ strip_return (d ∷ cs)

-- What stands after the last newline.
unfoldable pub last_line : Text → List Text
last_line [] = []
last_line (c ∷ line) = (c ∷ line) ∷ []

-- The lines, with `line` for what stands before the text. A last line that is empty does not count,
-- and keeps a carriage return.
unfoldable pub lines_from : Text → Text → List Text
unfolding last_line strip_return
lines_from line [] = last_line line
lines_from line (c ∷ s) =
    let next = lines_from [] s in
    let longer = lines_from (line ++ c ∷ []) s in
    if c == newline then strip_return line ∷ next else longer

unfoldable pub lines : Text → List Text
unfolding lines_from
lines = lines_from []

-- Lines with a newline behind each.
abbrev pub unlines : List Text → Text
unlines [] = []
unlines (l ∷ ls) = l ++ newline ∷ unlines ls

-- A symbol name in such a file.
abbrev pub IsSymbolChar : ℕ → Type 0
IsSymbolChar c = (c ≢ newline) × (c ≢ carriage_return)

strip_return_lem : (l : Text) → All IsSymbolChar l → strip_return l ≡ l
unfolding strip_return
strip_return_lem [] h = refl
strip_return_lem (c ∷ []) h = ground arith
strip_return_lem (c ∷ d ∷ cs) h = ground (arith, strip_return_lem (d ∷ cs) h.1)

lines_from-line :
    (pre l rest : Text)
    → All IsSymbolChar l
    → lines_from pre (l ++ newline ∷ rest) ≡ strip_return (pre ++ l) ∷ lines_from [] rest
unfolding lines_from
lines_from-line pre [] rest h = rw append-nil
lines_from-line pre (c ∷ l) rest h =
    let other : (c == newline) ≡ false = ground arith in
    rw other (rw (lines_from-line (pre ++ c ∷ []) l rest h.1) (rw append_assoc))

-- A file with one symbol name behind another, each with a newline at its end, is read back as
-- these names in their order, empty ones included.
pub lines-unlines :
    (names : List Text) → All (All IsSymbolChar) names → lines (unlines names) ≡ names
unfolding lines
lines-unlines [] h = refl
lines-unlines (l ∷ ls) h =
    rw (lines_from-line [] l (unlines ls) h.0) (rw (strip_return_lem l h.0, lines-unlines ls h.1))
