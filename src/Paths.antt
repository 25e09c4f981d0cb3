-- ===== src/Paths.antt =====
-- `std::path` on Unix, as far as the linker uses it: components, file names and `join`.
use bpf_linker.Prelude.{
  ℕ, ◌≡◌, refl, arith, inl, inr, Option-cases, Bool, true, false, Option, none, some, List, [], ◌∷◌,
  ◌++◌, ◌==◌, text_eq, if◌then◌else◌, Text, codes,
}

abbrev pub slash : ℕ
slash = b'/'

pub data Component : Type 0 where
  root_dir cur_dir parent_dir : Component
  normal : Text → Component

-- The pieces between slashes, with `piece` for what stands before the text.
unfoldable pub pieces_from : Text → Text → List Text
pieces_from piece [] = piece ∷ []
pieces_from piece (c ∷ s) =
    let next = pieces_from [] s in
    let longer = pieces_from (piece ++ c ∷ []) s in if c == slash then piece ∷ next else longer

-- Empty pieces and `.` are no components.
unfoldable pub of_pieces : List Text → List Component
of_pieces [] = []
of_pieces (p ∷ ps) =
    let rest = of_pieces ps in
    if text_eq p []
    then rest
    else if text_eq p (codes ".")
    then rest
    else if text_eq p (codes "..")
    then parent_dir ∷ rest
    else normal p ∷ rest

-- `Path::components`: a leading slash is the root, and a leading `.` is kept.
unfoldable pub of_first : List Text → List Component
of_first [] = []
of_first (p ∷ []) = if text_eq p (codes ".") then cur_dir ∷ [] else of_pieces (p ∷ [])
of_first (p ∷ q ∷ ps) =
    if text_eq p []
    then root_dir ∷ of_pieces (q ∷ ps)
    else if text_eq p (codes ".")
    then cur_dir ∷ of_pieces (q ∷ ps)
    else of_pieces (p ∷ q ∷ ps)

unfoldable pub components : Text → List Component
unfolding of_first of_pieces pieces_from
components path = of_first (pieces_from [] path)

-- The last component, and those before it.
unfoldable pub next_back : List Component → Option (List Component × Component)
next_back [] = none
next_back (c ∷ []) = some ([], c)
next_back (c ∷ d ∷ cs) = elim (next_back (d ∷ cs)) [
  | none ↦ none
  | some (before, last) ↦ some (c ∷ before, last)
]

pub next_back-append :
    (cs before : List Component) (last : Component)
    → next_back cs ≡ some (before, last)
    → cs ≡ before ++ last ∷ []
unfolding next_back
next_back-append [] before last h = cc
next_back-append (c ∷ []) before last h = ground arith
next_back-append (c ∷ d ∷ cs) before last h = elim (Option-cases (next_back (d ∷ cs))) [
  | inl e ↦ ground (arith, e)
  | inr (r, e) ↦ ground (arith, e, next_back-append (d ∷ cs) r.0 r.1 e)
]

pub next_back-last :
    (before : List Component) (last : Component)
    → next_back (before ++ last ∷ []) ≡ some (before, last)
unfolding next_back
next_back-last [] last = refl
next_back-last (c ∷ []) last = refl
next_back-last (c ∷ d ∷ cs) last = rw (next_back-last (d ∷ cs) last) refl

-- `Path::file_name`.
unfoldable pub file_name : Text → Option Text
unfolding components next_back
file_name path = elim (next_back (components path)) [
  | none ↦ none
  | some (before, last) ↦ elim last [ normal name ↦ some name | _ ↦ none ]
]

-- What stands before the last dot, `none` if there is no dot.
unfoldable pub before_dot : Text → Option Text
before_dot [] = none
before_dot (c ∷ s) = elim (before_dot s) [
  | some stem ↦ some (c ∷ stem)
  | none ↦ if c == b'.' then some [] else none
]

-- `Path::file_stem`: a name whose only dot stands first is its own stem.
unfoldable pub file_stem : Text → Option Text
unfolding file_name before_dot
file_stem path = elim (file_name path) [
  | none ↦ none
  | some name ↦ elim (before_dot name) [
    | none ↦ some name
    | some stem ↦ if text_eq stem [] then some name else some stem
  ]
]

-- Whether a slash has to be put behind the path.
unfoldable pub needs_slash : Text → Bool
needs_slash [] = false
needs_slash (c ∷ []) = if c == slash then false else true
needs_slash (c ∷ d ∷ s) = needs_slash (d ∷ s)

-- `Path::join` with a relative name.
unfoldable pub join : Text → Text → Text
unfolding needs_slash
join path name = if needs_slash path then path ++ slash ∷ name else path ++ name

path_tests :
    (file_stem (codes "/tmp/bin.s") ≡ some (codes "bin"))
    × (file_stem (codes "a/..") ≡ none)
    × (file_name (codes "./foo/") ≡ some (codes "foo"))
    × (join (codes "out") (codes "pre-opt.ll") ≡ codes "out/pre-opt.ll")
unfolding file_stem join
path_tests = (refl, refl, refl, refl)
