-- ===== src/Cli/LogFile.antt =====
-- `parent_and_file_name` of bin/bpf-linker.rs: how the path of the log is split.
use bpf_linker.Prelude.{
  ◌≡◌, ◌↔◌, refl, ◌∙◌, ap, Option, none, some, List, [], ◌∷◌, ◌++◌, arith, Text,
}
use bpf_linker.Paths.{
  Component, root_dir, cur_dir, parent_dir, normal, components, next_back, next_back-append,
  next_back-last,
}
use bpf_linker.Linker.Options.{FilePath}
use bpf_linker.Cli.Main.{parent_and_file_name, with_name}

with_name-append :
    (cs : List Component) (r : Option (List Component × Component)) (before : List Component)
    (name : Text)
    → next_back cs ≡ r
    → with_name r ≡ some (before, name)
    → cs ≡ before ++ normal name ∷ []
with_name-append cs none before name e h = ground arith
with_name-append cs (some (b, normal n)) before name e h =
    next_back-append cs before (normal name) (ground (arith, e, h))
with_name-append cs (some (b, root_dir)) before name e h = ground arith
with_name-append cs (some (b, cur_dir)) before name e h = ground arith
with_name-append cs (some (b, parent_dir)) before name e h = ground arith

-- The path is split into these directories and this name exactly if its components are the
-- directories' and, last, the name; a path that ends in `..` or a root, or is empty, is an error.
pub parent_and_file_name_iff :
    (p : FilePath) (before : List Component) (name : Text)
    → (parent_and_file_name p ≡ some (before, name)) ↔ (components p ≡ before ++ normal name ∷ [])
unfolding parent_and_file_name
parent_and_file_name_iff p before name = (
  λ h. with_name-append (components p) (next_back (components p)) before name refl h,
  λ e. ap (λ cs. with_name (next_back cs)) e ∙ ap with_name (next_back-last before (normal name)),
)
