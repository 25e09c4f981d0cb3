-- ===== src/Di/Sanitizer.antt =====
-- The state of `DISanitizer` of llvm/di.rs, beside the state of LLVM that it works on.
use bpf_linker.Prelude.{
  ℕ, Option, none, some, List, [], ◌∷◌, ◌==◌, Bool, false, ◌||◌, if◌then◌else◌, Text,
}
use bpf_linker.Outcome.{Outcome, ok, err, panic, Exec}
use bpf_linker.Types.Api.{Ref, Api}
use bpf_linker.Types.Ir.{NulError}

pub record Sanitizer (L : Type 0) : Type 0 where
  pub llvm : L
  pub context : Ref
  pub module_ref : Ref
  pub builder : Ref
  pub visited_nodes : List ℕ
  pub replace_operands : List (ℕ × Ref)
  pub skipped_types : List Text

-- The traversal recurs on fuel.
pub data Stop : Type 0 where
  out_of_fuel : Stop

abbrev pub Visit : Type 0 → Type 0 → Type 0
Visit L A = Exec (Sanitizer L) Stop A

-- `HashSet::contains` and `HashMap::get` at `u64` keys.
abbrev pub contains : ℕ → List ℕ → Bool
contains k [] = false
contains k (x ∷ xs) = x == k || contains k xs

abbrev pub get {ℓ} : {V : Type ℓ} → ℕ → List (ℕ × V) → Option V
get k [] = none
get k ((j, v) ∷ m) = if j == k then some v else get k m

abbrev pub unwrapped : {A : Type 0} → Outcome NulError A → Outcome Stop A
unwrapped (ok a) = ok a
unwrapped (err e) = panic
unwrapped panic = panic

module _ {L : Type 0} where
  -- `DISanitizer::new`.
  unfoldable pub new : Api L → Ref → Ref → L → Sanitizer L
  new api context module_ref s =
      let (builder, s') = api.create_di_builder module_ref s in
      record {
        llvm = s';
        context = context;
        module_ref = module_ref;
        builder = builder;
        visited_nodes = [];
        replace_operands = [];
        skipped_types = [];
      }

  unfoldable pub reading : {A : Type 0} → (L → A) → Visit L A
  reading f s = (ok (f s.llvm), s)

  unfoldable pub changing : (L → L) → Visit L Unit
  changing f s = (ok tt, record s { llvm = f s.llvm })

  unfoldable pub calling : {A : Type 0} → (L → A × L) → Visit L A
  calling f s = let (a, l) = f s.llvm in (ok a, record s { llvm = l })

  -- `.unwrap()` of a result with `NulError`.
  unfoldable pub unwrapping : {A : Type 0} → Exec L NulError A → Visit L A
  unwrapping m s = let (r, l) = m s.llvm in (unwrapped r, record s { llvm = l })
