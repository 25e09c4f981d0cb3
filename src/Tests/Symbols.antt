-- ===== src/Tests/Symbols.antt =====
-- A module of two functions, prepared for the passes.
use bpf_linker.Prelude.{
  ℕ, ◌≡◌, refl, inl, inr, Bool-cases, true, ◌&&◌, none, [], ◌∷◌, ◌==◌, if◌then◌else◌, Text, codes,
  is_utf8,
}
use bpf_linker.Outcome.{ok}
use bpf_linker.Types.Api.{Ref}
use bpf_linker.Llvm.Optimize.{OptimizeApi, prepare}
use bpf_linker.Llvm.Optimize.Symbols.{Quiet, SymbolLaws, is_hidden, is_symbol, prepare_internalizes}

-- The state is the linkage of every value.
abbrev Linkages : Type 0
Linkages = Ref → ℕ

abbrev symbols : OptimizeApi Linkages
symbols = record {
  internal_linkage = 8;
  default_visibility = 0;
  attribute_function_index = 4294967295;
  get_module_inline_asm = λ s m. none;
  set_module_inline_asm = λ m b s. s;
  globals = λ s m. 1 ∷ [];
  global_aliases = λ s m. [];
  functions = λ s m. 2 ∷ 3 ∷ [];
  value_name =
      λ s v. if v == 1 then codes "llvm.used" else if v == 2 then codes "entry" else codes "helper";
  set_linkage = λ v k s w. if v == w then k else s w;
  set_visibility = λ v k s. s;
  get_enum_attribute_kind_for_name = λ name. 12;
  remove_enum_attribute_at_index = λ v i k s. s;
  create_pass_builder_options = λ s. (9, s);
  dispose_pass_builder_options = λ o s. s;
  run_passes = λ m p tm o s. (0, s);
  get_error_type_id = λ s e. 0;
  get_string_error_type_id = 0;
  get_error_message = λ e s. (0, s);
  dispose_error_message = λ m s. s;
  c_string = λ s r. [];
}

symbols-Quiet : (s t : Linkages) → Quiet symbols s t
symbols-Quiet s t = record {
  names = λ w. refl;
  globals = λ m. refl;
  global_aliases = λ m. refl;
  functions = λ m. refl;
}

symbol_laws : SymbolLaws symbols (λ s w. s w)
symbol_laws = record {
  linkage-set_linkage = λ v k s w. refl;
  linkage-set_visibility = λ v k s w. refl;
  linkage-remove_attribute = λ v i k s w. refl;
  linkage-set_inline_asm = λ m b s w. refl;
  quiet-set_linkage = λ v k s. symbols-Quiet s _;
  quiet-set_visibility = λ v k s. symbols-Quiet s _;
  quiet-remove_attribute = λ v i k s. symbols-Quiet s _;
  quiet-set_inline_asm = λ m b s. symbols-Quiet s _;
}

abbrev external : Linkages
external w = 0

symbol_names : (w : Ref) → is_utf8 (symbols.value_name external w) ≡ true
unfolding is_utf8
symbol_names w = elim (Bool-cases (w == 1)) [
  | inl e ↦ rw e refl
  | inr e ↦ elim (Bool-cases (w == 2)) [ inl f ↦ rw (e, f) refl | inr f ↦ rw (e, f) refl ]
]

prepare_internalizes_example :
    (t : Linkages) × (prepare symbols {E = Text} 51 true (codes "entry" ∷ []) external ≡ (ok tt, t))
    × ((w : Ref)
        → t w ≡ (
            if is_symbol symbols (λ s w. s w) symbol_laws (codes "entry" ∷ []) external 51 w
              && is_hidden symbols
                  (λ s w. s w)
                  symbol_laws
                  (codes "entry" ∷ [])
                  (symbols.value_name external w)
            then 8
            else 0))
prepare_internalizes_example =
    prepare_internalizes symbols (λ s w. s w) symbol_laws (codes "entry" ∷ []) Text 51 true external
      symbol_names
