-- ===== src/Llvm/Optimize/Symbols.antt =====
-- Which symbols `optimize` makes internal.
use bpf_linker.Prelude.{
  ℕ, ◌≡◌, refl, ◌∙◌, inl, inr, Bool-cases, Bool, true, false, not, ◌||◌, ◌&&◌, List, [], ◌∷◌, ◌==◌,
  if◌then◌else◌, arith, Text, codes, starts_with, is_utf8,
}
use bpf_linker.Outcome.{ok, Exec, ◌>>=◌, ◌>>◌}
use bpf_linker.Types.Api.{Ref}
use bpf_linker.Llvm.Api.{Bytes}
use bpf_linker.Di.Linkage.{exports}
use bpf_linker.Di.Sanitizer.{contains}
use bpf_linker.Llvm.Optimize.{
  OptimizeApi, llvm_prefix, symbol_name, remove_attribute, internalize, internalize_all,
  prepare_function, prepare_functions, module_asm_is_probestack, drop_probestack, prepare,
}

-- What is relied on: a symbol's linkage is the one that was set last, and none of the changes
-- touches another symbol's linkage, a name, or the lists of symbols.
pub record Quiet {L : Type 0} (api : OptimizeApi L) (s t : L) : Type 0 where
  pub names : (w : Ref) → api.value_name t w ≡ api.value_name s w
  pub globals : (m : Ref) → api.globals t m ≡ api.globals s m
  pub global_aliases : (m : Ref) → api.global_aliases t m ≡ api.global_aliases s m
  pub functions : (m : Ref) → api.functions t m ≡ api.functions s m

pub record SymbolLaws {L : Type 0} (api : OptimizeApi L) (linkage : L → Ref → ℕ) : Type 0 where
  pub linkage-set_linkage :
      (v : Ref) (k : ℕ) (s : L) (w : Ref)
      → linkage (api.set_linkage v k s) w ≡ (if v == w then k else linkage s w)
  pub linkage-set_visibility :
      (v : Ref) (k : ℕ) (s : L) (w : Ref) → linkage (api.set_visibility v k s) w ≡ linkage s w
  pub linkage-remove_attribute :
      (v : Ref) (i k : ℕ) (s : L) (w : Ref)
      → linkage (api.remove_enum_attribute_at_index v i k s) w ≡ linkage s w
  pub linkage-set_inline_asm :
      (m : Ref) (b : Bytes) (s : L) (w : Ref)
      → linkage (api.set_module_inline_asm m b s) w ≡ linkage s w
  pub quiet-set_linkage : (v : Ref) (k : ℕ) (s : L) → Quiet api s (api.set_linkage v k s)
  pub quiet-set_visibility : (v : Ref) (k : ℕ) (s : L) → Quiet api s (api.set_visibility v k s)
  pub quiet-remove_attribute :
      (v : Ref) (i k : ℕ) (s : L) → Quiet api s (api.remove_enum_attribute_at_index v i k s)
  pub quiet-set_inline_asm :
      (m : Ref) (b : Bytes) (s : L) → Quiet api s (api.set_module_inline_asm m b s)

module _ {L : Type 0} {api : OptimizeApi L} where
  Quiet-refl : (s : L) → Quiet api s s
  Quiet-refl s = record {
    names = λ w. refl;
    globals = λ m. refl;
    global_aliases = λ m. refl;
    functions = λ m. refl;
  }

  Quiet-trans : {s t u : L} → Quiet api s t → Quiet api t u → Quiet api s u
  Quiet-trans p q = record {
    names = λ w. q.names w ∙ p.names w;
    globals = λ m. q.globals m ∙ p.globals m;
    global_aliases = λ m. q.global_aliases m ∙ p.global_aliases m;
    functions = λ m. q.functions m ∙ p.functions m;
  }

module _ {L : Type 0} (api : OptimizeApi L) (linkage : L → Ref → ℕ) (laws : SymbolLaws api linkage)
    (export_symbols : List Text) where
  -- Whether a symbol of this name is to be internal.
  abbrev pub is_hidden : Text → Bool
  is_hidden name = not (starts_with name llvm_prefix) && not (exports export_symbols name)

  -- From `s` to `t` exactly the hidden symbols among the chosen ones became internal.
  pub record Internalized (chosen : Ref → Bool) (s t : L) : Type 0 where
    pub quiet : Quiet api s t
    pub linkages :
        (w : Ref)
        → linkage t w ≡ (
            if chosen w && is_hidden (api.value_name s w)
            then api.internal_linkage
            else linkage s w)

  Internalized-trans :
      (p q : Ref → Bool) (s t u : L)
      → Internalized p s t
      → Internalized q t u
      → Internalized (λ w. p w || q w) s u
  Internalized-trans p q s t u a b = record {
    quiet = Quiet-trans a.quiet b.quiet;
    linkages = λ w. ground (arith, a.linkages w, b.linkages w, a.quiet.names w);
  }

  -- A change that leaves linkages alone.
  Internalized-none :
      (s t : L)
      → Quiet api s t
      → ((w : Ref) → linkage t w ≡ linkage s w)
      → Internalized (λ w. false) s t
  Internalized-none s t q same = record { quiet = q; linkages = same }

  internalize-Internalized :
      (v : Ref) (s : L)
      → Internalized (λ w. v == w) s (internalize api v (api.value_name s v) export_symbols s)
  unfolding internalize
  internalize-Internalized v s = elim (Bool-cases (is_hidden (api.value_name s v))) [
    | inl hidden ↦ rw hidden (record {
      quiet =
          Quiet-trans (laws.quiet-set_linkage v api.internal_linkage s)
            (laws.quiet-set_visibility v _ _);
      linkages = λ w. ground (
        arith,
        hidden,
        laws.linkage-set_visibility v api.default_visibility
            (api.set_linkage v api.internal_linkage s) w,
        laws.linkage-set_linkage v api.internal_linkage s w,
      );
    })
    | inr kept ↦ rw kept (record { quiet = Quiet-refl s; linkages = λ w. ground (arith, kept) })
  ]

  prepare_function-Internalized :
      (b : Bool) (v : Ref) (s : L)
      → Internalized
          (λ w. v == w)
          s
          (prepare_function api b export_symbols v (api.value_name s v) s)
  unfolding prepare_function remove_attribute
  prepare_function-Internalized b v s =
      elim (Bool-cases (starts_with (api.value_name s v) llvm_prefix)) [
        | inl intrinsic ↦
            rw intrinsic
              (record { quiet = Quiet-refl s; linkages = λ w. ground (arith, intrinsic) })
        | inr other ↦ rw other (attribute b)
      ]
    where
      attribute :
          (b : Bool)
          → Internalized
              (λ w. v == w)
              s
              (internalize api v (api.value_name s v) export_symbols (
                if b
                then api.remove_enum_attribute_at_index v api.attribute_function_index
                    (api.get_enum_attribute_kind_for_name (codes "noinline"))
                    s
                else s))
      attribute false = internalize-Internalized v s
      attribute true =
          let t =
            api.remove_enum_attribute_at_index v api.attribute_function_index
              (api.get_enum_attribute_kind_for_name (codes "noinline")) s in
          let quiet = laws.quiet-remove_attribute v _ _ s in
          rw (← quiet.names v) (
            Internalized-trans (λ w. false) (λ w. v == w) s t _
              (Internalized-none s t quiet (laws.linkage-remove_attribute v _ _ s))
              (internalize-Internalized v t))

  -- Every name is UTF-8, as Rust's and LLVM's symbols are.
  abbrev pub NamesAreText : L → Type 0
  NamesAreText s = (w : Ref) → is_utf8 (api.value_name s w) ≡ true

  NamesAreText-Quiet : {s t : L} → Quiet api s t → NamesAreText s → NamesAreText t
  NamesAreText-Quiet q h w = rw (q.names w) (h w)

  -- An action that returns, after which exactly the chosen hidden symbols became internal.
  abbrev pub Hides : {E : Type 0} → (Ref → Bool) → L → Exec L E Unit → Type 0
  Hides p s m = (t : L) × (m s ≡ (ok tt, t)) × Internalized p s t

  internalize_all-Hides :
      (E : Type 0) (vs : List Ref) (s : L)
      → NamesAreText s
      → Hides {E = E} (λ w. contains w vs) s (internalize_all api export_symbols vs)
  unfolding internalize_all symbol_name ◌>>=◌ ◌>>◌
  internalize_all-Hides E [] s text = (s, refl, Internalized-none s s (Quiet-refl s) (λ w. refl))
  internalize_all-Hides E (v ∷ vs) s text =
      let one = internalize-Internalized v s in
      let t = internalize api v (api.value_name s v) export_symbols s in
      let (u, e, rest) = internalize_all-Hides E vs t (NamesAreText-Quiet one.quiet text) in
      (u, rw (text v) e, Internalized-trans (λ w. v == w) (λ w. contains w vs) s t u one rest)

  prepare_functions-Hides :
      (E : Type 0) (b : Bool) (vs : List Ref) (s : L)
      → NamesAreText s
      → Hides {E = E} (λ w. contains w vs) s (prepare_functions api b export_symbols vs)
  unfolding prepare_functions symbol_name ◌>>=◌ ◌>>◌
  prepare_functions-Hides E b [] s text =
      (s, refl, Internalized-none s s (Quiet-refl s) (λ w. refl))
  prepare_functions-Hides E b (v ∷ vs) s text =
      let one = prepare_function-Internalized b v s in
      let t = prepare_function api b export_symbols v (api.value_name s v) s in
      let (u, e, rest) = prepare_functions-Hides E b vs t (NamesAreText-Quiet one.quiet text) in
      (u, rw (text v) e, Internalized-trans (λ w. v == w) (λ w. contains w vs) s t u one rest)

  drop_probestack-Internalized :
      (m : Ref) (s : L) → Internalized (λ w. false) s (drop_probestack api m s)
  unfolding drop_probestack
  drop_probestack-Internalized m s = elim (Bool-cases (module_asm_is_probestack api s m)) [
    | inl e ↦ rw e (
        Internalized-none s _ (laws.quiet-set_inline_asm m [] s)
          (laws.linkage-set_inline_asm m [] s))
    | inr e ↦ rw e (Internalized-none s s (Quiet-refl s) (λ w. refl))
  ]

  -- The symbols that a module lists.
  abbrev pub is_symbol : L → Ref → Ref → Bool
  is_symbol s m w =
      contains w (api.globals s m)
      || (contains w (api.global_aliases s m) || contains w (api.functions s m))

  -- With all names in UTF-8 the preparation returns, and after it exactly those globals, aliases and
  -- functions of the module are internal whose names do not begin with `llvm.` and are not
  -- exported; every other value keeps its linkage.
  pub prepare_internalizes :
      (E : Type 0) (m : Ref) (ignore_inline_never : Bool) (s : L)
      → NamesAreText s
      → (t : L) × (prepare api {E = E} m ignore_inline_never export_symbols s ≡ (ok tt, t))
        × ((w : Ref)
            → linkage t w ≡ (
                if is_symbol s m w && is_hidden (api.value_name s w)
                then api.internal_linkage
                else linkage s w))
  unfolding prepare ◌>>=◌ ◌>>◌
  prepare_internalizes E m ignore_inline_never s text =
      let s₁ = drop_probestack api m s in
      let h₁ = drop_probestack-Internalized m s in
      let q₁ = h₁.quiet in
      let (s₂, e₂, h₂) =
        internalize_all-Hides E (api.globals s₁ m) s₁ (NamesAreText-Quiet q₁ text) in
      let q₂ = Quiet-trans q₁ h₂.quiet in
      let (s₃, e₃, h₃) =
        internalize_all-Hides E (api.global_aliases s₂ m) s₂ (NamesAreText-Quiet q₂ text) in
      let q₃ = Quiet-trans q₂ h₃.quiet in
      let (s₄, e₄, h₄) =
        prepare_functions-Hides E ignore_inline_never (api.functions s₃ m) s₃
          (NamesAreText-Quiet q₃ text) in
      (
        s₄,
        rw (e₂, e₃, e₄),
        λ w. ground (
          arith,
          h₁.linkages w,
          h₂.linkages w,
          h₃.linkages w,
          h₄.linkages w,
          q₁.names w,
          q₂.names w,
          q₃.names w,
          q₁.globals m,
          q₂.global_aliases m,
          q₃.functions m,
        ),
      )
