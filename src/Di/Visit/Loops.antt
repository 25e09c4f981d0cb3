-- ===== src/Di/Visit/Loops.antt =====
-- The loops of `visit_item` over metadata entries, parameters and instructions.
use bpf_linker.Prelude.{
  ℕ, ◌+◌, ◌≡◌, refl, sym, ap, subst, ◌⊎◌, inl, inr, false, Option, none, some, List, [], ◌∷◌, map,
  arith, All, All-mono,
}
use mathlib.Core.Option.{none-ne-some, some-injective}
use bpf_linker.Outcome.{ok, pure, ◌>>=◌, ◌>>◌, >>=-eq-ok}
use bpf_linker.Types.Api.{Ref, Api}
use bpf_linker.Types.Ir.{Value, md_node, function, params}
use bpf_linker.Types.Live.{LiveLaws, All-range_map}
use bpf_linker.Di.Names.{DefaultHasher}
use bpf_linker.Di.Sanitizer.{Sanitizer, Stop, Visit, reading}
use bpf_linker.Di.Visit.{
  Item, function_param, instruction, value_ref, is_operand, Blocks, visit_all, entry_items,
  visit_entries, visit_function,
}
use bpf_linker.Di.Visit.Grows.{Visited}
use bpf_linker.Di.Visit.Evolves.{params_same}
use bpf_linker.Di.Visit.Explores.{Settled, IsSound, Step, Step-refl, Step-trans}

module _ {L : Type 0} (hasher : DefaultHasher) (api : Api L) (blocks : Blocks L)
    (IsLive : L → Ref → Type 0) (live : LiveLaws api blocks.instructions IsLive) where
  abbrev pub Steps : Sanitizer L → Sanitizer L → Type 0
  Steps = Step api blocks.instructions IsLive

  abbrev pub Sound : Sanitizer L → Type 0
  Sound = IsSound api blocks.instructions IsLive

  abbrev pub Settles : Sanitizer L → Ref → Type 0
  Settles = Settled api blocks.instructions

  -- An item's value is null or live.
  abbrev pub Starts : L → Item → Type 0
  Starts s item = (value_ref item ≡ 0) ⊎ IsLive s (value_ref item)

  Starts-Step :
      (s t : Sanitizer L) (item : Item) → Steps s t → Starts s.llvm item → Starts t.llvm item
  Starts-Step s t item st (inl z) = inl z
  Starts-Step s t item st (inr l) = inr (st.alive (value_ref item) l)

  pub Steps-refl :
      (s t : Sanitizer L)
      → Sound s
      → pure {S = Sanitizer L} {E = Stop} tt s ≡ (ok tt, t)
      → Steps s t
  unfolding ◌>>=◌
  Steps-refl s t sound h =
      subst (Steps s) (ap (λ r. r.1) h) (Step-refl api blocks.instructions IsLive s sound)

  -- What a visit of an item is to do.
  pub record Visits (visit : Item → Visit L Unit) : Type 0 where
    pub steps :
        (item : Item) (s t : Sanitizer L)
        → Sound s
        → Starts s.llvm item
        → visit item s ≡ (ok tt, t)
        → Steps s t
    pub leads :
        (item : Item) (s t : Sanitizer L)
        → visit item s ≡ (ok tt, t)
        → (value_ref item ≡ 0) ⊎ Visited (value_ref item) t
    pub marks :
        (item : Item) (s t : Sanitizer L)
        → is_operand item ≡ false
        → visit item s ≡ (ok tt, t)
        → Visited (value_ref item) t

  map-Starts :
      (c : Ref → Item)
      → ((r : Ref) → value_ref (c r) ≡ r)
      → (s : L) (rs : List Ref) → All (IsLive s) rs
      → All (Starts s) (map c rs)
  map-Starts c same s [] h = tt
  map-Starts c same s (r ∷ rs) h =
      (inr (subst (IsLive s) (sym (same r)) h.0), map-Starts c same s rs h.1)

  map-plain :
      (c : Ref → Item)
      → ((r : Ref) → is_operand (c r) ≡ false)
      → (rs : List Ref) → All (λ i. is_operand i ≡ false) (map c rs)
  map-plain c plain [] = tt
  map-plain c plain (r ∷ rs) = (plain r, map-plain c plain rs)

  map-Visited :
      (c : Ref → Item)
      → ((r : Ref) → value_ref (c r) ≡ r)
      → (t : Sanitizer L) (rs : List Ref) → All (λ i. Visited (value_ref i) t) (map c rs)
      → All (λ r. Visited r t) rs
  map-Visited c same t [] h = tt
  map-Visited c same t (r ∷ rs) h =
      (subst (λ v. Visited v t) (same r) h.0, map-Visited c same t rs h.1)

  -- For a function: it has been visited, and so have its parts.
  abbrev pub FunctionSeen : Sanitizer L → Value → Type 0
  FunctionSeen s (function f) = Visited f s
  FunctionSeen s _ = Unit

  abbrev pub FunctionDone : Sanitizer L → Value → Type 0
  FunctionDone t (function f) =
      All (λ p. Visited p t) (params api t.llvm f)
      × All (λ i. Visited i t) (blocks.instructions t.llvm f)
  FunctionDone t _ = Unit

  module _ (visit : Item → Visit L Unit) (visits : Visits visit) where
    visit_all-Steps :
        (items : List Item) (s t : Sanitizer L)
        → Sound s
        → All (Starts s.llvm) items
        → All (λ i. is_operand i ≡ false) items
        → visit_all hasher api blocks visit items s ≡ (ok tt, t)
        → Steps s t × All (λ i. Visited (value_ref i) t) items
    unfolding visit_all ◌>>=◌ ◌>>◌
    visit_all-Steps [] s t sound starts plain h = (Steps-refl s t sound h, tt)
    visit_all-Steps (item ∷ items) s t sound starts plain h =
        let (u, s', e, rest) =
          >>=-eq-ok (visit item) (λ _. visit_all hasher api blocks visit items) s h in
        let first = visits.steps item s s' sound starts.0 e in
        let later = All-mono _ _ (λ i. Starts-Step s s' i first) items starts.1 in
        let (second, marked) = visit_all-Steps items s' t first.sound later plain.1 rest in
        (
          Step-trans api blocks.instructions IsLive live.live-operand s s' t first second,
          (second.grows (value_ref item) (visits.marks item s s' plain.0 e), marked),
        )

    entry_items-plain :
        (i : ℕ) (es : List (Ref × ℕ))
        → All (λ i. is_operand i ≡ false) (entry_items hasher api blocks i es)
    entry_items-plain i [] = tt
    entry_items-plain i ((m, kind) ∷ es) = (refl, entry_items-plain (i + 1) es)

    -- What holds of an entry's value holds of its item, and the other way round.
    entry_items-All :
        (P : Ref → Type 0) (i : ℕ) (es : List (Ref × ℕ))
        → All (λ e. P (api.metadata_as_value e.0)) es
        → All (λ i. P (value_ref i)) (entry_items hasher api blocks i es)
    entry_items-All P i [] h = tt
    entry_items-All P i ((m, kind) ∷ es) h = (h.0, entry_items-All P (i + 1) es h.1)

    All-entry_items :
        (P : Ref → Type 0) (i : ℕ) (es : List (Ref × ℕ))
        → All (λ i. P (value_ref i)) (entry_items hasher api blocks i es)
        → All (λ e. P (api.metadata_as_value e.0)) es
    All-entry_items P i [] h = tt
    All-entry_items P i ((m, kind) ∷ es) h = (h.0, All-entry_items P (i + 1) es h.1)

    pub visit_entries-Steps :
        (entries : Option (List (Ref × ℕ))) (s t : Sanitizer L)
        → Sound s
        → ((es : List (Ref × ℕ))
            → entries ≡ some es
            → All (λ e. IsLive s.llvm (api.metadata_as_value e.0)) es)
        → visit_entries hasher api blocks visit entries s ≡ (ok tt, t)
        → Steps s t
          × ((es : List (Ref × ℕ))
              → entries ≡ some es
              → All (λ e. Visited (api.metadata_as_value e.0) t) es)
    unfolding visit_entries ◌>>=◌
    visit_entries-Steps none s t sound alive h =
        (Steps-refl s t sound h, λ es e. absurd (none-ne-some es e))
    visit_entries-Steps (some es) s t sound alive h =
        let (steps, marked) =
          visit_all-Steps (entry_items hasher api blocks 0 es) s t sound
            (entry_items-All (λ r. (r ≡ 0) ⊎ IsLive s.llvm r) 0 es
              (All-mono _ _ (λ e. inr) es (alive es refl)))
            (entry_items-plain 0 es) h in
        (
          steps,
          λ es' e.
              subst (All (λ e. Visited (api.metadata_as_value e.0) t)) (some-injective _ _ e)
                (All-entry_items (λ r. Visited r t) 0 es marked),
        )

    -- The items of a list of values.
    pub visit_refs-Steps :
        (c : Ref → Item) (rs : List Ref) (s t : Sanitizer L)
        → ((r : Ref) → value_ref (c r) ≡ r)
        → ((r : Ref) → is_operand (c r) ≡ false)
        → Sound s
        → All (IsLive s.llvm) rs
        → visit_all hasher api blocks visit (map c rs) s ≡ (ok tt, t)
        → Steps s t × All (λ r. Visited r t) rs
    visit_refs-Steps c rs s t same plain sound alive h =
        let (steps, marked) =
          visit_all-Steps (map c rs) s t sound (map-Starts c same s.llvm rs alive)
            (map-plain c plain rs) h in
        (steps, map-Visited c same t rs marked)

    pub visit_function-Steps :
        (value : Value) (s t : Sanitizer L)
        → Sound s
        → FunctionSeen s value
        → visit_function hasher api blocks visit value s ≡ (ok tt, t)
        → Steps s t × FunctionDone t value
    unfolding visit_function reading ◌>>=◌ ◌>>◌
    visit_function-Steps (md_node v) s t sound seen h = (Steps-refl s t sound h, tt)
    visit_function-Steps (Value.other v) s t sound seen h = (Steps-refl s t sound h, tt)
    visit_function-Steps (function f) s t sound seen h =
        let ps = map function_param (params api s.llvm f) in
        let (u, s', e, rest) =
          >>=-eq-ok (visit_all hasher api blocks visit ps)
            (λ _. reading (λ l. blocks.instructions l f) >>= λ is.
              visit_all hasher api blocks visit (map instruction is))
            s h in
        let alive = sound.visited f seen in
        let (first, params_done) =
          visit_refs-Steps function_param (params api s.llvm f) s s' (λ r. refl) (λ r. refl) sound
            (All-range_map (IsLive s.llvm) (api.param s.llvm f) 0 (api.count_params s.llvm f)
              λ i low high. live.live-param s.llvm f i alive (omega (arith, high)))
            e in
        let alive' = first.alive f alive in
        let (second, instructions_done) =
          visit_refs-Steps instruction (blocks.instructions s'.llvm f) s' t (λ r. refl) (λ r. refl)
            first.sound (live.live-instructions s'.llvm f alive') rest in
        let steps =
          Step-trans api blocks.instructions IsLive live.live-operand s s' t first second in
        (
          steps,
          (
            subst (All (λ p. Visited p t))
                (sym (params_same api blocks.instructions s.llvm t.llvm f (steps.shapes f alive)))
                (All-mono _ _ second.grows (params api s.llvm f) params_done),
            subst (All (λ i. Visited i t)) (sym (second.shapes f alive').instruction_list)
                instructions_done,
          ),
        )
