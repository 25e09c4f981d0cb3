-- ===== src/Di/Visit/Operands.antt =====
-- The loop of `visit_item` over the operands of a value.
use bpf_linker.Prelude.{
  ℕ, zero, suc, ◌+◌, ◌≡◌, ◌<◌, ◌≤◌, sym, subst, ◌⊎◌, inl, inr, Bool-cases, Option, none, some,
  arith, ◌==◌,
}
use bpf_linker.Outcome.{ok, ◌>>=◌, ◌>>◌, >>=-eq-ok}
use bpf_linker.Types.Api.{Ref, Api}
use bpf_linker.Types.Live.{LiveLaws}
use bpf_linker.Di.Names.{DefaultHasher}
use bpf_linker.Di.Sanitizer.{Sanitizer, Visit, reading}
use bpf_linker.Di.Visit.{Item, operand, Blocks, visit_operands, visit_operands_of}
use bpf_linker.Di.Visit.Grows.{Visited}
use bpf_linker.Di.Visit.Evolves.{IsReplacement}
use bpf_linker.Di.Visit.Explores.{Step-trans, Settled-operand}
use bpf_linker.Di.Visit.Loops.{Steps, Sound, Settles, Visits, Steps-refl}

module _ {L : Type 0} (hasher : DefaultHasher) (api : Api L) (blocks : Blocks L)
    (IsLive : L → Ref → Type 0) (live : LiveLaws api blocks.instructions IsLive) where
  -- The operand that was visited just now, be it replaced in this visit or not.
  settled_here :
      (s t : Sanitizer L) (v : Ref) (i : ℕ)
      → Visited v s
      → Steps hasher api blocks IsLive live s t
      → (api.operand s.llvm v i ≡ 0) ⊎ Visited (api.operand s.llvm v i) t
      → Settles hasher api blocks IsLive live t (api.operand t.llvm v i)
  settled_here s t v i seen st led = elim ((st.evolves v seen).operand i) [
    | inl e ↦
        subst (Settles hasher api blocks IsLive live t) (sym e)
          (of_led (api.operand s.llvm v i) led)
    | inr r ↦ inr (
        inr (
          subst (λ rs. IsReplacement api blocks.instructions rs (api.operand t.llvm v i))
            (sym st.same) r))
  ]
    where
      of_led : (w : Ref) → (w ≡ 0) ⊎ Visited w t → Settles hasher api blocks IsLive live t w
      of_led w (inl z) = inl z
      of_led w (inr m) = inr (inl m)

  module _ (visit : Item → Visit L Unit) (visits : Visits hasher api blocks IsLive live visit) where
    -- The operands from `i` on.
    visit_operands-Steps :
        (parent i n : ℕ) (s t : Sanitizer L)
        → Sound hasher api blocks IsLive live s
        → Visited parent s
        → visit_operands hasher api blocks visit parent i n s ≡ (ok tt, t)
        → Steps hasher api blocks IsLive live s t
          × ((j : ℕ)
              → i ≤ j
              → j < i + n
              → Settles hasher api blocks IsLive live t (api.operand t.llvm parent j))
    unfolding visit_operands reading ◌>>=◌ ◌>>◌
    visit_operands-Steps parent i zero s t sound seen h = (
      Steps-refl hasher api blocks IsLive live s t sound h,
      λ j low high. absurd (omega (arith, low, high)),
    )
    visit_operands-Steps parent i (suc n) s t sound seen h =
        let o = api.operand s.llvm parent i in
        let item = operand (record { parent = parent; value = o; index = i }) in
        let (u, s', e, rest) =
          >>=-eq-ok (visit item) (λ _. visit_operands hasher api blocks visit parent (i + 1) n) s
            h in
        let first =
          visits.steps item s s' sound
            (live.live-operand s.llvm parent i (sound.visited parent seen)) e in
        let seen' = first.grows parent seen in
        let (second, others) = visit_operands-Steps parent (i + 1) n s' t first.sound seen' rest in
        let here : Settles hasher api blocks IsLive live s' (api.operand s'.llvm parent i) =
          settled_here s s' parent i seen first (visits.leads item s s' e) in
        (
          Step-trans api blocks.instructions IsLive live.live-operand s s' t first second,
          λ j low high. elim (Bool-cases (j == i)) [
            | inl same ↦
                let e' : i ≡ j = ground arith in
                subst (λ k. Settles hasher api blocks IsLive live t (api.operand t.llvm parent k))
                  e'
                  (Settled-operand api blocks.instructions IsLive s' t parent i seen' second here)
            | inr other ↦ others j (ground arith) (omega (arith, high))
          ],
        )

    pub visit_operands_of-Steps :
        (parent : Ref) (count : Option ℕ) (s t : Sanitizer L)
        → Sound hasher api blocks IsLive live s
        → Visited parent s
        → visit_operands_of hasher api blocks visit parent count s ≡ (ok tt, t)
        → Steps hasher api blocks IsLive live s t
          × ((n j : ℕ)
              → count ≡ some n
              → j < n
              → Settles hasher api blocks IsLive live t (api.operand t.llvm parent j))
    unfolding visit_operands_of ◌>>=◌
    visit_operands_of-Steps parent none s t sound seen h =
        (Steps-refl hasher api blocks IsLive live s t sound h, λ n j e lt. cc)
    visit_operands_of-Steps parent (some m) s t sound seen h =
        let (steps, all) = visit_operands-Steps parent 0 m s t sound seen h in
        (steps, λ n j e lt. all j (omega arith) (ground (arith, e, lt)))
