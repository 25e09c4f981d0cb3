-- ===== src/Di/Visit/Parts.antt =====
-- What `visit_item` goes through after a node's own visit.
use bpf_linker.Prelude.{◌≡◌, sym, ap, subst, ◌∙◌, All-mono}
use bpf_linker.Outcome.{ok, ◌>>=◌, ◌>>◌, >>=-eq-ok}
use bpf_linker.Types.Api.{Ref, Api}
use bpf_linker.Types.Ir.{Value, new, operands, metadata_entries}
use bpf_linker.Types.Laws.{MetadataLaws}
use bpf_linker.Types.Live.{LiveLaws}
use bpf_linker.Di.Names.{DefaultHasher}
use bpf_linker.Di.Sanitizer.{Sanitizer, Visit, reading}
use bpf_linker.Di.Visit.{Item, Blocks, visit_operands_of, visit_entries, visit_function}
use bpf_linker.Di.Visit.Grows.{Visited}
use bpf_linker.Di.Visit.Evolves.{new_same, operands_same, entries_same}
use bpf_linker.Di.Visit.Explores.{Explored, Step-trans, Settled-operand}
use bpf_linker.Di.Visit.Loops.{
  Steps, Sound, Visits, FunctionSeen, FunctionDone, visit_entries-Steps, visit_function-Steps,
}
use bpf_linker.Di.Visit.Operands.{visit_operands_of-Steps}
use bpf_linker.Di.Visit.Moves.{entries_found, FunctionSeen-new}

module _ {L : Type 0} (hasher : DefaultHasher) (api : Api L) (blocks : Blocks L)
    (IsLive : L → Ref → Type 0) (laws : MetadataLaws api)
    (live : LiveLaws api blocks.instructions IsLive) where
  module _ (visit : Item → Visit L Unit) (visits : Visits hasher api blocks IsLive live visit) where
    -- From the state after the node's own visit on.
    abbrev pub parts : Ref → Value → Visit L Unit
    parts v value = reading (λ l. operands api l value) >>= λ n.
        visit_operands_of hasher api blocks visit v n
        >> (reading (λ l. metadata_entries api l value) >>= λ es.
            visit_entries hasher api blocks visit es
            >> visit_function hasher api blocks visit value)

    pub parts-Steps :
        (v : Ref) (value : Value) (s t : Sanitizer L)
        → Sound hasher api blocks IsLive live s
        → Visited v s
        → new api s.llvm v ≡ value
        → parts v value s ≡ (ok tt, t)
        → Steps hasher api blocks IsLive live s t × Explored api blocks.instructions t v
    unfolding reading ◌>>=◌ ◌>>◌
    parts-Steps v value s t sound seen same h =
        let alive = sound.visited v seen in
        let n = operands api s.llvm value in
        let (u1, s1, e1, h1) =
          >>=-eq-ok (visit_operands_of hasher api blocks visit v n)
            (λ _. reading (λ l. metadata_entries api l value) >>= λ es.
              visit_entries hasher api blocks visit es
              >> visit_function hasher api blocks visit value)
            s h in
        let (step1, ops) =
          visit_operands_of-Steps hasher api blocks IsLive live visit visits v n s s1 sound seen
            e1 in
        let seen1 = step1.grows v seen in
        let same1 : new api s1.llvm v ≡ value =
          new_same api blocks.instructions s.llvm s1.llvm v (step1.shapes v alive) ∙ same in
        let entries = metadata_entries api s1.llvm value in
        let (u2, s2, e2, h2) =
          >>=-eq-ok (visit_entries hasher api blocks visit entries)
            (λ _. visit_function hasher api blocks visit value) s1 h1 in
        let (step2, entered) =
          visit_entries-Steps hasher api blocks IsLive live visit visits entries s1 s2 step1.sound
            (λ es e. live.live-entries s1.llvm v es (step1.alive v alive) (
              entries_found hasher api blocks IsLive laws live s1.llvm v es
                (ap (metadata_entries api s1.llvm) same1 ∙ e)))
            e2 in
        let seen2 = step2.grows v seen1 in
        let (step3, done) =
          visit_function-Steps hasher api blocks IsLive live visit visits value s2 t step2.sound
            (subst (FunctionSeen hasher api blocks IsLive live s2) same1
              (FunctionSeen-new hasher api blocks IsLive laws live s1.llvm v s2 seen2))
            h2 in
        let rest =
          Step-trans api blocks.instructions IsLive live.live-operand s1 s2 t step2 step3 in
        let step = Step-trans api blocks.instructions IsLive live.live-operand s s1 t step1 rest in
        let shape = step.shapes v alive in
        let shape1 = rest.shapes v (step1.alive v alive) in
        (
          step,
          record {
            operands_done = λ m e j lt.
                Settled-operand api blocks.instructions IsLive s1 t v j seen1 rest (
                  ops m j
                    (sym (ap (operands api s.llvm) same)
                      ∙ (sym (operands_same api blocks.instructions s.llvm t.llvm v shape) ∙ e))
                    lt);
            entries_done = λ es e.
                All-mono _ _ (λ x. step3.grows (api.metadata_as_value x.0)) es
                  (entered es (
                    sym (ap (metadata_entries api s1.llvm) same1)
                    ∙ (sym (entries_same api blocks.instructions s1.llvm t.llvm v shape1) ∙ e)));
            parts_done = λ e.
                subst (FunctionDone hasher api blocks IsLive live t)
                  (sym same ∙ (sym (new_same api blocks.instructions s.llvm t.llvm v shape) ∙ e))
                  done;
          },
        )
