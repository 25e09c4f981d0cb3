-- ===== src/Di/Visit/Closed.antt =====
-- `visit_item` and the values that it leaves behind.
use bpf_linker.Prelude.{
  ℕ, zero, suc, ◌≡◌, refl, sym, ap, subst, ◌∙◌, inl, inr, Bool-cases, true, false, not, ◌∷◌, arith,
  ◌==◌, if◌then◌else◌,
}
use bpf_linker.Outcome.{ok, pure, ◌>>=◌, ◌>>◌, >>=-eq-ok}
use bpf_linker.Types.Api.{Ref, Api}
use bpf_linker.Types.Ir
use bpf_linker.Types.Ir.{Value, md_node, function, new, operands, metadata_entries, params}
use bpf_linker.Types.Laws.{MetadataLaws}
use bpf_linker.Types.Live.{LiveLaws, SameShape-trans}
use bpf_linker.Di.Names.{DefaultHasher}
use bpf_linker.Di.Sanitizer.{Sanitizer, Visit, contains, reading}
use bpf_linker.Di.Visit.{
  Item, value_ref, is_operand, Blocks, replace_operand, first_visit, visit_node, visit_children,
  visit_value, visit_with, visit_item,
}
use bpf_linker.Di.Visit.Grows.{Visited}
use bpf_linker.Di.Visit.Marks.{Leads-visit_item, Marks-visit_item}
use bpf_linker.Di.Visit.Evolves.{Evolves, Evolves-trans, new_same}
use bpf_linker.Di.Visit.Explores.{Explored, Named, Named-Step, Step-trans}
use bpf_linker.Di.Visit.Loops.{Steps, Sound, Starts, Visits, Steps-refl}
use bpf_linker.Di.Visit.Moves.{
  value_ref-new, NodeStep, visit_node-NodeStep, NodeNamed, md_node-new, replace_operand-Step,
  NodeStep-Sound,
}
use bpf_linker.Di.Visit.Parts.{parts, parts-Steps}

module _ {L : Type 0} (hasher : DefaultHasher) (api : Api L) (blocks : Blocks L)
    (IsLive : L → Ref → Type 0) (laws : MetadataLaws api)
    (live : LiveLaws api blocks.instructions IsLive) where
  module _ (visit : Item → Visit L Unit) (visits : Visits hasher api blocks IsLive live visit) where
    -- The first visit of `v`, which is live and not among the visited.
    module _ (item : Item) (value : Value) (s : Sanitizer L)
        (sound : Sound hasher api blocks IsLive live s) (alive : IsLive s.llvm (value_ref item))
        (new_here : contains (value_ref item) s.visited_nodes ≡ false)
        (same : new api s.llvm (value_ref item) ≡ value) where
      abbrev v : Ref
      v = value_ref item

      abbrev entered : Sanitizer L
      entered = record s { visited_nodes = v ∷ s.visited_nodes }

      entered-Sound : Sound hasher api blocks IsLive live entered
      entered-Sound = record {
        visited = λ w h. elim (Bool-cases (v == w)) [
          | inl e ↦ let e' : v ≡ w = ground arith in subst (IsLive s.llvm) e' alive
          | inr e ↦ sound.visited w (ground (arith, h, e))
        ];
        replacements = sound.replacements;
      }

      other_than_new : (w : Ref) → Visited w s → (w == v) ≡ false
      other_than_new w h = elim (Bool-cases (w == v)) [
        | inl e ↦
            let e' : w ≡ v = ground arith in
            let seen : contains v s.visited_nodes ≡ true = subst (λ r. Visited r s) e' h in cc
        | inr e ↦ e
      ]

      Visited-before : (w : Ref) → (v == w) ≡ false → Visited w entered → Visited w s
      Visited-before w e h = ground (arith, e, h)

      -- After the node's own visit, and then the rest.
      join :
          (m t : Sanitizer L)
          → NodeStep hasher api blocks IsLive laws live v entered m
          → Steps hasher api blocks IsLive live m t
          → Explored api blocks.instructions t v × Named api blocks.instructions t v
          → Steps hasher api blocks IsLive live s t
      join m t node step done_here =
          let seen = λ (w : Ref) (h : Visited w s).
            subst (λ vs. contains w vs ≡ true) (sym node.visited) (ground (arith, h)) in
          record {
            sound = step.sound;
            same = step.same ∙ node.replaced;
            home = step.home ∙ node.home;
            alive = λ w l. step.alive w (node.framed w l).alive;
            grows = λ w h. step.grows w (seen w h);
            shapes = λ w l.
                SameShape-trans (node.framed w l).shape (step.shapes w (node.framed w l).alive);
            evolves = λ w h.
                let frame = node.framed w (sound.visited w h) in
                let other = other_than_new w h in
                Evolves-trans api blocks.instructions
                  (record { shape = frame.shape; operand = λ j. inl (frame.operands other j) })
                  (subst (λ rs. Evolves api blocks.instructions rs m.llvm t.llvm w) node.replaced
                    (step.evolves w (seen w h)));
            fresh = λ w h. elim (step.fresh w h) [
              | inr done ↦ inr done
              | inl before ↦ elim (Bool-cases (v == w)) [
                | inl e ↦
                    let e' : v ≡ w = ground arith in
                    inr (
                      subst
                        (λ r.
                          Explored api blocks.instructions t r × Named api blocks.instructions t r)
                        e' done_here)
                | inr e ↦
                    inl
                      (Visited-before w e (subst (λ vs. contains w vs ≡ true) node.visited before))
              ]
            ];
          }

      first_visit-Steps :
          (t : Sanitizer L)
          → visit_children hasher api blocks visit item value entered ≡ (ok tt, t)
          → Steps hasher api blocks IsLive live s t
      unfolding visit_children ◌>>◌
      first_visit-Steps t h =
          let (u, m, e, rest) =
            >>=-eq-ok (visit_node hasher api blocks value)
              (λ _. parts hasher api blocks IsLive laws live visit visits v value) entered h in
          let named : Ir.value_ref value ≡ v =
            sym (ap Ir.value_ref same)
            ∙ value_ref-new hasher api blocks IsLive laws live s.llvm v in
          let (moved, renamed) =
            visit_node-NodeStep hasher api blocks IsLive laws live value entered m
              (subst (IsLive s.llvm) (sym named) alive) e in
          let node : NodeStep hasher api blocks IsLive laws live v entered m =
            subst (λ r. NodeStep hasher api blocks IsLive laws live r entered m) named moved in
          let sound1 =
            NodeStep-Sound hasher api blocks IsLive laws live v entered m entered-Sound node in
          let seen1 : Visited v m =
            subst (λ vs. contains v vs ≡ true) (sym node.visited) (ground arith) in
          let same1 =
            new_same api blocks.instructions s.llvm m.llvm v (node.framed v alive).shape ∙ same in
          let (steps, explored) =
            parts-Steps hasher api blocks IsLive laws live visit visits v value m t sound1 seen1
              same1 rest in
          let named1 : Named api blocks.instructions m v = λ is_node.
            subst (λ x. NodeNamed hasher api blocks IsLive laws live x m)
              (sym same1 ∙ md_node-new hasher api blocks IsLive laws live m.llvm v is_node)
              renamed in
          join m t node steps (
            explored,
            Named-Step api blocks.instructions IsLive live.live-operand m t v sound1 seen1 steps
                named1,
          )

    visit_value-Steps :
        (item : Item) (s t : Sanitizer L)
        → Sound hasher api blocks IsLive live s
        → IsLive s.llvm (value_ref item)
        → visit_value hasher api blocks visit item s ≡ (ok tt, t)
        → Steps hasher api blocks IsLive live s t
    unfolding visit_value first_visit reading ◌>>=◌ ◌>>◌
    visit_value-Steps item s t sound alive h =
        let value = new api s.llvm (value_ref item) in
        let (u, m, e, rest) =
          >>=-eq-ok (replace_operand hasher api blocks item)
            (λ _. first_visit hasher api blocks (value_ref item) >>= λ first.
              if not first then pure tt else visit_children hasher api blocks visit item value)
            s h in
        let replaced = replace_operand-Step hasher api blocks IsLive laws live item s m sound e in
        let same =
          new_same api blocks.instructions s.llvm m.llvm (value_ref item)
            (replaced.shapes _ alive) in
        elim (Bool-cases (contains (value_ref item) m.visited_nodes)) [
          | inl seen ↦
              subst (λ r. Steps hasher api blocks IsLive live s r.1) (rw seen at rest) replaced
          | inr unseen ↦
              Step-trans api blocks.instructions IsLive live.live-operand s m t replaced (
                first_visit-Steps item value m replaced.sound (replaced.alive _ alive) unseen same t
                  (rw unseen at rest))
        ]

    visit_with-Steps :
        (item : Item) (s t : Sanitizer L)
        → Sound hasher api blocks IsLive live s
        → Starts hasher api blocks IsLive live s.llvm item
        → visit_with hasher api blocks visit item s ≡ (ok tt, t)
        → Steps hasher api blocks IsLive live s t
    unfolding visit_with ◌>>=◌
    visit_with-Steps item s t sound starts h = elim (Bool-cases (value_ref item == 0)) [
      | inl z ↦ elim (Bool-cases (is_operand item)) [
        | inl o ↦ Steps-refl hasher api blocks IsLive live s t sound (rw (z, o) at h)
        | inr o ↦ let h' = (rw (z, o) at h) in cc
      ]
      | inr z ↦ elim starts [
        | inl null ↦ absurd (ground (arith, null, z))
        | inr alive ↦ visit_value-Steps item s t sound alive (rw z at h)
      ]
    ]

  pub visit_item-Visits :
      (fuel : ℕ) → Visits hasher api blocks IsLive live (visit_item hasher api blocks fuel)
  unfolding visit_item ◌>>=◌ ◌>>◌
  visit_item-Visits zero = record {
    steps = λ item s t sound starts h. cc;
    leads = λ item s t h. cc;
    marks = λ item s t plain h. cc;
  }
  visit_item-Visits (suc fuel) = record {
    steps = λ item s t sound starts h.
        visit_with-Steps (visit_item hasher api blocks fuel) (visit_item-Visits fuel) item s t sound
          starts h;
    leads = λ item s t h.
        Leads-visit_item hasher api blocks (value_ref item) (suc fuel) item s t refl h;
    marks = λ item s t plain h.
        (Marks-visit_item hasher api blocks (value_ref item) (suc fuel) item refl plain).at s t tt
          h;
  }
