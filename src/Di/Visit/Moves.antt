-- ===== src/Di/Visit/Moves.antt =====
-- What one visit changes before it goes on: the operand it replaces, and the node it visits.
use mathlib.Core.Option.{none-ne-some}
use bpf_linker.Prelude.{
  ℕ, ◌≡◌, refl, sym, ap, subst, ◌⊎◌, inl, inr, Bool-cases, Option-cases, Bool, true, false, not,
  ◌||◌, ◌&&◌, some, List, ◌==◌, if◌then◌else◌, All, All-mono,
}
use bpf_linker.Outcome.{ok, ◌>>=◌}
use bpf_linker.Types.Api.{Ref, Api}
use bpf_linker.Types.Ir
use bpf_linker.Types.Ir.{Value, md_node, function, new, operands, metadata_entries, params}
use bpf_linker.Types.Laws.{MetadataLaws}
use bpf_linker.Types.Live.{SameShape, LiveLaws}
use bpf_linker.Di.Names.{DefaultHasher}
use bpf_linker.Di.Sanitizer.{Sanitizer, contains, get, changing}
use bpf_linker.Di.Node.Named.{HasKernelName, visit_mdnode-HasKernelName}
use bpf_linker.Di.Node.Framed.{Framed, Framed-refl}
use bpf_linker.Di.Node.Frame.{Untouched, Keeps-visit_mdnode}
use bpf_linker.Di.Visit.{
  Item, Operand, operand, Blocks, replace, replace_found, replace_operand, visit_node,
}
use bpf_linker.Di.Visit.Grows.{Visited}
use bpf_linker.Di.Visit.Evolves.{IsReplacement, get-IsReplacement}
use bpf_linker.Di.Visit.Explores.{Step-refl}
use bpf_linker.Di.Visit.Loops.{Steps, Sound, Steps-refl, FunctionSeen}

module _ {L : Type 0} (hasher : DefaultHasher) (api : Api L) (blocks : Blocks L)
    (IsLive : L → Ref → Type 0) (laws : MetadataLaws api)
    (live : LiveLaws api blocks.instructions IsLive) where
  pub value_ref-new : (s : L) (v : Ref) → Ir.value_ref (new api s v) ≡ v
  value_ref-new s v = elim (Bool-cases (api.is_a_md_node s v)) [
    | inl e ↦ rw e refl
    | inr e ↦ elim (Bool-cases (api.is_a_function s v)) [
      | inl f ↦ rw (e, f) refl
      | inr f ↦ rw (e, f) refl
    ]
  ]

  pub md_node-new : (s : L) (v : Ref) → api.is_a_md_node s v ≡ true → new api s v ≡ md_node v
  md_node-new s v e = rw e refl

  pub entries_found :
      (s : L) (v : Ref) (es : List (Ref × ℕ))
      → metadata_entries api s (new api s v) ≡ some es
      → api.global_copy_all_metadata s v ≡ some es
  entries_found s v es h =
      let same = value_ref-new s v in
      elim (Bool-cases (not (api.is_a_global_object s v || api.is_a_instruction s v))) [
        | inl e ↦ absurd (none-ne-some es (rw (same, e) at h))
        | inr e ↦ (rw (same, e) at h)
      ]

  pub FunctionSeen-new :
      (l : L) (v : Ref) (s : Sanitizer L)
      → Visited v s
      → FunctionSeen hasher api blocks IsLive live s (new api l v)
  FunctionSeen-new l v s h = elim (Bool-cases (api.is_a_md_node l v)) [
    | inl e ↦ rw e tt
    | inr e ↦ elim (Bool-cases (api.is_a_function l v)) [
      | inl f ↦ rw (e, f) h
      | inr f ↦ rw (e, f) tt
    ]
  ]

  -- What the visit of a node does to everything else.
  pub record NodeStep (v : Ref) (s t : Sanitizer L) : Type 0 where
    pub framed :
        (w : Ref)
        → IsLive s.llvm w
        → Framed hasher api blocks.instructions IsLive laws live v s.llvm t.llvm w
    pub home : t.module_ref ≡ s.module_ref
    pub visited : t.visited_nodes ≡ s.visited_nodes
    pub replaced : t.replace_operands ≡ s.replace_operands

  -- The node that was visited has a name that the kernel accepts.
  abbrev pub NodeNamed : Value → Sanitizer L → Type 0
  NodeNamed (md_node v) t =
      HasKernelName api (IsReplacement api blocks.instructions t.replace_operands) t.llvm v
  NodeNamed _ t = Unit

  NodeStep-refl : (v : Ref) (s : Sanitizer L) → IsLive s.llvm v → NodeStep v s s
  NodeStep-refl v s alive = record {
    framed = λ w h. Framed-refl hasher api blocks.instructions IsLive laws live v s.llvm w alive h;
    home = refl;
    visited = refl;
    replaced = refl;
  }

  pub visit_node-NodeStep :
      (value : Value) (s t : Sanitizer L)
      → IsLive s.llvm (Ir.value_ref value)
      → visit_node hasher api blocks value s ≡ (ok tt, t)
      → NodeStep (Ir.value_ref value) s t × NodeNamed value t
  unfolding visit_node ◌>>=◌
  visit_node-NodeStep (md_node v) s t alive h =
      let untouched = λ (w : Ref) (l : IsLive s.llvm w).
        subst
          (λ r.
            Untouched hasher api blocks.instructions IsLive laws live v s.llvm w s.module_ref
              s.visited_nodes s.replace_operands r.1)
          h
          ((Keeps-visit_mdnode hasher api blocks.instructions IsLive laws live v s.llvm w
              s.module_ref s.visited_nodes s.replace_operands).at
            s
            (record {
              framed =
                  Framed-refl hasher api blocks.instructions IsLive laws live v s.llvm w alive l;
              home_same = refl;
              visited = refl;
              replaced = refl;
            })) in
      (
        record {
          framed = λ w l. (untouched w l).framed;
          home = (untouched v alive).home_same;
          visited = (untouched v alive).visited;
          replaced = (untouched v alive).replaced;
        },
        visit_mdnode-HasKernelName hasher api blocks.instructions IsLive laws live
            (IsReplacement api blocks.instructions t.replace_operands) v s t alive h
            (untouched v alive).framed.shape,
      )
  visit_node-NodeStep (function v) s t alive h =
      (subst (NodeStep v s) (ap (λ r. r.1) h) (NodeStep-refl v s alive), tt)
  visit_node-NodeStep (Value.other v) s t alive h =
      (subst (NodeStep v s) (ap (λ r. r.1) h) (NodeStep-refl v s alive), tt)

  -- LLVM's state changes, but for operands that are replaced only where nothing looks.
  changed-Step :
      (s : Sanitizer L) (l : L)
      → Sound hasher api blocks IsLive live s
      → ((w : Ref) → IsLive s.llvm w → IsLive l w)
      → ((w : Ref) → IsLive s.llvm w → SameShape api blocks.instructions s.llvm l w)
      → ((w : Ref) (j : ℕ)
          → (api.operand l w j ≡ api.operand s.llvm w j)
            ⊎ IsReplacement api blocks.instructions s.replace_operands (api.operand l w j))
      → Steps hasher api blocks IsLive live s (record s { llvm = l })
  changed-Step s l sound alive shapes ops = record {
    sound = record {
      visited = λ v h. alive v (sound.visited v h);
      replacements = All-mono _ _ (λ e. alive (api.metadata_as_value e.1)) _ sound.replacements;
    };
    same = refl;
    home = refl;
    alive = alive;
    grows = λ w h. h;
    shapes = shapes;
    evolves = λ v h. record { shape = shapes v (sound.visited v h); operand = ops v };
    fresh = λ v h. inl h;
  }

  -- An operand after a write of `x` to one place.
  written :
      (rs : List (ℕ × Ref)) (b : Bool) (new_operand old_operand x : Ref)
      → new_operand ≡ (if b then x else old_operand)
      → IsReplacement api blocks.instructions rs x
      → (new_operand ≡ old_operand) ⊎ IsReplacement api blocks.instructions rs new_operand
  written rs true n o x e r = inr (subst (IsReplacement api blocks.instructions rs) (sym e) r)
  written rs false n o x e r = inl e

  -- The operand that the item stands for is replaced.
  replace-Step :
      (o : Operand) (m : Ref) (s : Sanitizer L)
      → get o.value s.replace_operands ≡ some m
      → Sound hasher api blocks IsLive live s
      → Steps hasher api blocks IsLive live s
          (record s { llvm = replace hasher api blocks o (api.metadata_as_value m) s.llvm })
  replace-Step o m s found sound =
      let (r, made) =
        get-IsReplacement api blocks.instructions (IsLive s.llvm) o.value s.replace_operands m
          sound.replacements found in
      let same = laws.value_of_metadata m in
      elim (Bool-cases (api.is_a_md_node s.llvm o.parent)) [
        | inl e ↦ rw e (
            changed-Step s _ sound
              (λ w. live.live-replace o.parent o.index _ s.llvm w (inr (rw same made)))
              (live.shape-replace o.parent o.index _ s.llvm)
              λ w j.
                written s.replace_operands (w == o.parent && j == o.index) _ _ _
                  (laws.operand-replace o.parent o.index _ s.llvm w j) (rw same r))
        | inr e ↦ elim (Bool-cases (api.is_a_user s.llvm o.parent)) [
          | inl f ↦
              rw (e, f)
                (changed-Step s _ sound (λ w. live.live-set o.parent o.index _ s.llvm w (inr made))
                  (live.shape-set o.parent o.index _ s.llvm)
                  λ w j.
                    written s.replace_operands (w == o.parent && j == o.index) _ _ _
                      (live.operand-set o.parent o.index _ s.llvm w j) r)
          | inr f ↦ rw (e, f) (Step-refl api blocks.instructions IsLive s sound)
        ]
      ]

  pub replace_operand-Step :
      (item : Item) (s t : Sanitizer L)
      → Sound hasher api blocks IsLive live s
      → replace_operand hasher api blocks item s ≡ (ok tt, t)
      → Steps hasher api blocks IsLive live s t
  unfolding replace_operand replace_found changing ◌>>=◌
  replace_operand-Step (operand o) s t sound h =
      elim (Option-cases (get o.value s.replace_operands)) [
        | inl e ↦ Steps-refl hasher api blocks IsLive live s t sound (rw e at h)
        | inr (m, e) ↦
            subst (λ r. Steps hasher api blocks IsLive live s r.1) (rw e at h)
              (replace-Step o m s e sound)
      ]
  replace_operand-Step _ s t sound h = Steps-refl hasher api blocks IsLive live s t sound h

  pub NodeStep-Sound :
      (v : Ref) (s t : Sanitizer L)
      → Sound hasher api blocks IsLive live s
      → NodeStep v s t
      → Sound hasher api blocks IsLive live t
  NodeStep-Sound v s t sound step = record {
    visited = λ w seen.
        (step.framed w
          (sound.visited w (subst (λ vs. contains w vs ≡ true) step.visited seen))).alive;
    replacements =
        subst (All (λ e. IsLive t.llvm (api.metadata_as_value e.1))) (sym step.replaced) (
          All-mono _ _ (λ e l. (step.framed (api.metadata_as_value e.1) l).alive) _
            sound.replacements);
  }
