-- ===== src/Di/Visit/Explores.antt =====
-- What the traversal has done for every address that it has visited, and how actions compose.
use bpf_linker.Prelude.{
  ℕ, ◌≡◌, ◌<◌, refl, sym, subst, ◌∙◌, ◌⊎◌, inl, inr, true, some, List, All, All-mono,
}
use bpf_linker.Types.Api.{Ref, Api}
use bpf_linker.Types.Ir.{function, new, operands, metadata_entries, params}
use bpf_linker.Types.Live.{NullOr, SameShape, SameShape-refl, SameShape-trans}
use bpf_linker.Di.Sanitizer.{Sanitizer}
use bpf_linker.Types.Di.{type_name_operand}
use bpf_linker.Di.Node.Named.{HasKernelName}
use bpf_linker.Di.Visit.Grows.{Visited}
use bpf_linker.Di.Visit.Evolves.{
  IsReplacement, Evolves, Evolves-refl, Evolves-trans, new_same, operands_same, entries_same,
  params_same, HasKernelName-Evolves,
}

module _ {L : Type 0} (api : Api L) (instructions : L → Ref → List Ref) where
  -- Where an operand may lead: nowhere, to a visited value, or to a new subprogram.
  abbrev pub Settled : Sanitizer L → Ref → Type 0
  Settled t w = (w ≡ 0) ⊎ (Visited w t ⊎ IsReplacement api instructions t.replace_operands w)

  -- All that a value leads to has been visited.
  pub record Explored (t : Sanitizer L) (v : Ref) : Type 0 where
    pub operands_done :
        (n : ℕ)
        → operands api t.llvm (new api t.llvm v) ≡ some n
        → (j : ℕ) → j < n
        → Settled t (api.operand t.llvm v j)
    pub entries_done :
        (es : List (Ref × ℕ))
        → metadata_entries api t.llvm (new api t.llvm v) ≡ some es
        → All (λ e. Visited (api.metadata_as_value e.0) t) es
    pub parts_done :
        new api t.llvm v ≡ function v
        → All (λ p. Visited p t) (params api t.llvm v)
          × All (λ i. Visited i t) (instructions t.llvm v)

  -- What a visited node is called.
  abbrev pub Named : Sanitizer L → Ref → Type 0
  Named t v =
      api.is_a_md_node t.llvm v ≡ true
      → HasKernelName api (IsReplacement api instructions t.replace_operands) t.llvm v

  module _ (IsLive : L → Ref → Type 0) where
    -- Visited values are live, and so are the new subprograms.
    pub record IsSound (s : Sanitizer L) : Type 0 where
      pub visited : (v : Ref) → Visited v s → IsLive s.llvm v
      pub replacements : All (λ e. IsLive s.llvm (api.metadata_as_value e.1)) s.replace_operands

    pub record Step (s t : Sanitizer L) : Type 0 where
      pub sound : IsSound t
      pub same : t.replace_operands ≡ s.replace_operands
      pub home : t.module_ref ≡ s.module_ref
      pub alive : (w : Ref) → IsLive s.llvm w → IsLive t.llvm w
      pub grows : (w : Ref) → Visited w s → Visited w t
      pub shapes : (w : Ref) → IsLive s.llvm w → SameShape api instructions s.llvm t.llvm w
      pub evolves :
          (v : Ref) → Visited v s → Evolves api instructions s.replace_operands s.llvm t.llvm v
      pub fresh : (v : Ref) → Visited v t → Visited v s ⊎ (Explored t v × Named t v)

    pub Step-refl : (s : Sanitizer L) → IsSound s → Step s s
    Step-refl s h = record {
      sound = h;
      same = refl;
      home = refl;
      alive = λ w l. l;
      grows = λ w l. l;
      shapes = λ w l. SameShape-refl s.llvm w;
      evolves = λ v l. Evolves-refl api instructions s.replace_operands s.llvm v;
      fresh = λ v l. inl l;
    }

    Settled-Step : (t u : Sanitizer L) (w : Ref) → Step t u → Settled t w → Settled u w
    Settled-Step t u w st (inl e) = inl e
    Settled-Step t u w st (inr (inl v)) = inr (inl (st.grows w v))
    Settled-Step t u w st (inr (inr r)) =
        inr (inr (subst (λ rs. IsReplacement api instructions rs w) (sym st.same) r))

    -- An operand that was settled stays so, replaced or not.
    pub Settled-operand :
        (t u : Sanitizer L) (v : Ref) (j : ℕ)
        → Visited v t
        → Step t u
        → Settled t (api.operand t.llvm v j)
        → Settled u (api.operand u.llvm v j)
    Settled-operand t u v j seen st h = elim ((st.evolves v seen).operand j) [
      | inl e ↦ subst (Settled u) (sym e) (Settled-Step t u _ st h)
      | inr r ↦ inr (
          inr (
            subst (λ rs. IsReplacement api instructions rs (api.operand u.llvm v j)) (sym st.same)
              r))
    ]

    -- What was explored stays explored.
    Explored-Step :
        (t u : Sanitizer L) (v : Ref) → Visited v t → Step t u → Explored t v → Explored u v
    Explored-Step t u v seen st h =
        let shape = (st.evolves v seen).shape in
        record {
          operands_done = λ n e j lt. Settled-operand t u v j seen st (
              h.operands_done n (sym (operands_same api instructions t.llvm u.llvm v shape) ∙ e) j
                lt);
          entries_done = λ es e.
              All-mono _ _ (λ x. st.grows (api.metadata_as_value x.0)) es
                (h.entries_done es (sym (entries_same api instructions t.llvm u.llvm v shape) ∙ e));
          parts_done = λ e.
              let (ps, is) =
                h.parts_done (sym (new_same api instructions t.llvm u.llvm v shape) ∙ e) in
              (
                subst (All (λ p. Visited p u))
                    (sym (params_same api instructions t.llvm u.llvm v shape))
                    (All-mono _ _ st.grows _ ps),
                subst (All (λ i. Visited i u)) (sym shape.instruction_list)
                    (All-mono _ _ st.grows _ is),
              );
        }

    module _
        (live-operand : (s : L) (v : Ref) (i : ℕ)
          → IsLive s v
          → NullOr (IsLive s) (api.operand s v i)) where
      -- A name that is accepted stays so.
      pub Named-Step :
          (t u : Sanitizer L) (v : Ref) → IsSound t → Visited v t → Step t u → Named t v → Named u v
      Named-Step t u v sound seen st h node =
          let alive = sound.visited v seen in
          let evolves = st.evolves v seen in
          subst (λ rs. HasKernelName api (IsReplacement api instructions rs) u.llvm v) (sym st.same)
            (HasKernelName-Evolves api instructions t.replace_operands t.llvm u.llvm v IsLive
              (live-operand t.llvm v type_name_operand alive) st.shapes evolves
              (h (sym evolves.shape.md_node ∙ node)))

      pub Step-trans : (s t u : Sanitizer L) → Step s t → Step t u → Step s u
      Step-trans s t u p q = record {
        sound = q.sound;
        same = q.same ∙ p.same;
        home = q.home ∙ p.home;
        alive = λ w l. q.alive w (p.alive w l);
        grows = λ w l. q.grows w (p.grows w l);
        shapes = λ w l. SameShape-trans (p.shapes w l) (q.shapes w (p.alive w l));
        evolves = λ v l. Evolves-trans api instructions (p.evolves v l) (
            subst (λ rs. Evolves api instructions rs t.llvm u.llvm v) p.same
              (q.evolves v (p.grows v l)));
        fresh = λ v l. elim (q.fresh v l) [
          | inr done ↦ inr done
          | inl old ↦ elim (p.fresh v old) [
            | inl older ↦ inl older
            | inr (done, named) ↦
                inr (Explored-Step t u v old q done, Named-Step t u v p.sound old q named)
          ]
        ];
      }
