-- ===== src/Di/Linkage/Live.antt =====
-- `fix_subprogram_linkage` and what is live: nothing is freed, and the new subprograms are live.
use bpf_linker.Prelude.{
  ℕ, ◌≡◌, sym, subst, ◌⊎◌, inl, inr, Bool-cases, List, [], ◌∷◌, ◌==◌, All, All-mono,
}
use bpf_linker.Outcome.{Outcome, ok, pure, ◌>>=◌, ◌>>◌, >>=-eq-ok}
use bpf_linker.Outcome.Keeps.{Keeps}
use bpf_linker.Types.Api.{Ref, Api, FunctionArgs}
use bpf_linker.Types.Ir.{set_function_subprogram}
use bpf_linker.Types.Di.{
  non_null, unit, retained_nodes, set_unit, set_retained_nodes, unit_operand,
  retained_nodes_operand,
}
use bpf_linker.Types.Laws.{MetadataLaws}
use bpf_linker.Types.Live.{NullOr, LiveLaws}
use bpf_linker.Di.Sanitizer.{Sanitizer, Stop, Visit, reading, changing, calling}
use bpf_linker.Di.Keeps.{Gives, Gives-bind, Gives-then, Keeps-changing, visit_rules}
use bpf_linker.Di.Linkage.{set_optional, create_local, localize}

-- What is relied on of the builder of debug information.
pub record BuilderLaws {L : Type 0} (api : Api L) (IsLive : L → Ref → Type 0) : Type 0 where
  pub live-builder :
      (m : Ref) (s : L) (w : Ref) → IsLive s w → IsLive (api.create_di_builder m s).1 w
  pub live-set_subprogram :
      (f p : Ref) (s : L) (w : Ref) → IsLive s w → IsLive (api.set_subprogram f p s) w
  pub live-create :
      (b : Ref) (args : FunctionArgs) (s : L) (w : Ref)
      → IsLive s w
      → IsLive (api.di_builder_create_function b args s).1 w
  -- In a state with a live value the new subprogram is live too.
  pub live-create_new :
      (b : Ref) (args : FunctionArgs) (s : L) (w : Ref)
      → IsLive s w
      → let (p, s') = api.di_builder_create_function b args s in IsLive s' (api.metadata_as_value p)
  pub live-finalize :
      (b p : Ref) (s : L) (w : Ref)
      → IsLive s w
      → IsLive (api.di_builder_finalize_subprogram b p s) w
  pub live-subprogram :
      (s : L) (f : Ref)
      → IsLive s f
      → (api.get_subprogram s f ≡ 0) ⊎ IsLive s (api.metadata_as_value (api.get_subprogram s f))

module _ {L : Type 0} (api : Api L) (instructions : L → Ref → List Ref) (IsLive : L → Ref → Type 0)
    (laws : MetadataLaws api) (live : LiveLaws api instructions IsLive)
    (builds : BuilderLaws api IsLive) where
  module _ (home : Ref) where
    -- The values are live, and the module is still the one that it was.
    abbrev pub Alive : List Ref → Sanitizer L → Type 0
    Alive ws s = (s.module_ref ≡ home) × All (IsLive s.llvm) ws

    -- What an action returns is live, if it returns at all.
    abbrev GivesLive : Outcome Stop Ref → L → Type 0
    GivesLive (ok r) l = IsLive l r
    GivesLive _ l = Unit

    Keeps-Alive :
        (ws : List Ref) (f : L → L)
        → ((l : L) (w : Ref) → IsLive l w → IsLive (f l) w)
        → Keeps (Alive ws) (changing f)
    Keeps-Alive ws f k = Keeps-changing f (λ s h. (h.0, All-mono _ _ (k s.llvm) ws h.1))

    Gives-create :
        (w builder : Ref) (args : FunctionArgs)
        → Gives
            (Alive (w ∷ []))
            (λ r l. IsLive l r)
            (calling (api.di_builder_create_function builder args) >>= λ new_program.
              changing (api.di_builder_finalize_subprogram builder new_program)
              >> pure (api.metadata_as_value new_program))
    unfolding calling changing ◌>>=◌ ◌>>◌
    Gives-create w builder args = record {
      at = λ s t r alive h.
          let made = api.di_builder_create_function builder args s.llvm in
          let finish = builds.live-finalize builder made.0 made.1 in
          (
            subst (λ q. Alive (w ∷ []) q.1) h
                (alive.0, (finish w (builds.live-create builder args s.llvm w alive.1.0), tt)),
            subst (λ q. GivesLive q.0 q.1.llvm) h
                (finish _ (builds.live-create_new builder args s.llvm w alive.1.0)),
          );
    }

    Gives-create_local :
        (w builder sub : Ref)
        → Gives (Alive (w ∷ [])) (λ r l. IsLive l r) (create_local api builder sub)
    unfolding create_local
    Gives-create_local w builder sub = search (Gives-bind, Gives-create, visit_rules) depth 20

    module _ (w sub new_program : Ref) where
      abbrev Three : Sanitizer L → Type 0
      Three = Alive (w ∷ sub ∷ new_program ∷ [])

      -- An operand of the old subprogram is put into the new one, if it is not null.
      Gives-copy :
          {A : Type 0} {Q : A → L → Type 0} (k j : ℕ) (rest : Visit L A)
          → Gives Three Q rest
          → Gives Three Q (
              reading (λ s. non_null api.value_as_metadata (api.operand s sub k)) >>= λ found.
              set_optional api (λ m. api.replace_md_node_operand_with new_program j m) found
              >> rest)
      unfolding reading set_optional changing ◌>>=◌ ◌>>◌
      Gives-copy k j rest given = record {
        at = λ s t a h e. elim (Bool-cases (api.operand s.llvm sub k == 0)) [
          | inl null ↦ given.at s t a h (rw null at e)
          | inr found ↦
              let m = api.value_as_metadata (api.operand s.llvm sub k) in
              let made =
                subst (NullOr (IsLive s.llvm))
                  (sym (laws.metadata_of_value (api.operand s.llvm sub k)))
                  (live.live-operand s.llvm sub k h.1.1.0) in
              given.at (record s { llvm = api.replace_md_node_operand_with new_program j m s.llvm })
                t a
                (
                  h.0,
                  All-mono _ _ (λ x. live.live-replace new_program j m s.llvm x made)
                      (w ∷ sub ∷ new_program ∷ []) h.1,
                )
                (rw found at e)
        ];
      }

      -- The old subprogram is left without retained nodes.
      Gives-empty :
          Gives Three
            (λ r l. IsLive l r)
            (calling (api.md_node_in_context []) >>= λ empty_node.
              changing (set_retained_nodes api sub empty_node) >> pure new_program)
      unfolding calling changing ◌>>=◌ ◌>>◌
      Gives-empty = record {
        at = λ s t r h e.
            let (node, l) = api.md_node_in_context [] s.llvm in
            let here = live.live-node_new [] s.llvm w tt h.1.0 in
            let kept = λ (x : Ref) (k : IsLive s.llvm x).
              live.live-replace sub retained_nodes_operand node l x (inr here)
                (live.live-node [] s.llvm x tt k) in
            (
              subst (λ q. Three q.1) e (h.0, All-mono _ _ kept (w ∷ sub ∷ new_program ∷ []) h.1),
              subst (λ q. GivesLive q.0 q.1.llvm) e (kept new_program h.1.1.1.0),
            );
      }

      Gives-attach :
          (f : Ref)
          → Gives Three
              (λ r l. IsLive l r)
              (changing (set_function_subprogram api f new_program)
                >> (reading (λ s. unit api s sub) >>= λ u.
                    set_optional api (set_unit api new_program) u
                    >> (reading (λ s. retained_nodes api s sub) >>= λ nodes.
                        set_optional api (set_retained_nodes api new_program) nodes
                        >> (calling (api.md_node_in_context []) >>= λ empty_node.
                            changing (set_retained_nodes api sub empty_node) >> pure new_program))))
      Gives-attach f =
          Gives-then _ _
            (Keeps-Alive (w ∷ sub ∷ new_program ∷ []) _
              (builds.live-set_subprogram f (api.value_as_metadata new_program)))
            (Gives-copy unit_operand unit_operand _
              (Gives-copy retained_nodes_operand retained_nodes_operand _ Gives-empty))

    pub localize-Alive :
        (w builder f sub : Ref) (s t : Sanitizer L) (r : Ref)
        → Alive (w ∷ []) s
        → IsLive s.llvm sub
        → localize api builder f sub s ≡ (ok r, t)
        → Alive (w ∷ []) t × IsLive t.llvm r
    unfolding localize
    localize-Alive w builder f sub s t r h live_sub e =
        let (new_program, s1, e1, rest) = >>=-eq-ok (create_local api builder sub) _ s e in
        let (kept, made) = (Gives-create_local w builder sub).at s s1 new_program h e1 in
        let (old, _) =
          (Gives-create_local sub builder sub).at s s1 new_program (h.0, (live_sub, tt)) e1 in
        let ((home_same, (w_live, _)), result) =
          (Gives-attach w sub new_program f).at s1 t r (kept.0, (kept.1.0, (old.1.0, (made, tt))))
            rest in
        ((home_same, (w_live, tt)), result)
