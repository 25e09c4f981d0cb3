-- ===== src/Di/Run/Reach.antt =====
-- What can be reached in the module's metadata from a value that the traversal has visited.
use bpf_linker.Prelude.{
  Text, ℕ, ◌≡◌, ◌≢◌, ◌<◌, subst, inl, inr, true, some, List, map, Among, All-Among, All-map,
}
use bpf_linker.Types.Api.{Ref, Api}
use bpf_linker.Types.Ir.{function, new, operands, metadata_entries, params}
use bpf_linker.Outcome.{ok}
use bpf_linker.Types.Laws.{MetadataLaws}
use bpf_linker.Types.Live.{LiveLaws}
use bpf_linker.Di.Names.{DefaultHasher}
use bpf_linker.Di.Sanitizer
use bpf_linker.Di.Sanitizer.{Sanitizer, contains}
use bpf_linker.Di.Node.Named.{HasKernelName}
use bpf_linker.Di.Linkage.Live.{BuilderLaws}
use bpf_linker.Di.Visit.{Blocks}
use bpf_linker.Di.Run.{run, dispose}
use bpf_linker.Di.Run.Top.{LiveRoots, TopLaws, top_level}
use bpf_linker.Di.Run.Closed.{run_complete}
use bpf_linker.Di.Visit.Grows.{Visited}
use bpf_linker.Di.Visit.Evolves.{IsReplacement}
use bpf_linker.Di.Visit.Explores.{Explored}

module _ {L : Type 0} (api : Api L) (instructions : L → Ref → List Ref) (t : Sanitizer L) where
  -- Paths over operands, metadata entries, parameters and instructions, that do not go on at a new
  -- subprogram which stands in an operand.
  pub data Reach (root : Ref) : Ref → Type 0 where
    here : Reach root root
    to_operand :
        (v w : Ref) (n j : ℕ)
        → Reach root v
        → operands api t.llvm (new api t.llvm v) ≡ some n
        → j < n
        → api.operand t.llvm v j ≡ w
        → w ≢ 0
        → ¬ IsReplacement api instructions t.replace_operands w
        → Reach root w
    to_entry :
        (v w : Ref) (es : List (Ref × ℕ))
        → Reach root v
        → metadata_entries api t.llvm (new api t.llvm v) ≡ some es
        → Among w (map (λ e. api.metadata_as_value e.0) es)
        → Reach root w
    to_param :
        (v w : Ref)
        → Reach root v
        → new api t.llvm v ≡ function v
        → Among w (params api t.llvm v)
        → Reach root w
    to_instruction :
        (v w : Ref)
        → Reach root v
        → new api t.llvm v ≡ function v
        → Among w (instructions t.llvm v)
        → Reach root w

  -- Visited values that have all been gone through lead to visited values only.
  Reach-Visited :
      (root w : Ref)
      → ((v : Ref) → Visited v t → Explored api instructions t v)
      → Visited root t
      → Reach root w
      → Visited w t
  Reach-Visited root _ done seen here = seen
  Reach-Visited root _ done seen (to_operand v w n j r e lt at other old) =
      elim ((done v (Reach-Visited root v done seen r)).operands_done n e j lt) [
        | inl null ↦ absurd (other (subst (λ x. x ≡ 0) at null))
        | inr (inl visited) ↦ subst (λ x. Visited x t) at visited
        | inr (inr new_program) ↦
            absurd (old (subst (IsReplacement api instructions t.replace_operands) at new_program))
      ]
  Reach-Visited root _ done seen (to_entry v w es r e among) =
      All-Among (λ x. Visited x t) w _
        (All-map _ _ es ((done v (Reach-Visited root v done seen r)).entries_done es e)) among
  Reach-Visited root _ done seen (to_param v w r e among) =
      All-Among (λ x. Visited x t) w _ ((done v (Reach-Visited root v done seen r)).parts_done e).0
        among
  Reach-Visited root _ done seen (to_instruction v w r e among) =
      All-Among (λ x. Visited x t) w _ ((done v (Reach-Visited root v done seen r)).parts_done e).1
        among

module _ {L : Type 0} (hasher : DefaultHasher) (api : Api L) (blocks : Blocks L)
    (IsLive : L → Ref → Type 0) (laws : MetadataLaws api)
    (live : LiveLaws api blocks.instructions IsLive) (roots : LiveRoots blocks IsLive)
    (builds : BuilderLaws api IsLive) (tops : TopLaws api blocks) (fuel : ℕ) (es : List Text)
    (context module_ref : Ref) (l : L) (t : Sanitizer L) (home : IsLive l module_ref)
    (h : run hasher api blocks fuel es (Sanitizer.new api context module_ref l) ≡ (ok tt, t)) where
  -- Where the sanitizer's pass over a module that is live returns, it has visited whatever can be
  -- reached from the module's globals, aliases and functions, in the state that it is in before it
  -- disposes of its builder, by way of operands, metadata entries, parameters and instructions. A
  -- path does not go on at a new subprogram which stands in an operand.
  pub run-reaches :
      (u : Sanitizer L) × (dispose hasher api blocks u ≡ (ok tt, t))
      × ((root w : Ref)
          → Among root (top_level blocks l module_ref)
          → Reach api blocks.instructions u root w
          → Visited w u)
  run-reaches =
      let (u, e, done, seen) =
        run_complete hasher api blocks IsLive laws live roots builds tops fuel es context module_ref
          l t home h in
      (
        u,
        e,
        λ root w among.
            Reach-Visited api blocks.instructions u root w (λ v k. (done v k).0)
              (All-Among (λ r. Visited r u) root _ seen among),
      )

  -- Where the sanitizer's pass over a module that is live returns, the names of the metadata nodes
  -- that can be reached from the module's globals, aliases and functions are fit for the kernel, in
  -- the state before the builder is disposed of. A node is reached by operands, metadata entries,
  -- parameters and instructions, on a path that does not go on at a new subprogram which stands in
  -- an operand. A pointer type has an empty name, and a structure that is no forward declaration and
  -- a subprogram have names of the characters 0-9, A-Z, a-z and _ alone with at most 128 bytes. A
  -- node may also have no name, or a new subprogram in the name's place.
  pub run-names :
      (u : Sanitizer L) × (dispose hasher api blocks u ≡ (ok tt, t))
      × ((root w : Ref)
          → Among root (top_level blocks l module_ref)
          → Reach api blocks.instructions u root w
          → api.is_a_md_node u.llvm w ≡ true
          → HasKernelName api (IsReplacement api blocks.instructions u.replace_operands) u.llvm w)
  run-names =
      let (u, e, done, seen) =
        run_complete hasher api blocks IsLive laws live roots builds tops fuel es context module_ref
          l t home h in
      (
        u,
        e,
        λ root w among r.
            (done w (
              Reach-Visited api blocks.instructions u root w (λ v k. (done v k).0)
                (All-Among (λ r. Visited r u) root _ seen among) r)).1,
      )
