-- ===== src/Di/Visit/Fits.antt =====
-- What the traversal goes on with is not null, and what it replaces is no name.
use mathlib.Core.Option.{none-ne-some}
use bpf_linker.Prelude.{
  ℕ, ◌≡◌, ◌≢◌, sym, ap, subst, ◌∙◌, inl, inr, Bool-cases, Option-cases, some, List, [], ◌∷◌, arith,
  ◌==◌, All, All-mono,
}
use bpf_linker.Outcome.{◌>>=◌}
use bpf_linker.Types.Api.{Ref, Api}
use bpf_linker.Types.Ir.{Value, md_node}
use bpf_linker.Types.Di.{type_name_operand}
use bpf_linker.Types.Laws.{MetadataLaws}
use bpf_linker.Types.Text.{IsSubprogram, TextLaws, Legible, Legible-replace, Legible-set}
use bpf_linker.Di.Names.{DefaultHasher}
use bpf_linker.Di.Sanitizer.{Sanitizer, contains, get, changing}
use bpf_linker.Di.Node.{visit_mdnode}
use bpf_linker.Di.Node.Legible.{Fit, visit_mdnode-Fit, visit_mdnode_ok}
use bpf_linker.Di.Visit.Safe.{Ready, Fares, Safe, Fares-ok, Safe-pure}
use bpf_linker.Di.Visit.{
  Item, Operand, global_variable, global_alias, function_item, operand, function_param, instruction,
  metadata_entry, value_ref, Blocks, replace, replace_found, replace_operand, first_visit,
  visit_node,
}

module _ {L : Type 0} (hasher : DefaultHasher) (api : Api L) (blocks : Blocks L)
    (laws : MetadataLaws api) (texts : TextLaws api) where
  -- An operand is what its place holds; nothing else is null.
  abbrev pub Fits : Sanitizer L → Item → Type 0
  Fits s (operand o) = api.operand s.llvm o.parent o.index ≡ o.value
  Fits s (global_variable v) = v ≢ 0
  Fits s (global_alias v) = v ≢ 0
  Fits s (function_item v) = v ≢ 0
  Fits s (function_param v) = v ≢ 0
  Fits s (instruction v) = v ≢ 0
  Fits s (metadata_entry v kind index) = v ≢ 0

  key-IsSubprogram :
      (l : L) (key : ℕ) (rs : List (ℕ × Ref)) (m : Ref)
      → All (λ e. IsSubprogram api l e.0) rs
      → get key rs ≡ some m
      → IsSubprogram api l key
  key-IsSubprogram l key [] m all h = cc
  key-IsSubprogram l key ((k, n) ∷ rs) m all h = elim (Bool-cases (k == key)) [
    | inl e ↦ let e' : k ≡ key = ground (arith, e) in subst (IsSubprogram api l) e' all.0
    | inr e ↦ key-IsSubprogram l key rs m all.1 (ground (arith, e, h))
  ]

  -- No name is a subprogram.
  name_is_text :
      (l : L) (v key : Ref)
      → Legible api l
      → IsSubprogram api l v
      → IsSubprogram api l key
      → key ≢ 0
      → api.operand l v type_name_operand ≢ key
  name_is_text l v key legible is key_is other e = elim (legible.name v is) [
    | inl null ↦ other (sym e ∙ null)
    | inr (t, text) ↦
        none-ne-some t (sym (texts.not_string l key key_is) ∙ (sym (ap (api.md_string l) e) ∙ text))
  ]

  -- The operand that is replaced is no subprogram's name.
  replace-Fit :
      (o : Operand) (x : Ref) (rs : List (ℕ × Ref)) (l : L)
      → IsSubprogram api l o.value
      → o.value ≢ 0
      → api.operand l o.parent o.index ≡ o.value
      → Fit api rs l
      → Fit api rs (replace hasher api blocks o x l)
  replace-Fit o x rs l key other here fit =
      let no_name = λ (is : IsSubprogram api l o.parent) (e : o.index ≡ type_name_operand).
        name_is_text l o.parent o.value fit.0 is key other
          (subst (λ i. api.operand l o.parent i ≡ o.value) e here) in
      elim (Bool-cases (api.is_a_md_node l o.parent)) [
        | inl e ↦ rw e (
          Legible-replace api laws texts o.parent o.index (api.value_as_metadata x) l
              (λ is i. absurd (no_name is i)) fit.0,
          All-mono _ _
              (λ k. (texts.subprogram-replace o.parent o.index (api.value_as_metadata x) l k.0).1)
              rs fit.1,
        )
        | inr e ↦ elim (Bool-cases (api.is_a_user l o.parent)) [
          | inl f ↦
              rw (e, f)
                (
                  Legible-set api laws texts o.parent o.index x l no_name fit.0,
                  All-mono _ _ (λ k. (texts.subprogram-set o.parent o.index x l k.0).1) rs fit.1,
                )
          | inr f ↦ rw (e, f) fit
        ]
      ]

  pub Fares-replace_operand :
      (item : Item) (s : Sanitizer L)
      → Ready api s
      → Fits s item
      → value_ref item ≢ 0
      → Fares api (replace_operand hasher api blocks item s)
  unfolding replace_operand replace_found changing ◌>>=◌
  Fares-replace_operand (operand o) s ready fits other =
      elim (Option-cases (get o.value s.replace_operands)) [
        | inl e ↦ rw e ready
        | inr (m, e) ↦ rw e (
            replace-Fit o (api.metadata_as_value m) s.replace_operands s.llvm
              (key-IsSubprogram s.llvm o.value s.replace_operands m ready.1 e) other fits ready)
      ]
  Fares-replace_operand _ s ready fits other = ready

  pub Safe-first_visit : (id : ℕ) → Safe api (first_visit hasher api blocks id)
  unfolding first_visit
  Safe-first_visit id = record {
    at = λ s h. elim (Bool-cases (contains id s.visited_nodes)) [ inl e ↦ rw e h | inr e ↦ rw e h ];
  }

  pub Safe-visit_node : (value : Value) → Safe api (visit_node hasher api blocks value)
  unfolding visit_node
  Safe-visit_node (md_node v) = record {
    at = λ s h.
        Fares-ok api (visit_mdnode hasher api v s) tt (visit_mdnode_ok api laws texts hasher v s h)
          (visit_mdnode-Fit api laws texts hasher v s h);
  }
  Safe-visit_node _ = Safe-pure api tt
