-- ===== src/Di/Node/Frame.antt =====
-- `visit_mdnode` and what is around the node: the other values and the sanitizer's sets.
use bpf_linker.Prelude.{
  subst, sym, All, ℕ, ◌≡◌, inr, Bool, true, false, Option, none, some, List, [], ◌∷◌, map, Text,
}
use bpf_linker.Outcome.{◌>>=◌, ◌>>◌}
use bpf_linker.Outcome.Keeps.{Keeps, Keeps-continue, Keeps-bind, Keeps-unwrap, Keeps-if, Keeps-pure}
use bpf_linker.Types.Api.{Ref, Api, MetadataKind, di_composite_type, di_derived_type, di_subprogram}
use bpf_linker.Types.Ir.{of_kind, replace_name, with_elements}
use bpf_linker.Types.Di.{
  type_name_operand, subprogram_name_operand, elements_operand, replace_type_name,
  replace_subprogram_name, replace_elements, elements, offset_in_bits,
}
use bpf_linker.Types.Laws.{MetadataLaws}
use bpf_linker.Types.Live.{LiveLaws, NullOr}
use bpf_linker.Di.Sort.{sort_by_key}
use bpf_linker.Di.Sort.Laws.{All-sort_by_key}
use bpf_linker.Di.Scan.{scan}
use bpf_linker.Di.Scan.Laws.{All-scan}
use bpf_linker.Di.Names.{DefaultHasher}
use bpf_linker.Di.Sanitizer.{Sanitizer, unwrapping, changing, calling, reading}
use bpf_linker.Di.Keeps.{Keeps-unwrapping, Keeps-reading, visit_rules}
use bpf_linker.Di.Node.{
  start_scan, names_of, replace_members, rename, scanning, visit_structure, rename_subprogram,
  visit_metadata, visit_mdnode,
}
use bpf_linker.Di.Node.Framed.{
  Framed, Framed-replace, Framed-node, Framed-replace_name, live_metadata, elements-OfField,
}

module _ {L : Type 0} (hasher : DefaultHasher) (api : Api L) (instructions : L → Ref → List Ref)
    (IsLive : L → Ref → Type 0) (laws : MetadataLaws api)
    (live : LiveLaws api instructions IsLive) where
  module _ (v : Ref) (s : L) (w : Ref) where
    -- The sanitizer's sets stay as well.
    module _ (home : Ref) (nodes : List ℕ) (replacements : List (ℕ × Ref)) where
      pub record Untouched (t : Sanitizer L) : Type 0 where
        pub framed : Framed hasher api instructions IsLive laws live v s t.llvm w
        pub home_same : t.module_ref ≡ home
        pub visited : t.visited_nodes ≡ nodes
        pub replaced : t.replace_operands ≡ replacements

      -- A change of LLVM's state that leaves the value alone.
      inside :
          (f : L → L)
          → ((t : L)
              → Framed hasher api instructions IsLive laws live v s t w
              → Framed hasher api instructions IsLive laws live v s (f t) w)
          → (t : Sanitizer L) → Untouched t
          → Untouched (record t { llvm = f t.llvm })
      inside f k t h = record {
        framed = k t.llvm h.framed;
        home_same = h.home_same;
        visited = h.visited;
        replaced = h.replaced;
      }

      Keeps-names_of : (name : Option Text) → Keeps Untouched (names_of hasher api name)
      unfolding names_of
      Keeps-names_of none = search visit_rules
      Keeps-names_of (some name) = search visit_rules

      -- A new node of live members becomes the elements.
      new_elements :
          (ms : List Ref) (t : Sanitizer L)
          → All (NullOr (IsLive t.llvm)) ms
          → Untouched t
          → Untouched (record t {
            llvm = let (node, l) = with_elements api ms t.llvm in replace_elements api v node l;
          })
      new_elements ms t k h =
          let ms' = map api.value_as_metadata ms in
          let alive = live_metadata hasher api instructions IsLive laws live v s w ms t.llvm k in
          let made =
            Framed-node hasher api instructions IsLive laws live v s w ms' t.llvm alive h.framed in
          let same = laws.value_of_metadata (api.md_node_in_context ms' t.llvm).0 in
          record {
            framed =
                subst
                  (λ m.
                    Framed hasher api instructions IsLive laws live v s
                      (api.replace_md_node_operand_with v elements_operand m
                        (api.md_node_in_context ms' t.llvm).1)
                      w)
                  (sym same)
                  (Framed-replace hasher api instructions IsLive laws live v s w elements_operand _
                    _ (inr (live.live-node_new ms' t.llvm v alive h.framed.self)) made);
            home_same = h.home_same;
            visited = h.visited;
            replaced = h.replaced;
          }

      replace_members-Untouched :
          (b : Bool) (ms : List Ref) (t : Sanitizer L)
          → All (NullOr (IsLive t.llvm)) ms
          → Untouched t
          → Untouched (replace_members hasher api v b ms t).1
      unfolding replace_members ◌>>=◌ calling changing reading
      replace_members-Untouched true ms t k h = new_elements [] t tt h
      replace_members-Untouched false [] t k h = h
      replace_members-Untouched false (m ∷ ms) t k h =
          new_elements (sort_by_key (offset_in_bits api t.llvm) (m ∷ ms)) t
            (All-sort_by_key (offset_in_bits api t.llvm) (NullOr (IsLive t.llvm)) (m ∷ ms) k) h

      Keeps-replace_name :
          (i : ℕ) (x : Text) → Keeps Untouched (unwrapping (replace_name api v i x))
      Keeps-replace_name i x = Keeps-unwrapping (replace_name api v i x) (
          inside (λ t. (replace_name api v i x t).1)
            (λ t h. Framed-replace_name hasher api instructions IsLive laws live v s w i x t h))

      Keeps-rename :
          (b : Bool) (names : Option (Text × Text)) → Keeps Untouched (rename hasher api v b names)
      unfolding rename replace_type_name
      Keeps-rename true names = Keeps-replace_name type_name_operand []
      Keeps-rename false none = search visit_rules
      Keeps-rename false (some (n, x)) = Keeps-replace_name type_name_operand x

      -- The loop over the elements, and what is made of its result.
      Keeps-rebuild :
          (names : Option (Text × Text))
          → Keeps Untouched (
              scanning hasher api names v >>= λ r.
              replace_members hasher api v r.is_data_carrying_enum r.members
              >> rename hasher api v r.remove_name names)
      unfolding scanning ◌>>=◌ ◌>>◌
      Keeps-rebuild names = record {
        at = λ t h.
            let r = scan api t.llvm names (elements api t.llvm v) (start_scan hasher api t) in
            let t' : Sanitizer L = record t { skipped_types = r.skipped_types } in
            let kept : Untouched t' = record {
              framed = h.framed;
              home_same = h.home_same;
              visited = h.visited;
              replaced = h.replaced;
            } in
            let alive =
              All-scan api t.llvm (NullOr (IsLive t.llvm)) names (elements api t.llvm v)
                (start_scan hasher api t)
                (elements-OfField hasher api instructions IsLive laws live v s w t.llvm
                  h.framed.self)
                tt in
            Keeps-continue (replace_members hasher api v r.is_data_carrying_enum r.members t').0 _ _
              (replace_members-Untouched r.is_data_carrying_enum r.members t' alive kept)
              (λ _. Keeps-rename r.remove_name names);
      }

      Keeps-visit_structure : Keeps Untouched (visit_structure hasher api v)
      unfolding visit_structure
      Keeps-visit_structure = search (visit_rules, Keeps-names_of, Keeps-rebuild) depth 14

      Keeps-rename_subprogram :
          (name : Option Text) → Keeps Untouched (rename_subprogram hasher api v name)
      unfolding rename_subprogram replace_subprogram_name
      Keeps-rename_subprogram none = search visit_rules
      Keeps-rename_subprogram (some n) =
          Keeps-bind _ _ (Keeps-unwrap _) (Keeps-replace_name subprogram_name_operand)

      Keeps-visit_kind :
          (k : MetadataKind) → Keeps Untouched (visit_metadata hasher api (of_kind k v))
      unfolding visit_metadata replace_type_name
      Keeps-visit_kind di_composite_type = search (visit_rules, Keeps-visit_structure) depth 9
      Keeps-visit_kind di_derived_type =
          Keeps-bind _ _ (Keeps-reading _)
            λ t. Keeps-if _ _ _ (Keeps-replace_name type_name_operand []) (Keeps-pure tt)
      Keeps-visit_kind di_subprogram = search (visit_rules, Keeps-rename_subprogram) depth 9
      Keeps-visit_kind _ = search visit_rules

      pub Keeps-visit_mdnode : Keeps Untouched (visit_mdnode hasher api v)
      unfolding visit_mdnode ◌>>=◌ reading
      Keeps-visit_mdnode = record {
        at = λ t h. (Keeps-visit_kind (api.metadata_kind t.llvm (api.value_as_metadata v))).at t h;
      }
