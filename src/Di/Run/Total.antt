-- ===== src/Di/Run/Total.antt =====
-- The sanitizer's pass returns: the fuel of the three loops over the module's top level, and `run`.
use bpf_linker.Prelude.{
  ℕ, suc, ◌+◌, ◌≤◌, ◌<◌, ◌≡◌, refl, subst, inl, inr, Bool-cases, List, [], ◌∷◌, map, ◌==◌, arith,
  All, All-mono, Among, Text,
}
use bpf_linker.Outcome.{Outcome, ok, err, panic, ◌>>=◌, ◌>>◌}
use bpf_linker.Types.Api.{Ref, Api, FunctionArgs}
use bpf_linker.Types.Laws.{MetadataLaws}
use bpf_linker.Types.Text.{TextLaws, Legible}
use bpf_linker.Types.Frontier.{FrontierLaws}
use bpf_linker.Di.Cost.{left}
use bpf_linker.Di.Names.{DefaultHasher}
use bpf_linker.Di.Sanitizer.{Sanitizer, Stop, new, reading}
use bpf_linker.Di.Linkage.Stable.{Stable, Keeps-fix_subprogram_linkage}
use bpf_linker.Di.Linkage.Exported.{SubprogramLaws}
use bpf_linker.Di.Linkage.Extends.{CreateLaws}
use bpf_linker.Di.Linkage.Attached.{Attached, AllApart, IsAttached}
use bpf_linker.Di.Linkage.Returns.{fix_subprogram_linkage_returns}
use bpf_linker.Di.Visit.{
  Item, value_ref, global_variable, global_alias, function_item, Blocks, visit_item,
}
use bpf_linker.Di.Visit.Safe.{Fares}
use bpf_linker.Di.Visit.Returns.{NoNull}
use bpf_linker.Di.Visit.Lasts.{Later, Lasting, Lasts, Lasts-then}
use bpf_linker.Di.Visit.Ample.{items_now, map_below}
use bpf_linker.Di.Visit.Enough.{Goes-visit_item}
use bpf_linker.Di.Run.{set_replacements, module_of, dispose, visit_roots, visit_module, run}
use bpf_linker.Di.Run.Returns.{NoNullRoots, Safe-visit_module}

-- The lists of a module's values hold addresses that were handed out.
pub record FrontierRoots {L : Type 0} (blocks : Blocks L) (frontier : L → ℕ) : Type 0 where
  pub globals-lt : (s : L) (m : Ref) → All (λ r. r < frontier s) (blocks.globals s m)
  pub global_aliases-lt : (s : L) (m : Ref) → All (λ r. r < frontier s) (blocks.global_aliases s m)
  pub functions-lt : (s : L) (m : Ref) → All (λ r. r < frontier s) (blocks.functions s m)

-- All operands lie below some number.
abbrev pub Finite : {L : Type 0} → Api L → L → Type 0
Finite api l = (b : ℕ) × ((v : Ref) (i : ℕ) → api.operand l v i < b)

-- The calls for subprograms give finitely many operands.
pub record FiniteLaws {L : Type 0} (api : Api L) : Type 0 where
  pub finite-create :
      (b : Ref) (args : FunctionArgs) (l : L)
      → Finite api l
      → Finite api (api.di_builder_create_function b args l).1
  pub finite-finalize :
      (b p : Ref) (l : L) → Finite api l → Finite api (api.di_builder_finalize_subprogram b p l)
  pub finite-subprogram : (f p : Ref) (l : L) → Finite api l → Finite api (api.set_subprogram f p l)

abbrev sum : List ℕ → ℕ
sum [] = 0
sum (x ∷ xs) = x + sum xs

Among-le-sum : (x : ℕ) (xs : List ℕ) → Among x xs → x ≤ sum xs
Among-le-sum x [] h = elim h [ ]
Among-le-sum x (y ∷ xs) (inl e) = omega (arith, e)
Among-le-sum x (y ∷ xs) (inr h) = omega (arith, Among-le-sum x xs h)

module _ {L : Type 0} (hasher : DefaultHasher) (api : Api L) (blocks : Blocks L) (frontier : L → ℕ)
    (laws : MetadataLaws api) (bounds : FrontierLaws api blocks.instructions frontier) where
  Stable-Finite : FiniteLaws api → Stable api (Finite api)
  Stable-Finite finite = record {
    of_replace = λ v i m l place h. (
      h.0 + suc (api.metadata_as_value m),
      λ w j. ground (arith, laws.operand-replace v i m l w j, h.1 w j),
    );
    of_node = λ es l h.
        let (m, t) = api.md_node_in_context es l in
        let new = api.metadata_as_value m in
        (
          h.0 + suc (sum (map api.metadata_as_value es)),
          λ w j. elim (Bool-cases (w == new)) [
            | inl e ↦
                let e' : new ≡ w = ground (arith, e) in
                subst (λ x. api.operand t x j < h.0 + suc (sum (map api.metadata_as_value es))) e'
                  (elim (bounds.operand-new es l j) [
                    | inl null ↦ omega (arith, null)
                    | inr among ↦ omega (arith, Among-le-sum _ _ among)
                  ])
            | inr e ↦ omega (arith, laws.operand-node es l w j (λ x. ground (arith, x, e)), h.1 w j)
          ],
        );
    of_create = finite.finite-create;
    of_finalize = finite.finite-finalize;
  }

  module _ (c : ℕ) (fuel p : ℕ) (enough : p < fuel) where
    Lasts-visit_roots :
        (list : L → Ref → List Ref) (item : Ref → Item)
        → ((s : L) (m : Ref) → All (λ r. r < frontier s) (list s m))
        → ((r : Ref) → value_ref (item r) ≡ r)
        → Lasts api blocks.instructions frontier c p 0
            (visit_roots hasher api blocks fuel list item)
    unfolding visit_roots module_of reading ◌>>=◌
    Lasts-visit_roots list item lt same = record {
      at = λ s at.
          let each = λ (f : ℕ) (i : Item).
            Goes-visit_item hasher api blocks frontier c laws bounds fuel p f i enough in
          items_now hasher api blocks frontier c laws bounds (visit_item hasher api blocks fuel) p
            each 0 (map item (list s.llvm s.module_ref)) s at
            (map_below hasher api blocks frontier c laws bounds (visit_item hasher api blocks fuel)
              p each item same (frontier s.llvm) _ (lt s.llvm s.module_ref));
    }

    Lasts-visit_module :
        FrontierRoots blocks frontier
        → Lasts api blocks.instructions frontier c p 0 (visit_module hasher api blocks fuel)
    unfolding visit_module
    Lasts-visit_module roots =
        Lasts-then api blocks.instructions frontier c _ _
          (Lasts-visit_roots blocks.globals global_variable roots.globals-lt (λ r. refl))
          (Lasts-then api blocks.instructions frontier c _ _
            (Lasts-visit_roots blocks.global_aliases global_alias roots.global_aliases-lt
              (λ r. refl))
            (Lasts-visit_roots blocks.functions function_item roots.functions-lt (λ r. refl)))

  made_bound :
      (b f : ℕ) (rs : List (ℕ × Ref))
      → All
          (λ e.
            api.metadata_as_value e.1 < b + suc (sum (map (λ e. api.metadata_as_value e.1) rs)) + f)
          rs
  made_bound b f [] = tt
  made_bound b f ((k, m) ∷ rs) =
      (omega arith, All-mono _ _ (λ e lt. omega (arith, lt)) rs (made_bound b f rs))

  -- No panic, and no want of fuel.
  returns :
      (c p : ℕ) (r : Outcome Stop Unit × Sanitizer L)
      → Fares api r
      → Lasting api blocks.instructions frontier c p 0 r
      → r.0 ≡ ok tt
  returns c p (ok tt, t) fares lasts = refl
  returns c p (err e, t) fares lasts = absurd lasts
  returns c p (panic, t) fares lasts = absurd fares

  dispose_returns :
      (fuel : ℕ) (s : Sanitizer L)
      → (visit_module hasher api blocks fuel s).0 ≡ ok tt
      → ((visit_module hasher api blocks fuel >> dispose hasher api blocks) s).0 ≡ ok tt
  unfolding dispose ◌>>◌ ◌>>=◌
  dispose_returns fuel s e = rw e refl

  module _ (texts : TextLaws api) (creates : CreateLaws api) (subprograms : SubprogramLaws api)
      (finite : FiniteLaws api) (nonull : NoNull api blocks) (some_roots : NoNullRoots blocks)
      (roots : FrontierRoots blocks frontier) where
    -- With enough fuel the sanitizer's pass returns, without a panic, whatever cycles there are in the
    -- metadata: if the functions of the module are listed with their names and their subprograms, no
    -- function and no subprogram twice; if each subprogram that is to be replaced has a name and a
    -- scope; if these names, the names of all subprograms, and the linkage names of those to be
    -- replaced are UTF-8; and if all operands that there are lie below some number. That LLVM goes on
    -- to hand out new addresses in the pass is allowed for.
    pub run_returns :
        (es : List Text) (context module_ref : Ref) (l : L) (listed : List Attached)
        → let s = new api context module_ref l in
          blocks.functions s.llvm module_ref ≡ map (λ a. a.function) listed
          → Legible api s.llvm
          → All (IsAttached api es s.llvm) listed
          → AllApart listed
          → Finite api s.llvm
          → (enough : ℕ) × ((fuel : ℕ)
              → enough ≤ fuel
              → (run hasher api blocks fuel es s).0 ≡ ok tt)
    unfolding run set_replacements new ◌>>=◌ ◌>>◌
    run_returns es context module_ref l listed same legible att apart few =
        let s = new api context module_ref l in
        let (r, t, e, fit) =
          fix_subprogram_linkage_returns api es laws texts creates subprograms blocks.functions
            listed s same legible att apart in
        let s2 : Sanitizer L = record t { replace_operands = r } in
        let (b, below) : Finite api t.llvm =
          subst (λ x. Finite api x.1.llvm) e
            ((Keeps-fix_subprogram_linkage api (Finite api) (Stable-Finite finite)
                (λ f p. finite.finite-subprogram f (api.value_as_metadata p)) blocks.functions
                es).at
              s few) in
        let c = b + suc (sum (map (λ x. api.metadata_as_value x.1) r)) in
        let p = left api blocks.instructions frontier c s2.visited_nodes s2.llvm in
        let start : Later api blocks.instructions frontier c p 0 s2 = record {
          inside = record {
            operand = λ v i. omega (arith, below v i);
            made = made_bound b (frontier t.llvm) r;
          };
          less = omega arith;
          wider = omega arith;
        } in
        (
          suc p,
          λ fuel enough.
              let visited =
                returns c p (visit_module hasher api blocks fuel s2)
                  ((Safe-visit_module hasher api blocks laws texts nonull some_roots fuel).at s2
                    fit)
                  ((Lasts-visit_module c fuel p (omega (arith, enough)) roots).at s2 start) in
              rw e (dispose_returns fuel s2 visited),
        )
