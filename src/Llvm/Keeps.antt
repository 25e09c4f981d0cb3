-- ===== src/Llvm/Keeps.antt =====
-- The functions of llvm/mod.rs, and a property of LLVM's state that its calls keep.
use bpf_linker.Prelude.{
  ℕ, inl, inr, Bool-cases, Bool, true, false, not, ◌&&◌, none, some, List, [], ◌∷◌, ◌==◌,
  if◌then◌else◌, Text, text_eq, is_utf8, starts_with,
}
use bpf_linker.Outcome.{abort, pure}
use bpf_linker.Outcome.Keeps.{
  Keeps, Keeps-bind, Keeps-then, Keeps-if, Keeps-pure, Keeps-abort, Keeps-modify, keeps_rules,
}
use bpf_linker.Types.Api.{Ref}
use bpf_linker.Llvm.Api.{ObjectApi, Section, Bytes}
use bpf_linker.Llvm.Message.{drop_message, fail_with}
use bpf_linker.Llvm.Object.{
  llvmbc, find_section, find_embedded_bitcode, parse_and_link, link_bitcode_buffer,
}
use bpf_linker.Llvm.Target.{
  TargetApi, target_from_triple, target_from_module, create_target_machine,
}
use bpf_linker.Llvm.Optimize.{
  OptimizeApi, llvm_prefix, module_asm_is_probestack, symbol_name, remove_attribute, internalize,
  internalize_all, prepare_function, prepare_functions, drop_probestack, prepare, pass_error,
  run_passes, optimize,
}
use bpf_linker.Di.Linkage.{exports}
use bpf_linker.Linker.Options.{OptLevel}

pub record ObjectKeeps {L : Type 0} (api : ObjectApi L) (P : L → Type 0) : Type 0 where
  pub of_buffer : (b : Bytes) (l : L) → P l → P (api.create_memory_buffer_with_memory_range b l).1
  pub of_dispose_buffer : (b : Ref) (l : L) → P l → P (api.dispose_memory_buffer b l)
  pub of_binary : (b c : Ref) (l : L) → P l → P (api.create_binary b c l).1
  pub of_dispose_binary : (b : Ref) (l : L) → P l → P (api.dispose_binary b l)
  pub of_iterator : (b : Ref) (l : L) → P l → P (api.object_file_copy_section_iterator b l).1
  pub of_dispose_iterator : (i : Ref) (l : L) → P l → P (api.dispose_section_iterator i l)
  pub of_dispose_message : (m : Ref) (l : L) → P l → P (api.dispose_message m l)
  pub of_parse : (c b : Ref) (l : L) → P l → P (api.parse_bitcode_in_context c b l).1
  pub of_link : (m n : Ref) (l : L) → P l → P (api.link_modules m n l).1

pub record TargetKeeps {L : Type 0} (api : TargetApi L) (P : L → Type 0) : Type 0 where
  pub of_target : (t : Text) (l : L) → P l → P (api.get_target_from_triple t l).1
  pub of_machine :
      (target : Ref) (triple cpu features : Text) (l : L)
      → P l
      → P (api.create_target_machine target triple cpu features l).1

pub record PassKeeps {L : Type 0} (api : OptimizeApi L) (P : L → Type 0) : Type 0 where
  pub of_asm : (m : Ref) (a : Bytes) (l : L) → P l → P (api.set_module_inline_asm m a l)
  pub of_linkage : (v : Ref) (k : ℕ) (l : L) → P l → P (api.set_linkage v k l)
  pub of_visibility : (v : Ref) (k : ℕ) (l : L) → P l → P (api.set_visibility v k l)
  pub of_attribute :
      (v : Ref) (i k : ℕ) (l : L) → P l → P (api.remove_enum_attribute_at_index v i k l)
  pub of_options : (l : L) → P l → P (api.create_pass_builder_options l).1
  pub of_dispose_options : (o : Ref) (l : L) → P l → P (api.dispose_pass_builder_options o l)
  pub of_passes : (m : Ref) (p : Text) (tm o : Ref) (l : L) → P l → P (api.run_passes m p tm o l).1
  pub of_error : (e : Ref) (l : L) → P l → P (api.get_error_message e l).1
  pub of_dispose_error : (e : Ref) (l : L) → P l → P (api.dispose_error_message e l)

module _ {L : Type 0} (api : ObjectApi L) (P : L → Type 0) (keeps : ObjectKeeps api P) where
  pub of_message : (m : Ref) (l : L) → P l → P (drop_message api m l)
  of_message m l h = elim (Bool-cases (m == 0)) [
    | inl e ↦ rw e h
    | inr e ↦ rw e (keeps.of_dispose_message m l h)
  ]

  pub Keeps-fail_with : {A : Type 0} (m : Ref) → Keeps P (fail_with api {A = A} m)
  unfolding fail_with
  Keeps-fail_with m = search (keeps_rules, of_message) depth 9

  Keeps-find_section : (ss : List Section) → Keeps P (find_section api ss)
  unfolding find_section
  Keeps-find_section [] = search keeps_rules
  Keeps-find_section (s ∷ ss) =
      elim s.name
        as (λ o. Keeps P (elim o [
          | none ↦ find_section api ss
          | some name ↦
              if is_utf8 name
              then (if text_eq name llvmbc then pure (some s.contents) else find_section api ss)
              else abort
        ])) [
          | none ↦ Keeps-find_section ss
          | some name ↦
              Keeps-if _ _ _ (Keeps-if _ _ _ (Keeps-pure _) (Keeps-find_section ss)) Keeps-abort
        ]

  pub Keeps-find_embedded_bitcode : (c : Ref) (b : Bytes) → Keeps P (find_embedded_bitcode api c b)
  unfolding find_embedded_bitcode
  Keeps-find_embedded_bitcode c b =
      search
        (
          keeps_rules, Keeps-find_section, Keeps-fail_with, of_message, keeps.of_buffer,
          keeps.of_dispose_buffer, keeps.of_binary, keeps.of_dispose_binary, keeps.of_iterator,
          keeps.of_dispose_iterator,
        )
        depth 16

  Keeps-parse_and_link : {E : Type 0} (c m b : Ref) → Keeps {E = E} P (parse_and_link api c m b)
  unfolding parse_and_link
  Keeps-parse_and_link c m b = search (keeps_rules, keeps.of_parse, keeps.of_link) depth 9

  pub Keeps-link_bitcode_buffer :
      {E : Type 0} (c m : Ref) (b : Bytes) → Keeps {E = E} P (link_bitcode_buffer api c m b)
  unfolding link_bitcode_buffer
  Keeps-link_bitcode_buffer c m b =
      search (keeps_rules, Keeps-parse_and_link, keeps.of_buffer, keeps.of_dispose_buffer) depth 9

  module _ (targets : TargetApi L) (made : TargetKeeps targets P) where
    pub Keeps-target_from_triple : (t : Text) → Keeps P (target_from_triple api targets t)
    unfolding target_from_triple
    Keeps-target_from_triple t =
        search (keeps_rules, Keeps-fail_with, of_message, made.of_target) depth 9

    pub Keeps-target_from_module : (m : Ref) → Keeps P (target_from_module api targets m)
    unfolding target_from_module
    Keeps-target_from_module m = search (keeps_rules, Keeps-target_from_triple)

    pub Keeps-create_target_machine :
        {E : Type 0} (target : Ref) (triple cpu features : Text)
        → Keeps {E = E} P (create_target_machine api targets target triple cpu features)
    unfolding create_target_machine
    Keeps-create_target_machine target triple cpu features =
        search (keeps_rules, made.of_machine) depth 9

module _ {L : Type 0} (api : OptimizeApi L) (P : L → Type 0) (keeps : PassKeeps api P) where
  of_internal :
      (v : Ref) (name : Text) (es : List Text) (l : L) → P l → P (internalize api v name es l)
  unfolding internalize
  of_internal v name es l h =
      elim (Bool-cases (not (starts_with name llvm_prefix) && not (exports es name))) [
        | inl e ↦ rw e (keeps.of_visibility v _ _ (keeps.of_linkage v _ l h))
        | inr e ↦ rw e h
      ]

  of_removed :
      (b : Bool) (f : Ref) (a : Text) (l : L)
      → P l
      → P (if b then remove_attribute api f a l else l)
  unfolding remove_attribute
  of_removed true f a l h = keeps.of_attribute f _ _ l h
  of_removed false f a l h = h

  of_prepared :
      (b : Bool) (es : List Text) (f : Ref) (name : Text) (l : L)
      → P l
      → P (prepare_function api b es f name l)
  unfolding prepare_function
  of_prepared b es f name l h = elim (Bool-cases (not (starts_with name llvm_prefix))) [
    | inl e ↦ rw e (of_internal f name es _ (of_removed b f _ l h))
    | inr e ↦ rw e h
  ]

  of_probestack : (m : Ref) (l : L) → P l → P (drop_probestack api m l)
  unfolding drop_probestack
  of_probestack m l h = elim (Bool-cases (module_asm_is_probestack api l m)) [
    | inl e ↦ rw e (keeps.of_asm m [] l h)
    | inr e ↦ rw e h
  ]

  Keeps-symbol_name : {E : Type 0} (v : Ref) → Keeps {E = E} P (symbol_name api v)
  unfolding symbol_name
  Keeps-symbol_name v = search keeps_rules

  Keeps-internalize_all :
      {E : Type 0} (es : List Text) (syms : List Ref)
      → Keeps {E = E} P (internalize_all api es syms)
  unfolding internalize_all
  Keeps-internalize_all es [] = search keeps_rules
  Keeps-internalize_all es (sym ∷ syms) = Keeps-bind _ _ (Keeps-symbol_name sym) λ name.
      Keeps-then _ _ (Keeps-modify _ (of_internal sym name es)) (Keeps-internalize_all es syms)

  Keeps-prepare_functions :
      {E : Type 0} (b : Bool) (es : List Text) (fs : List Ref)
      → Keeps {E = E} P (prepare_functions api b es fs)
  unfolding prepare_functions
  Keeps-prepare_functions b es [] = search keeps_rules
  Keeps-prepare_functions b es (f ∷ fs) = Keeps-bind _ _ (Keeps-symbol_name f) λ name.
      Keeps-then _ _ (Keeps-modify _ (of_prepared b es f name)) (Keeps-prepare_functions b es fs)

  Keeps-prepare :
      {E : Type 0} (m : Ref) (b : Bool) (es : List Text) → Keeps {E = E} P (prepare api m b es)
  unfolding prepare
  Keeps-prepare m b es =
      search (keeps_rules, of_probestack, Keeps-internalize_all, Keeps-prepare_functions) depth 16

  Keeps-pass_error : (e : Ref) → Keeps P (pass_error api e)
  unfolding pass_error
  Keeps-pass_error e = search (keeps_rules, keeps.of_error, keeps.of_dispose_error) depth 12

  Keeps-run_passes : (tm m : Ref) (o : OptLevel) → Keeps P (run_passes api tm m o)
  unfolding run_passes
  Keeps-run_passes tm m o =
      search
        (keeps_rules, Keeps-pass_error, keeps.of_options, keeps.of_passes, keeps.of_dispose_options)
        depth 12

  pub Keeps-optimize :
      (tm m : Ref) (o : OptLevel) (b : Bool) (es : List Text) → Keeps P (optimize api tm m o b es)
  unfolding optimize
  Keeps-optimize tm m o b es = search (keeps_rules, Keeps-prepare, Keeps-run_passes)
