-- ===== src/Linker/Keeps.antt =====
-- `link_modules` and `create_target_machine` of linker.rs, and a property of LLVM's state that its
-- calls keep.
use bpf_linker.Prelude.{inl, inr, Bool-cases, Option, none, some, List, [], ◌∷◌, Text, is_utf8}
use bpf_linker.Outcome.{Exec, ◌>>=◌}
use bpf_linker.Outcome.Keeps.{
  Keeps, Keeps-bind, Keeps-then, Keeps-pure, Keeps-map_err, Keeps-lift, keeps_rules,
}
use bpf_linker.Types.Api.{Ref}
use bpf_linker.Llvm.Api.{ObjectApi, Bytes}
use bpf_linker.Llvm.Target.{TargetApi}
use bpf_linker.Llvm.Keeps.{
  ObjectKeeps, TargetKeeps, Keeps-find_embedded_bitcode, Keeps-link_bitcode_buffer,
  Keeps-target_from_triple, Keeps-target_from_module, Keeps-create_target_machine,
}
use bpf_linker.Linker.Options.{FilePath, InputType, elf, mach_o, archive, Cpu}
use bpf_linker.Linker.Modules.{
  IoResult, done, failed, Member, InputFile, extract, link_reader, link_member, link_members,
  link_typed, link_file, link_modules,
}
use bpf_linker.Linker.TargetMachine.{or_invalid, select_target, create_target_machine}

module _ {L : Type 0} (api : ObjectApi L) (P : L → Type 0) (keeps : ObjectKeeps api P) where
  module _ (context m : Ref) where
    Keeps-extract :
        (path : FilePath) (ty : InputType) (bytes : Bytes)
        → Keeps P (extract api context m path ty bytes)
    unfolding extract ◌>>=◌
    Keeps-extract path InputType.bitcode bytes = record { at = λ s h. h }
    Keeps-extract path elf bytes = record {
      at = (Keeps-find_embedded_bitcode api P keeps context bytes).at;
    }
    Keeps-extract path mach_o bytes = record { at = λ s h. h }
    Keeps-extract path archive bytes = record { at = λ s h. h }

    Keeps-link_reader :
        (path : FilePath) (r : IoResult Bytes) (ty : Option InputType)
        → Keeps P (link_reader api context m path r ty)
    unfolding link_reader
    Keeps-link_reader path r ty =
        search (keeps_rules, Keeps-extract, Keeps-link_bitcode_buffer api P keeps) depth 14

    Keeps-link_member :
        (path : FilePath) (item : Member) → Keeps P (link_member api context m path item)
    unfolding link_member
    Keeps-link_member path item = record {
      at = λ s h. elim (Bool-cases (is_utf8 item.identifier)) [
        | inl e ↦ rw e ((Keeps-link_reader item.identifier item.content none).at s h)
        | inr e ↦ rw e h
      ];
    }

    Keeps-link_members :
        (path : FilePath) (es : List (IoResult Member))
        → Keeps P (link_members api context m path es)
    unfolding link_members
    Keeps-link_members path [] = search keeps_rules
    Keeps-link_members path (failed e ∷ es) = search keeps_rules
    Keeps-link_members path (done item ∷ es) =
        Keeps-then _ _ (Keeps-link_member path item) (Keeps-link_members path es)

    Keeps-link_typed :
        (path : FilePath) (file : InputFile) (ty : InputType)
        → Keeps P (link_typed api context m path file ty)
    unfolding link_typed
    Keeps-link_typed path file archive = record { at = (Keeps-link_members path file.entries).at }
    Keeps-link_typed path file ty = record {
      at = (Keeps-link_reader path file.content (some ty)).at;
    }

    Keeps-link_file :
        (path : FilePath) (file : InputFile) → Keeps P (link_file api context m path file)
    unfolding link_file
    Keeps-link_file path file = search (keeps_rules, Keeps-link_typed) depth 12

    pub Keeps-link_modules :
        (open_file : FilePath → IoResult InputFile) (inputs : List FilePath)
        → Keeps P (link_modules api context m open_file inputs)
    unfolding link_modules
    Keeps-link_modules open_file [] = search keeps_rules
    Keeps-link_modules open_file (path ∷ inputs) =
        Keeps-bind _ _ (Keeps-lift _)
          λ file. Keeps-then _ _ (Keeps-link_file path file) (Keeps-link_modules open_file inputs)

  module _ (targets : TargetApi L) (made : TargetKeeps targets P) (m : Ref) where
    Keeps-or_invalid :
        (t : Text) (a : Exec L Text Ref) → Keeps P a → Keeps P (or_invalid api targets m t a)
    unfolding or_invalid
    Keeps-or_invalid t a k = Keeps-bind _ _ (Keeps-map_err _ a k) (λ x. Keeps-pure _)

    Keeps-select_target : (t : Option Text) → Keeps P (select_target api targets m t)
    unfolding select_target
    Keeps-select_target none =
        search
          (
            keeps_rules,
            Keeps-or_invalid,
            Keeps-target_from_triple api P keeps targets made,
            Keeps-target_from_module api P keeps targets made,
          )
          depth 12
    Keeps-select_target (some t) =
        search (keeps_rules, Keeps-or_invalid, Keeps-target_from_triple api P keeps targets made)
          depth 9

    pub Keeps-machine :
        (t : Option Text) (cpu : Cpu) (features : Text)
        → Keeps P (create_target_machine api targets m t cpu features)
    unfolding create_target_machine
    Keeps-machine t cpu features =
        search
          (keeps_rules, Keeps-select_target, Keeps-create_target_machine api P keeps targets made)
          depth 9
