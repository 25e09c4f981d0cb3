-- ===== src/Llvm/Object.antt =====
-- `find_embedded_bitcode` and `link_bitcode_buffer` of llvm/mod.rs.
pub mod Laws
use bpf_linker.Prelude.{
  ℕ, Bool, true, false, Option, none, some, List, [], ◌∷◌, ◌==◌, if◌then◌else◌, Text, codes,
  text_eq, is_utf8,
}
use bpf_linker.Outcome.{Outcome, Exec, pure, fail, abort, call, read, modify, ◌>>=◌, ◌>>◌}
use bpf_linker.Types.Api.{Ref}
use bpf_linker.Llvm.Api.{ObjectApi, Section, Bytes}
use bpf_linker.Llvm.Message.{drop_message, fail_with}

abbrev pub llvmbc : Text
llvmbc = codes ".llvmbc"

module _ {L : Type 0} (api : ObjectApi L) where
  -- The loop over the sections; it breaks at the first with the name `.llvmbc`.
  unfoldable pub find_section : List Section → Exec L Text (Option Bytes)
  find_section [] = pure none
  find_section (section ∷ sections) =
      let rest = find_section sections in
      elim section.name [
        | none ↦ rest
        | some name ↦
            if is_utf8 name
            then (if text_eq name llvmbc then pure (some section.contents) else rest)
            else abort
      ]

  unfoldable pub find_embedded_bitcode : Ref → Bytes → Exec L Text (Option Bytes)
  find_embedded_bitcode context bytes = do
    buffer ← call (api.create_memory_buffer_with_memory_range bytes)
    bin ← call (api.create_binary buffer context)
    if bin.0 == 0 then fail_with api bin.1 else do
      iter ← call (api.object_file_copy_section_iterator bin.0)
      sections ← read (λ s. api.sections s iter)
      ret ← find_section sections
      modify (api.dispose_section_iterator iter)
      modify (api.dispose_binary bin.0)
      modify (api.dispose_memory_buffer buffer)
      modify (drop_message api bin.1)
      pure ret

  -- The two calls that parse and link, under `&&`.
  unfoldable pub parse_and_link : {E : Type 0} → Ref → Ref → Ref → Exec L E Bool
  parse_and_link context module_ref buffer = do
    parsed ← call (api.parse_bitcode_in_context context buffer)
    if parsed.0 == 0
        then (do ret ← call (api.link_modules module_ref parsed.1); pure (ret == 0))
        else pure false

  unfoldable pub link_bitcode_buffer : {E : Type 0} → Ref → Ref → Bytes → Exec L E Bool
  link_bitcode_buffer context module_ref bytes = do
    buffer ← call (api.create_memory_buffer_with_memory_range bytes)
    linked ← parse_and_link context module_ref buffer
    modify (api.dispose_memory_buffer buffer)
    pure linked
