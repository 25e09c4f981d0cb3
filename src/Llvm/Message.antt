-- ===== src/Llvm/Message.antt =====
-- `Message` of llvm/mod.rs: an error message that LLVM allocated and the linker frees.
use bpf_linker.Prelude.{◌==◌, if◌then◌else◌, Text, is_utf8}
use bpf_linker.Outcome.{Exec, fail, abort, read, modify, ◌>>=◌, ◌>>◌}
use bpf_linker.Types.Api.{Ref}
use bpf_linker.Llvm.Api.{ObjectApi}

module _ {L : Type 0} (api : ObjectApi L) where
  -- `Message::drop`.
  abbrev pub drop_message : Ref → L → L
  drop_message ptr s = if ptr == 0 then s else api.dispose_message ptr s

  -- `Err(message.as_c_str().unwrap().to_str().unwrap().to_string())`; the message is then dropped.
  unfoldable pub fail_with : {A : Type 0} → Ref → Exec L Text A
  fail_with message = if message == 0 then abort else do
    text ← read (λ s. api.c_string s message)
    if is_utf8 text then (do modify (drop_message message); fail text) else abort
