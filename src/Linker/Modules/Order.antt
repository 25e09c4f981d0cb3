-- ===== src/Linker/Modules/Order.antt =====
-- Inputs that are bitcode, and the order in which they are linked.
use mathlib.Core.Path.{fun_ext}
use bpf_linker.Prelude.{
  ◌≡◌, refl, ap, All, Bool, true, false, not, some, List, [], ◌∷◌, map, if◌then◌else◌, take,
}
use bpf_linker.Outcome.{Exec, pure, fail, continue, ◌>>=◌, ◌>>◌}
use bpf_linker.Types.Api.{Ref}
use bpf_linker.Llvm.Api.{ObjectApi, Bytes}
use bpf_linker.Llvm.Object.{link_bitcode_buffer}
use bpf_linker.Llvm.Object.Laws.{link_bitcode_buffer-returns}
use bpf_linker.Linker.Options.{FilePath, LinkerError, link_module_error, InputType}
use bpf_linker.Linker.InputType.{detect_input_type, detect_input_type-take}
use bpf_linker.Linker.Modules.{
  IoResult, done, InputFile, file_result, extract, link_reader, link_typed, link_file, link_modules,
}

-- The file on disk has these bytes and can be read.
pub record HasBytes (file : InputFile) (bytes : Bytes) : Type 0 where
  pub header : file.header ≡ done (take 8 bytes)
  pub rewound : file.rewound ≡ done tt
  pub content : file.content ≡ done bytes

module _ {L : Type 0} (api : ObjectApi L) (context module_ref : Ref) where
  -- One buffer; an input that LLVM does not parse or link is an error with its path.
  abbrev pub link_buffer : FilePath → Bytes → Exec L LinkerError Unit
  link_buffer path bytes = do
    linked ← link_bitcode_buffer api context module_ref bytes
    if not linked then fail (link_module_error path) else pure tt

  -- The specification: the buffers are linked in their order, up to the first error.
  abbrev pub link_buffers : List (FilePath × Bytes) → Exec L LinkerError Unit
  link_buffers [] = pure tt
  link_buffers ((path, bytes) ∷ inputs) = do link_buffer path bytes; link_buffers inputs

  module _ (open_file : FilePath → IoResult InputFile) where
    -- The path names a readable bitcode file.
    abbrev pub IsBitcodeInput : FilePath × Bytes → Type 0
    IsBitcodeInput (path, bytes) =
        (file : InputFile) × (open_file path ≡ done file)
        × HasBytes file bytes
        × (detect_input_type bytes ≡ some InputType.bitcode)

    -- What follows the call that links a buffer.
    abbrev linked_or_fail : FilePath → Bool → Exec L LinkerError Unit
    linked_or_fail path linked = if not linked then fail (link_module_error path) else pure tt

    file_result-linked :
        (path : FilePath) (b : Bool) (t : L)
        → file_result api context module_ref (linked_or_fail path b t).0
          ≡ (linked_or_fail path b t).0
    unfolding ◌>>=◌
    file_result-linked path true t = refl
    file_result-linked path false t = refl

    file_result-link_buffer :
        (path : FilePath) (bytes : Bytes) (s : L)
        → file_result api context module_ref (link_buffer path bytes s).0
          ≡ (link_buffer path bytes s).0
    unfolding ◌>>=◌
    file_result-link_buffer path bytes s =
        let (b, t, e) = link_bitcode_buffer-returns api LinkerError context module_ref bytes s in
        rw e (file_result-linked path b t)

    link_file_bitcode :
        (path : FilePath) (bytes : Bytes) (file : InputFile) (s : L)
        → HasBytes file bytes
        → detect_input_type bytes ≡ some InputType.bitcode
        → link_file api context module_ref path file s ≡ link_buffer path bytes s
    unfolding link_file link_typed link_reader extract ◌>>=◌ ◌>>◌
    link_file_bitcode path bytes file s has ty =
        rw (has.header, has.rewound, detect_input_type-take bytes, ty, has.content)
          (λ i. (file_result-link_buffer path bytes s i, (link_buffer path bytes s).1))

    -- For inputs that are readable bitcode files, `link_modules` links their contents one after the
    -- other in the order of the inputs, and ends at the first that LLVM refuses with its path in
    -- the error.
    pub link_modules_bitcode :
        (inputs : List (FilePath × Bytes)) (s : L)
        → All IsBitcodeInput inputs
        → link_modules api context module_ref open_file (map (λ i. i.0) inputs) s
          ≡ link_buffers inputs s
    unfolding link_modules ◌>>=◌ ◌>>◌
    link_modules_bitcode [] s h = refl
    link_modules_bitcode ((path, bytes) ∷ inputs) s h =
        let (file, opens, has, ty) = h.0 in
        rw opens (
          rw (link_file_bitcode path bytes file s has ty) (
            ap (λ k. continue (link_buffer path bytes s).0 (λ _. k) (link_buffer path bytes s).1)
              (fun_ext (λ t. link_modules_bitcode inputs t h.1))))
