-- ===== src/Llvm/Object/Laws.antt =====
-- What `find_embedded_bitcode` returns, and which memory buffers it and `link_bitcode_buffer` leave.
use bpf_linker.Prelude.{
  ℕ, suc, ◌-◌, ◌≡◌, ◌≢◌, refl, ◌∙◌, ◌⊎◌, inl, inr, Bool-cases, Option-cases, Bool, true, false,
  Option, none, some, List, [], ◌∷◌, arith, All, ◌==◌, if◌then◌else◌, Text, text_eq, is_utf8,
}
use bpf_linker.Outcome.{Outcome, ok, err, panic, ◌>>=◌, ◌>>◌}
use bpf_linker.Types.Api.{Ref}
use bpf_linker.Llvm.Api.{ObjectApi, Section, Bytes}
use bpf_linker.Llvm.Message.{drop_message, fail_with}
use bpf_linker.Llvm.Object.{
  llvmbc, find_section, find_embedded_bitcode, parse_and_link, link_bitcode_buffer,
}

-- Names that are null or UTF-8.
abbrev pub HasText : Section → Type 0
HasText section = elim section.name [ none ↦ Unit | some name ↦ is_utf8 name ≡ true ]

abbrev is_llvmbc : Option Bytes → Bool
is_llvmbc none = false
is_llvmbc (some name) = text_eq name llvmbc

-- The contents of the first section named `.llvmbc`.
abbrev pub first_llvmbc : List Section → Option Bytes
first_llvmbc [] = none
first_llvmbc (section ∷ sections) =
    if is_llvmbc section.name then some section.contents else first_llvmbc sections

module _ {L : Type 0} (api : ObjectApi L) where
  pub find_section_lem :
      (sections : List Section) (s : L)
      → All HasText sections
      → find_section api sections s ≡ (ok (first_llvmbc sections), s)
  unfolding find_section ◌>>=◌
  find_section_lem [] s h = refl
  find_section_lem (section ∷ sections) s h = elim (Option-cases section.name) [
    | inl e ↦ rw e (find_section_lem sections s h.1)
    | inr (name, e) ↦
        let text : is_utf8 name ≡ true = rw e at h.0 in
        elim (Bool-cases (text_eq name llvmbc)) [
          | inl same ↦ rw (e, text, same)
          | inr other ↦ rw (e, text, other) (find_section_lem sections s h.1)
        ]
  ]

  module _ (context : Ref) (bytes : Bytes) (s : L) where
    -- The states on the way: with the buffer, with the binary, with the iterator.
    abbrev buffered : Ref × L
    buffered = api.create_memory_buffer_with_memory_range bytes s

    abbrev opened : (Ref × Ref) × L
    opened = api.create_binary buffered.0 context buffered.1

    abbrev iterated : Ref × L
    iterated = api.object_file_copy_section_iterator opened.0.0 opened.1

    -- From an object file that LLVM can open, with section names in UTF-8, the bitcode that comes
    -- back is the contents of the first section named `.llvmbc`, and there is none only if no
    -- section has that name.
    pub find_embedded_bitcode_lem :
        opened.0.0 ≢ 0
        → All HasText (api.sections iterated.1 iterated.0)
        → (find_embedded_bitcode api context bytes s).0
          ≡ ok (first_llvmbc (api.sections iterated.1 iterated.0))
    unfolding find_embedded_bitcode ◌>>=◌ ◌>>◌
    find_embedded_bitcode_lem opens texts =
        let test : (opened.0.0 == 0) ≡ false = ground arith in
        rw test (rw (find_section_lem (api.sections iterated.1 iterated.0) iterated.1 texts))

  parse_and_link-returns :
      (E : Type 0) (context module_ref buffer : Ref) (s : L)
      → (b : Bool) × (t : L) × (parse_and_link api {E = E} context module_ref buffer s ≡ (ok b, t))
  unfolding parse_and_link ◌>>=◌
  parse_and_link-returns E context module_ref buffer s =
      let (parsed, s') = api.parse_bitcode_in_context context buffer s in
      elim (Bool-cases (parsed.0 == 0)) [
        | inl e ↦ (
          (api.link_modules module_ref parsed.1 s').0 == 0,
          (api.link_modules module_ref parsed.1 s').1,
          rw e,
        )
        | inr e ↦ (false, s', rw e)
      ]

  -- `link_bitcode_buffer` always returns: it neither panics nor fails.
  pub link_bitcode_buffer-returns :
      (E : Type 0) (context module_ref : Ref) (bytes : Bytes) (s : L)
      → (b : Bool) × (t : L) × (link_bitcode_buffer api {E = E} context module_ref bytes s
          ≡ (ok b, t))
  unfolding link_bitcode_buffer ◌>>=◌ ◌>>◌
  link_bitcode_buffer-returns E context module_ref bytes s =
      let (buffer, s') = api.create_memory_buffer_with_memory_range bytes s in
      let (b, t, e) = parse_and_link-returns E context module_ref buffer s' in
      (b, api.dispose_memory_buffer buffer t, rw e)

-- `live` counts the memory buffers that were created and not disposed of.
pub record BufferLaws {L : Type 0} (api : ObjectApi L) (live : L → ℕ) : Type 0 where
  pub live-create :
      (b : Bytes) (s : L) → live (api.create_memory_buffer_with_memory_range b s).1 ≡ suc (live s)
  pub live-dispose : (r : Ref) (s : L) → live (api.dispose_memory_buffer r s) ≡ live s - 1
  pub live-create_binary : (b c : Ref) (s : L) → live (api.create_binary b c s).1 ≡ live s
  pub live-dispose_binary : (r : Ref) (s : L) → live (api.dispose_binary r s) ≡ live s
  pub live-copy_iterator :
      (r : Ref) (s : L) → live (api.object_file_copy_section_iterator r s).1 ≡ live s
  pub live-dispose_iterator : (r : Ref) (s : L) → live (api.dispose_section_iterator r s) ≡ live s
  pub live-dispose_message : (r : Ref) (s : L) → live (api.dispose_message r s) ≡ live s
  pub live-parse : (c b : Ref) (s : L) → live (api.parse_bitcode_in_context c b s).1 ≡ live s
  pub live-link : (m t : Ref) (s : L) → live (api.link_modules m t s).1 ≡ live s

module _ {L : Type 0} (api : ObjectApi L) (live : L → ℕ) (laws : BufferLaws api live) where
  -- The call reads and writes no buffer of its own, and always returns.
  parse_and_link_lem :
      (E : Type 0) (context module_ref buffer : Ref) (s : L)
      → (b : Bool) × (t : L) × (parse_and_link api {E = E} context module_ref buffer s ≡ (ok b, t))
        × (live t ≡ live s)
  unfolding parse_and_link ◌>>=◌
  parse_and_link_lem E context module_ref buffer s =
      let (parsed, s') = api.parse_bitcode_in_context context buffer s in
      elim (Bool-cases (parsed.0 == 0)) [
        | inl e ↦ (
          (api.link_modules module_ref parsed.1 s').0 == 0,
          (api.link_modules module_ref parsed.1 s').1,
          rw e,
          laws.live-link module_ref parsed.1 s' ∙ laws.live-parse context buffer s,
        )
        | inr e ↦ (false, s', rw e, laws.live-parse context buffer s)
      ]

  -- `link_bitcode_buffer` disposes of the buffer that it creates, whether or not the bitcode
  -- parses and links.
  pub live-link_bitcode_buffer :
      (E : Type 0) (context module_ref : Ref) (bytes : Bytes) (s : L)
      → live (link_bitcode_buffer api {E = E} context module_ref bytes s).1 ≡ live s
  unfolding link_bitcode_buffer ◌>>=◌ ◌>>◌
  live-link_bitcode_buffer E context module_ref bytes s =
      let (buffer, s') = api.create_memory_buffer_with_memory_range bytes s in
      let (b, t, e, kept) = parse_and_link_lem E context module_ref buffer s' in
      rw e (omega (arith, laws.live-dispose buffer t, kept, laws.live-create bytes s))

  live-drop_message : (m : Ref) (s : L) → live (drop_message api m s) ≡ live s
  live-drop_message m s = ground (arith, laws.live-dispose_message m s)

  -- How many buffers a call leaves: none of its own if it returned, one if it ended in an error.
  abbrev pub Leaves : {A : Type 0} → ℕ → Outcome Text A × L → Type 0
  Leaves n (ok a, t) = live t ≡ n
  Leaves n (err e, t) = live t ≡ suc n
  Leaves n (panic, t) = Unit

  find_section-state :
      (sections : List Section) (s : L)
      → ((r : Option Bytes) × (find_section api sections s ≡ (ok r, s)))
        ⊎ (find_section api sections s ≡ (panic, s))
  unfolding find_section ◌>>=◌
  find_section-state [] s = inl (none, refl)
  find_section-state (section ∷ sections) s = elim (Option-cases section.name) [
    | inl e ↦ rw e (find_section-state sections s)
    | inr (name, e) ↦ elim (Bool-cases (is_utf8 name)) [
      | inl text ↦ elim (Bool-cases (text_eq name llvmbc)) [
        | inl same ↦ rw (e, text, same) (inl (some section.contents, refl))
        | inr other ↦ rw (e, text, other) (find_section-state sections s)
      ]
      | inr bad ↦ rw (e, bad) (inr refl)
    ]
  ]

  fail_with-Leaves :
      (A : Type 0) (m : Ref) (n : ℕ) (s : L) → live s ≡ suc n → Leaves n (fail_with api {A = A} m s)
  unfolding fail_with ◌>>=◌ ◌>>◌
  fail_with-Leaves A m n s h = elim (Bool-cases (m == 0)) [
    | inl e ↦ rw e tt
    | inr e ↦ elim (Bool-cases (is_utf8 (api.c_string s m))) [
      | inl text ↦ rw (e, text) (live-drop_message m s ∙ h)
      | inr bad ↦ rw (e, bad) tt
    ]
  ]

  -- `find_embedded_bitcode` disposes of its memory buffer when it returns a value. When LLVM cannot
  -- open the object file, so that it returns an error, the buffer is never disposed of.
  pub find_embedded_bitcode-Leaves :
      (context : Ref) (bytes : Bytes) (s : L)
      → Leaves (live s) (find_embedded_bitcode api context bytes s)
  unfolding find_embedded_bitcode ◌>>=◌ ◌>>◌
  find_embedded_bitcode-Leaves context bytes s =
      let (buffer, s₁) = api.create_memory_buffer_with_memory_range bytes s in
      let (bin, s₂) = api.create_binary buffer context s₁ in
      let created = laws.live-create_binary buffer context s₁ ∙ laws.live-create bytes s in
      elim (Bool-cases (bin.0 == 0)) [
        | inl e ↦ rw e (fail_with-Leaves (Option Bytes) bin.1 (live s) s₂ created)
        | inr e ↦
            let (iter, s₃) = api.object_file_copy_section_iterator bin.0 s₂ in
            elim (find_section-state (api.sections s₃ iter) s₃) [
              | inl (r, found) ↦
                  let s₄ = api.dispose_section_iterator iter s₃ in
                  let s₅ = api.dispose_binary bin.0 s₄ in
                  rw (e, found)
                    (omega (
                      arith,
                      live-drop_message bin.1 (api.dispose_memory_buffer buffer s₅),
                      laws.live-dispose buffer s₅,
                      laws.live-dispose_binary bin.0 s₄,
                      laws.live-dispose_iterator iter s₃,
                      laws.live-copy_iterator bin.0 s₂,
                      created,
                    ))
              | inr stuck ↦ rw (e, stuck) tt
            ]
      ]
