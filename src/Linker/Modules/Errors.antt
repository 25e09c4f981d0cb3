-- ===== src/Linker/Modules/Errors.antt =====
-- Which errors the linking of inputs can end with, and which inputs are passed over.
use mathlib.Core.Path.{fun_ext}
use bpf_linker.Prelude.{
  ◌≡◌, refl, ap, ◌∙◌, All, ◌⊎◌, inl, inr, Bool-cases, true, none, some, List, [], ◌∷◌, ◌++◌,
  is_utf8,
}
use bpf_linker.Outcome.{Outcome, ok, err, panic, continue, ◌>>=◌, ◌>>◌, >>=-eq-ok}
use bpf_linker.Types.Api.{Ref}
use bpf_linker.Llvm.Api.{ObjectApi, Bytes}
use bpf_linker.Linker.Options.{
  FilePath, IoError, LinkerError, invalid_input_type, link_archive_module_error,
  missing_bitcode_section, mach_o, archive,
}
use bpf_linker.Linker.InputType.{detect_input_type}
use bpf_linker.Linker.Modules.{
  IoResult, done, failed, Member, member_result, extract, link_reader, link_member, link_members,
}

module _ {L : Type 0} (api : ObjectApi L) (context module_ref : Ref) where
  skip_first :
      (path : FilePath) (item : Member) (bytes : Bytes) (entries : List (IoResult Member)) (s : L)
      → is_utf8 item.identifier ≡ true
      → item.content ≡ done bytes
      → (detect_input_type bytes ≡ none) ⊎ (detect_input_type bytes ≡ some mach_o)
      → link_members api context module_ref path (done item ∷ entries) s
        ≡ link_members api context module_ref path entries s
  unfolding link_members link_member link_reader extract ◌>>=◌ ◌>>◌
  skip_first path item bytes entries s named readable (inl unknown) = rw (readable, named, unknown)
  skip_first path item bytes entries s named readable (inr other) = rw (readable, named, other)

  -- A member of an archive, wherever it stands among the members, is passed over if its identifier
  -- is UTF-8, if it can be read and if its bytes have no known type or are those of a Mach-O file:
  -- the archive is linked as if the member were not there.
  pub link_members_skip :
      (path : FilePath) (before : List (IoResult Member)) (item : Member) (bytes : Bytes)
      (entries : List (IoResult Member)) (s : L)
      → is_utf8 item.identifier ≡ true
      → item.content ≡ done bytes
      → (detect_input_type bytes ≡ none) ⊎ (detect_input_type bytes ≡ some mach_o)
      → link_members api context module_ref path (before ++ done item ∷ entries) s
        ≡ link_members api context module_ref path (before ++ entries) s
  unfolding link_members ◌>>=◌ ◌>>◌
  link_members_skip path [] item bytes entries s named readable kind =
      skip_first path item bytes entries s named readable kind
  link_members_skip path (failed e ∷ before) item bytes entries s named readable kind = refl
  link_members_skip path (done first ∷ before) item bytes entries s named readable kind =
      ap (λ k. (link_member api context module_ref path first >> k) s)
        (fun_ext (λ t. link_members_skip path before item bytes entries t named readable kind))

  abbrev pub IsDone : IoResult Member → Type 0
  IsDone (done item) = Unit
  IsDone (failed e) = ⊥

  -- An archive inside an archive panics: the members before it were linked, and the linker does not
  -- return an error for it.
  pub link_members_nested :
      (path : FilePath) (before : List (IoResult Member)) (item : Member) (bytes : Bytes)
      (entries : List (IoResult Member)) (s t : L)
      → All IsDone before
      → link_members api context module_ref path before s ≡ (ok tt, t)
      → is_utf8 item.identifier ≡ true
      → item.content ≡ done bytes
      → detect_input_type bytes ≡ some archive
      → link_members api context module_ref path (before ++ done item ∷ entries) s ≡ (panic, t)
  unfolding link_members link_member link_reader extract ◌>>=◌ ◌>>◌
  link_members_nested path [] item bytes entries s t all h named readable nested =
      rw (readable, named, nested) (λ i. (panic, (h i).1))
  link_members_nested path (failed e ∷ before) item bytes entries s t all h named readable nested =
      absurd all.0
  link_members_nested path (done first ∷ before) item bytes entries s t all h named readable
        nested =
      let (u, s', linked, rest) =
        >>=-eq-ok (link_member api context module_ref path first)
          (λ _. link_members api context module_ref path before) s h in
      ap
        (λ r.
          continue r.0
            (λ _. link_members api context module_ref path (before ++ done item ∷ entries)) r.1)
        linked
      ∙ link_members_nested path before item bytes entries s' t all.1 rest named readable nested

  -- Where an archive cannot be read on, the linker stops reading it and goes on as if it had ended
  -- there: no error is reported, and what stands behind is not linked.
  pub link_members_truncated :
      (path : FilePath) (before : List (IoResult Member)) (e : IoError)
      (entries : List (IoResult Member)) (s : L)
      → link_members api context module_ref path (before ++ failed e ∷ entries) s
        ≡ link_members api context module_ref path before s
  unfolding link_members ◌>>=◌ ◌>>◌
  link_members_truncated path [] e entries s = refl
  link_members_truncated path (failed f ∷ before) e entries s = refl
  link_members_truncated path (done first ∷ before) e entries s =
      ap (λ k. (link_member api context module_ref path first >> k) s)
        (fun_ext (λ t. link_members_truncated path before e entries t))

  -- The errors of a member that are let pass.
  abbrev pub IsPassed : LinkerError → Type 0
  IsPassed (invalid_input_type p) = Unit
  IsPassed (missing_bitcode_section p) = Unit
  IsPassed _ = ⊥

  -- The error is about a member that the archive has: those before it were read and linked, the
  -- linking of this one fails with an error that is not let pass, and the error names the archive
  -- and this member.
  pub record AboutMember (path : FilePath) (entries : List (IoResult Member)) (s : L)
      (e : LinkerError) : Type 0 where
    pub before : List (IoResult Member)
    pub item : Member
    pub after : List (IoResult Member)
    pub state : L
    pub cause : LinkerError
    pub among : entries ≡ before ++ done item ∷ after
    pub all_read : All IsDone before
    pub linked : link_members api context module_ref path before s ≡ (ok tt, state)
    pub fails :
        (link_reader api context module_ref item.identifier item.content none state).0 ≡ err cause
    pub reported : ¬ IsPassed cause
    pub named : e ≡ link_archive_module_error path item.identifier

  -- What the error of one member comes from.
  abbrev FromReader : FilePath → FilePath → Outcome LinkerError Unit → LinkerError → Type 0
  FromReader path name r e =
      (cause : LinkerError) × (r ≡ err cause)
      × (¬ IsPassed cause)
      × (e ≡ link_archive_module_error path name)

  member_result-FromReader :
      (path name : FilePath) (r : Outcome LinkerError Unit) (e : LinkerError)
      → member_result api context module_ref path name r ≡ err e
      → FromReader path name r e
  member_result-FromReader path name (ok u) e h = cc
  member_result-FromReader path name (err (invalid_input_type p)) e h = cc
  member_result-FromReader path name (err (missing_bitcode_section p)) e h = cc
  member_result-FromReader path name (err cause) e h = (cause, refl, (λ x. x), cc)
  member_result-FromReader path name panic e h = cc

  link_member-FromReader :
      (path : FilePath) (item : Member) (s t : L) (e : LinkerError)
      → link_member api context module_ref path item s ≡ (err e, t)
      → FromReader path item.identifier
          (link_reader api context module_ref item.identifier item.content none s).0
          e
  unfolding link_member
  link_member-FromReader path item s t e h = elim (Bool-cases (is_utf8 item.identifier)) [
    | inl text ↦ member_result-FromReader path item.identifier _ e (ap (λ r. r.0) (rw text at h))
    | inr other ↦ let h' = (rw other at h) in cc
  ]

  -- One member more in front, which was linked.
  AboutMember-after :
      (path : FilePath) (item : Member) (entries : List (IoResult Member)) (s t : L)
      (e : LinkerError)
      → link_member api context module_ref path item s ≡ (ok tt, t)
      → AboutMember path entries t e
      → AboutMember path (done item ∷ entries) s e
  unfolding link_members ◌>>◌ ◌>>=◌
  AboutMember-after path item entries s t e h bad = record {
    before = done item ∷ bad.before;
    item = bad.item;
    after = bad.after;
    state = bad.state;
    cause = bad.cause;
    among = ap (λ es. done item ∷ es) bad.among;
    all_read = (tt, bad.all_read);
    linked =
        ap (λ r. continue r.0 (λ _. link_members api context module_ref path bad.before) r.1) h
        ∙ bad.linked;
    fails = bad.fails;
    reported = bad.reported;
    named = bad.named;
  }

  AboutMember-here :
      (path : FilePath) (item : Member) (entries : List (IoResult Member)) (s : L) (e : LinkerError)
      → FromReader path item.identifier
          (link_reader api context module_ref item.identifier item.content none s).0
          e
      → AboutMember path (done item ∷ entries) s e
  unfolding link_members ◌>>=◌
  AboutMember-here path item entries s e (cause, fails, reported, named) = record {
    before = [];
    item = item;
    after = entries;
    state = s;
    cause = cause;
    among = refl;
    all_read = tt;
    linked = refl;
    fails = fails;
    reported = reported;
    named = named;
  }

  AboutMember-step :
      (path : FilePath) (item : Member) (entries : List (IoResult Member)) (s t : L)
      (r : Outcome LinkerError Unit) (e : LinkerError)
      → link_member api context module_ref path item s ≡ (r, t)
      → ((link_members api context module_ref path entries t).0 ≡ err e
          → AboutMember path entries t e)
      → (continue r (λ _. link_members api context module_ref path entries) t).0 ≡ err e
      → AboutMember path (done item ∷ entries) s e
  AboutMember-step path item entries s t (ok u) e linked rest h =
      AboutMember-after path item entries s t e linked (rest h)
  AboutMember-step path item entries s t (err e') e linked rest h =
      AboutMember-here path item entries s e
        (link_member-FromReader path item s t e (linked ∙ ap (λ x. (x, t)) h))
  AboutMember-step path item entries s t panic e linked rest h = cc

  -- Where the linking of an archive's members ends with an error, one of them is at fault: the
  -- members before it were read and linked, and it cannot be read or linked itself, for another
  -- reason than an unknown type or missing bitcode. The error names the archive and this member.
  pub link_members_errors :
      (path : FilePath) (entries : List (IoResult Member)) (s : L) (e : LinkerError)
      → (link_members api context module_ref path entries s).0 ≡ err e
      → AboutMember path entries s e
  unfolding link_members ◌>>◌ ◌>>=◌
  link_members_errors path [] s e h = cc
  link_members_errors path (failed f ∷ entries) s e h = cc
  link_members_errors path (done item ∷ entries) s e h =
      let (r, t) = link_member api context module_ref path item s in
      AboutMember-step path item entries s t r e refl (link_members_errors path entries t e) h
