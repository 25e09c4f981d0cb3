-- ===== src/Tests/Linkage.antt =====
-- A module of two functions with subprograms, of which one is exported.
use bpf_linker.Prelude.{◌⊎◌, inl, ◌≡◌, refl, some, [], ◌∷◌, ◌==◌, if◌then◌else◌, codes}
use bpf_linker.Types.Api.{Api}
use bpf_linker.Di.Sanitizer.{Sanitizer, Stop, reading, changing, calling}
use bpf_linker.Outcome.{Outcome, ok, ◌>>=◌, ◌>>◌}
use bpf_linker.Di.Linkage.{
  Replacements, fix_subprogram_linkage, fix_functions, fix_function, fix_subprogram, localize,
  create_local, set_optional, insert_new, insert_found,
}
use bpf_linker.Di.Linkage.Localized.{LocalLaws}
use bpf_linker.Di.Linkage.Local.{fix_subprogram_linkage_local}
use bpf_linker.Di.Linkage.Exported.{SubprogramLaws, fix_subprogram_linkage_exported}
use bpf_linker.Tests.Memory.{Memory, pair_shape, memory_api, pair_memory, pair_start}

-- A memory in which `count` holds the functions' subprograms.
abbrev functions_api : Api Memory
functions_api = record (memory_api (pair_shape 0)) {
  value_name = λ s v. some (if v == 2 then codes "entry" else codes "helper");
  get_subprogram = λ s f. s.count f;
  set_subprogram = λ f p s. record s { count = λ w. if w == f then p else s.count w };
  md_node_in_context = λ es s. (60, s);
}

functions_laws : SubprogramLaws functions_api
functions_laws = record {
  name-set = λ f p l w. refl;
  name-replace = λ v i m l w. refl;
  name-node = λ es l w. refl;
  name-create = λ b args l w. refl;
  name-finalize = λ b p l w. refl;
  subprogram-set = λ f p l w. refl;
  subprogram-replace = λ v i m l w. refl;
  subprogram-node = λ es l w. refl;
  subprogram-create = λ b args l w. refl;
  subprogram-finalize = λ b p l w. refl;
}

abbrev functions_start : Sanitizer Memory
functions_start = record pair_start {
  llvm = record pair_memory {
    operand_at = λ v i. 70;
    count = λ f. if f == 2 then 21 else 22;
    text = λ r. some (codes "name");
  };
}

fix_subprogram_linkage_example :
    functions_api.get_subprogram
      (fix_subprogram_linkage functions_api
        (λ l m. 1 ∷ 2 ∷ [])
        (codes "entry" ∷ [])
        functions_start).1.llvm
      2
    ≡ 21
fix_subprogram_linkage_example =
    fix_subprogram_linkage_exported functions_api functions_laws 2 (codes "entry") 21
      (codes "entry" ∷ []) refl (λ l m. 1 ∷ 2 ∷ []) functions_start refl refl

-- Its subprogram 8 is the one that the builder makes.
functions_flags : LocalLaws functions_api (λ l p. p ≡ 8)
functions_flags = record {
  local-new = λ b args l h. refl;
  local-create = λ b args l p h. h;
  local-finalize = λ b q l p h. h;
  local-set = λ f q l p h. h;
  local-replace = λ v i m l p h. h;
  local-node = λ es l p h. h;
}

abbrev functions_run : Outcome Stop Replacements × Sanitizer Memory
functions_run =
    fix_subprogram_linkage functions_api (λ l m. 1 ∷ 2 ∷ []) (codes "entry" ∷ []) functions_start

functions_return : functions_run.0 ≡ ok ((22, 8) ∷ [])
unfolding fix_subprogram_linkage fix_functions fix_function fix_subprogram localize create_local
    set_optional insert_new insert_found reading changing calling ◌>>=◌ ◌>>◌
functions_return = refl

functions_test : functions_run ≡ (ok ((22, 8) ∷ []), functions_run.1)
functions_test i = (functions_return i, functions_run.1)

fix_subprogram_linkage_local_example :
    (functions_api.get_subprogram functions_run.1.llvm 1 ≡ 0)
    ⊎ (functions_api.get_subprogram functions_run.1.llvm 1 ≡ 8)
fix_subprogram_linkage_local_example =
    fix_subprogram_linkage_local functions_api (λ m. refl) functions_laws (λ l p. p ≡ 8)
      functions_flags 1 (codes "helper") (codes "entry" ∷ []) (λ l m. 1 ∷ 2 ∷ []) functions_start
      functions_run.1 ((22, 8) ∷ []) refl refl (inl refl) functions_test
