-- ===== src/Tests/Structure.antt =====
-- A structure of two fields and one with a variant part, visited.
use mathlib.Core.List.{Perm}
use bpf_linker.Prelude.{ℕ, ◌≡◌, ◌≢◌, refl, some, List, [], ◌∷◌, arith, codes}
use bpf_linker.Types.Api.{Ref, Api}
use bpf_linker.Types.Laws.{operand_list}
use bpf_linker.Types.Di.{offset_in_bits, type_name_operand, elements_operand}
use bpf_linker.Di.Sanitizer.{Sanitizer}
use bpf_linker.Di.Sort.Laws.{IsSorted, with_key}
use bpf_linker.Di.Node.{visit_structure}
use bpf_linker.Di.Node.Effect.{sanitized}
use bpf_linker.Di.Node.Structure.{
  visit_structure_enum, visit_structure_fields, visit_structure_name, visit_structure_frame,
}
use bpf_linker.Tests.Memory.{
  Memory, pair_shape, memory_api, memory_laws, pair_memory, pair_start, constant_hasher,
}

abbrev pair_api : Api Memory
pair_api = memory_api (pair_shape 0)

abbrev enum_api : Api Memory
enum_api = memory_api (pair_shape 51)

abbrev visited_pair : Sanitizer Memory
visited_pair = (visit_structure constant_hasher pair_api 1 pair_start).1

abbrev visited_enum : Sanitizer Memory
visited_enum = (visit_structure constant_hasher enum_api 1 pair_start).1

-- The node of the new elements is another one.
is_fresh : ◌≢◌ {A = ℕ} 1 100
is_fresh = λ h. ground arith

is_defined : ◌≢◌ {A = ℕ} 0 4
is_defined = λ h. ground arith

visit_structure_enum_example :
    (operand_list enum_api visited_enum.llvm (enum_api.operand visited_enum.llvm 1 elements_operand)
      ≡ [])
    × (visited_enum.skipped_types ≡ codes "Pair<u32>" ∷ [])
visit_structure_enum_example =
    visit_structure_enum constant_hasher enum_api (memory_laws (pair_shape 51)) 1 pair_start
      is_defined refl (λ es. is_fresh)

visit_structure_fields_example :
    (sorted : List Ref) × (operand_list pair_api visited_pair.llvm
        (pair_api.operand visited_pair.llvm 1 elements_operand)
      ≡ sorted)
    × IsSorted (offset_in_bits pair_api pair_memory) sorted
    × Perm sorted (4 ∷ 3 ∷ [])
    × ((k : ℕ)
        → with_key (offset_in_bits pair_api pair_memory) k sorted
          ≡ with_key (offset_in_bits pair_api pair_memory) k (4 ∷ 3 ∷ []))
    × (visited_pair.skipped_types ≡ [])
visit_structure_fields_example =
    visit_structure_fields constant_hasher pair_api (memory_laws (pair_shape 0)) 1 pair_start
      is_defined 4 (3 ∷ []) refl refl (λ es. is_fresh)

visit_structure_name_example :
    pair_api.md_string visited_pair.llvm (pair_api.operand visited_pair.llvm 1 type_name_operand)
    ≡ some (sanitized constant_hasher (codes "Pair<u32>"))
visit_structure_name_example =
    visit_structure_name constant_hasher pair_api (memory_laws (pair_shape 0)) 1 pair_start
      is_defined (codes "Pair<u32>") refl

visit_structure_frame_example : pair_api.operand visited_pair.llvm 2 1 ≡ 3
visit_structure_frame_example =
    visit_structure_frame constant_hasher pair_api (memory_laws (pair_shape 0)) 1 pair_start
      is_defined 2 1 refl (λ es h. ground arith)
