-- ===== src/Tests/Nodes.antt =====
-- A structure, a pointer and a subprogram, visited as nodes.
use bpf_linker.Prelude.{◌≡◌, refl, some, [], ◌==◌, if◌then◌else◌, codes}
use bpf_linker.Outcome.{ok}
use bpf_linker.Types.Api.{di_subprogram}
use bpf_linker.Types.Di.{type_name_operand, subprogram_name_operand}
use bpf_linker.Di.Sanitizer.{Sanitizer}
use bpf_linker.Di.Node.{visit_mdnode}
use bpf_linker.Di.Node.Effect.{sanitized}
use bpf_linker.Di.Node.Total.{visit_mdnode_returns, visit_pointer_name, visit_subprogram_name}
use bpf_linker.Tests.Memory.{
  Shape, Memory, pair_shape, memory_api, memory_laws, pair_memory, pair_start, constant_hasher,
}

visit_mdnode_returns_example :
    (visit_mdnode constant_hasher (memory_api (pair_shape 0)) 1 pair_start).0 ≡ ok tt
visit_mdnode_returns_example =
    visit_mdnode_returns constant_hasher (memory_api (pair_shape 0)) 1 pair_start (λ v h. cc)

abbrev pointer_shape : Shape
pointer_shape = record (pair_shape 0) { tag = λ r. 15 }

abbrev pointed : Memory
pointed = (visit_mdnode constant_hasher (memory_api pointer_shape) 4 pair_start).1.llvm

visit_pointer_name_example :
    (memory_api pointer_shape).md_string pointed
      ((memory_api pointer_shape).operand pointed 4 type_name_operand)
    ≡ some []
visit_pointer_name_example =
    visit_pointer_name constant_hasher (memory_api pointer_shape) (memory_laws pointer_shape) 4 4
      pair_start refl refl

abbrev function_shape : Shape
function_shape = record (pair_shape 0) { kind = λ r. di_subprogram }

abbrev function_start : Sanitizer Memory
function_start = record pair_start {
  llvm = record pair_memory {
    operand_at = λ v i. if i == 2 then 60 else 0;
    text = λ r. some (codes "main<T>");
  };
}

abbrev renamed : Memory
renamed = (visit_mdnode constant_hasher (memory_api function_shape) 1 function_start).1.llvm

visit_subprogram_name_example :
    (memory_api function_shape).md_string renamed
      ((memory_api function_shape).operand renamed 1 subprogram_name_operand)
    ≡ some (sanitized constant_hasher (codes "main<T>"))
visit_subprogram_name_example =
    visit_subprogram_name constant_hasher (memory_api function_shape) (memory_laws function_shape) 1
      1 function_start (codes "main<T>") refl refl
