-- ===== src/Tests/Pass.antt =====
-- The sanitizer's pass over a module with a cycle in its debug information.
use bpf_linker.Prelude.{◌≡◌, refl, [], ◌∷◌, All, Among}
use bpf_linker.Outcome.{◌>>=◌, ◌>>◌, Outcome, ok}
use bpf_linker.Types.Api.{Ref}
use bpf_linker.Di.Sanitizer.{Sanitizer, Stop, new, reading, unwrapping}
use bpf_linker.Di.Visit.{
  visit_all, visit_item, visit_with, visit_value, replace_operand, replace_found, first_visit,
  visit_children, visit_operands_of, visit_operands, visit_entries, visit_function, visit_node,
}
use bpf_linker.Di.Node.{visit_mdnode, visit_metadata}
use bpf_linker.Types.Di.{replace_type_name}
use bpf_linker.Types.Ir.{replace_name}
use bpf_linker.Di.Linkage.{fix_subprogram_linkage, fix_functions, fix_function, fix_subprogram}
use bpf_linker.Di.Visit.Grows.{Visited}
use bpf_linker.Di.Visit.Explores.{Explored, Named}
use bpf_linker.Di.Run.{run, dispose, visit_module, set_replacements, visit_roots, module_of}
use bpf_linker.Di.Run.Closed.{run-explores}
use bpf_linker.Di.Run.Reach.{Reach, run-reaches, run-names}
use bpf_linker.Tests.Memory.{Memory, constant_hasher}
use bpf_linker.Tests.Graph.{
  IsLive, graph_api, graph_blocks, graph_memory, graph_live, graph_builds, graph_roots, graph_laws,
  module_live, graph_tops,
}

abbrev graph_run : Outcome Stop Unit × Sanitizer Memory
graph_run = run constant_hasher graph_api graph_blocks 6 [] (new graph_api 50 9 graph_memory)

graph_returns : graph_run.0 ≡ ok tt
unfolding run new visit_module set_replacements fix_subprogram_linkage fix_functions fix_function
    fix_subprogram visit_roots ◌>>=◌ module_of reading visit_all ◌>>◌ visit_item visit_with
    visit_value replace_operand replace_found first_visit visit_children visit_operands_of
    visit_operands visit_entries visit_function visit_node visit_mdnode visit_metadata
    replace_type_name replace_name unwrapping dispose
graph_returns = refl

graph_test : graph_run ≡ (ok tt, graph_run.1)
graph_test i = (graph_returns i, graph_run.1)

run-explores_example :
    (u : Sanitizer Memory) × (dispose constant_hasher graph_api graph_blocks u
      ≡ (ok tt, graph_run.1))
    × All (λ r. Visited r u) (1 ∷ [])
    × ((v : Ref) → Visited v u → Explored graph_api graph_blocks.instructions u v)
run-explores_example =
    run-explores constant_hasher graph_api graph_blocks IsLive graph_laws graph_live graph_roots
      graph_builds graph_tops 6 [] 50 9 graph_memory graph_run.1 module_live graph_test

run-reaches_example :
    (u : Sanitizer Memory) × (dispose constant_hasher graph_api graph_blocks u
      ≡ (ok tt, graph_run.1))
    × ((root w : Ref)
        → Among root (1 ∷ [])
        → Reach graph_api graph_blocks.instructions u root w
        → Visited w u)
run-reaches_example =
    run-reaches constant_hasher graph_api graph_blocks IsLive graph_laws graph_live graph_roots
      graph_builds graph_tops 6 [] 50 9 graph_memory graph_run.1 module_live graph_test

run-names_example :
    (u : Sanitizer Memory) × (dispose constant_hasher graph_api graph_blocks u
      ≡ (ok tt, graph_run.1))
    × ((root w : Ref)
        → Among root (1 ∷ [])
        → Reach graph_api graph_blocks.instructions u root w
        → Named graph_api graph_blocks.instructions u w)
run-names_example =
    run-names constant_hasher graph_api graph_blocks IsLive graph_laws graph_live graph_roots
      graph_builds graph_tops 6 [] 50 9 graph_memory graph_run.1 module_live graph_test
