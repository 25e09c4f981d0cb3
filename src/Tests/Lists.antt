-- ===== src/Tests/Lists.antt =====
-- A list of two functions, iterated over.
use bpf_linker.Prelude.{refl, ◌≡◌, [], ◌∷◌, arith, ◌==◌, if◌then◌else◌}
use bpf_linker.Outcome.{ok}
use bpf_linker.Llvm.Iter.{ListApi, elements_of}
use bpf_linker.Llvm.Iter.Lists.{ListCalls, instructions_of, instructions_of_lem}
use bpf_linker.Llvm.Iter.Laws.{IsListOf, elements_of_lem}

abbrev two_functions : ListApi
two_functions = record {
  get_first = λ m. 5;
  get_last = λ m. 6;
  get_next = λ r. if r == 5 then 6 else 0;
}

two_functions-IsListOf : IsListOf two_functions 1 (5 ∷ 6 ∷ [])
two_functions-IsListOf = ground arith

elements_of_example : elements_of two_functions 3 1 ≡ ok (5 ∷ 6 ∷ [])
elements_of_example =
    elements_of_lem two_functions 1 (5 ∷ 6 ∷ []) 3 (omega arith) two_functions-IsListOf

-- Of the blocks 5 and 6 the first has the instructions 11 and 12, and the other none.
abbrev two_blocks : ListCalls Unit
two_blocks = record {
  globals = λ s. two_functions;
  global_aliases = λ s. two_functions;
  functions = λ s. two_functions;
  basic_blocks = λ s. two_functions;
  instructions = λ s. record {
    get_first = λ b. if b == 5 then 11 else 0;
    get_last = λ b. if b == 5 then 12 else 0;
    get_next = λ r. if r == 11 then 12 else 0;
  };
}

instructions_of_example : instructions_of two_blocks tt 3 1 ≡ ok (11 ∷ 12 ∷ [])
instructions_of_example =
    instructions_of_lem two_blocks tt 3 1 ((5, 11 ∷ 12 ∷ []) ∷ (6, []) ∷ []) (omega arith)
      two_functions-IsListOf (omega arith, ground arith, (omega arith, (refl, refl), tt))
