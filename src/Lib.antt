-- ===== src/Lib.antt =====
-- bpf-linker: a static linker for BPF. It links bitcode inputs into one LLVM module, makes the debug
-- information fit for the kernel's BTF, hides what is not exported, optimizes, and writes the result.
--
-- The program's parts, with paths from the repository's root, and the files here that model them:
--   src/llvm/di.rs            Di (Names: sanitize_type_name; Scan, Sort, Node: visit_mdnode;
--                             Visit: visit_item; Linkage: fix_subprogram_linkage; Run: run)
--   src/llvm/types/{ir,di}.rs Types (Api: the calls of LLVM, Ir and Di: the accessors,
--                             Laws and Live: what is relied on)
--   src/llvm/mod.rs           Llvm (Object: bitcode and object files, Target, Optimize, Output:
--                             init, the module and what is written of it, Diagnostic, Message)
--   src/llvm/iter.rs          Llvm.Iter (Lists: its five instances)
--   src/linker.rs             Linker (Options, Cpu, InputType, Modules: link_modules and
--                             link_reader, TargetMachine, Diagnostics, Args, Link: the stages)
--   src/bin/bpf-linker.rs     Cli (Options, Lines, LogFile, Main)
-- Prelude, Outcome and Paths hold what they share: Boolean tests, text and UTF-8, results, paths.
-- Tests has runs on small inputs, with small models of the parameters.
--
-- How they fit together: Cli.Main builds the options and runs the linker; Linker.Link runs its
-- stages on the state of LLVM (llvm_init, link_modules, create_target_machine, optimize, codegen)
-- and ends at the first error; optimize runs the sanitizer (Di.Run) or strips the debug
-- information, and then Llvm.Optimize.
--
-- State and effects. LLVM is not part of the repository. A type `L` stands for everything that LLVM
-- owns, and its calls are fields of records (Types.Api.Api, Llvm.Api.ObjectApi, TargetApi,
-- OptimizeApi, OutputApi, DiagnosticApi); what is assumed of them is written as separate records
-- (MetadataLaws, BufferLaws, SymbolLaws, SubprogramLaws, LocalLaws, AddressesBelow; TextLaws,
-- CreateLaws and NoNull for text and null pointers; FrontierLaws and FiniteLaws for the addresses
-- that are handed out, numbered in that order; and for what is allocated LiveLaws, BuilderLaws,
-- LiveRoots and TopLaws; that a property is kept by LLVM's calls is ObjectKeeps, TargetKeeps,
-- PassKeeps, NodeKeeps, MetadataKeeps and Silent). LiveLaws leaves out that LLVM may merge a node
-- with an equal one when its operand changes. A pointer is a number, 0 is null. Code that may fail
-- is a function from a state to an Outcome and a state (Outcome.Exec): a value, an error (`Err`), or
-- a panic (`unwrap`, `expect`, `assert!`); what was done before an error or a panic stays done. The
-- sanitizer's own fields are the record Di.Sanitizer.Sanitizer beside that state; its sets and maps
-- are lists.
--
-- Bounds and fuel. Text is a list of code points (for file names and symbols, of bytes) over native
-- numbers; lengths that the code measures in bytes are measured in bytes. visit_item recurs on
-- fuel, and Linker.Link gives it 2 ^ 64 + 1: a visit descends only from an address that was not
-- seen before, and an address has 64 bits (AddressesBelow). Di.Cost and Types.Frontier measure the
-- fuel in a memory that grows instead: of the addresses not yet visited a node for which the
-- sanitizer may make a string and a new list of elements counts for three, any other for one.
--
-- The lists that the traversal reads of a module and of a function are a parameter (Blocks) and are
-- read once, since the traversal changes metadata alone; Llvm.Iter.Lists has the iterators' own loops.
--
-- Not modelled: logging and tracing, the parser of `clap`, the `ar` crate, the hash function and the
-- files of the standard library (parameters), the values of LLVM's enumerations, the output
-- directory of logs, and the tests' runner.
pub mod Prelude
pub mod Outcome
pub mod Paths
pub mod Types
pub mod Di
pub mod Llvm
pub mod Linker
pub mod Cli
pub mod Tests
