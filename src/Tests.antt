-- ===== src/Tests.antt =====
-- Runs of the model on small inputs. The parts of LLVM that they need are played by small models.
pub mod Memory
pub mod Structure
pub mod Names
pub mod Traversal
pub mod Graph
pub mod Pass
pub mod Heap
pub mod Texts
pub mod Total
pub mod Symbols
pub mod Objects
pub mod Inputs
pub mod Settings
pub mod Stages
pub mod Nodes
pub mod Lists
pub mod Linkage
