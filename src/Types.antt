-- ===== src/Types.antt =====
-- llvm/types/ir.rs and llvm/types/di.rs: the linker's view of LLVM's values and debug information.
pub mod Api
pub mod Ir
pub mod Di
pub mod Laws
pub mod Live
pub mod Text
pub mod Frontier
