-- ===== src/Llvm.antt =====
-- llvm/mod.rs: the linker's wrappers of LLVM's C interface.
pub mod Api
pub mod Message
pub mod Object
pub mod Target
pub mod Optimize
pub mod Output
pub mod Diagnostic
pub mod Keeps
pub mod Iter
