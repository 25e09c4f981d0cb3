-- ===== src/Di.antt =====
-- llvm/di.rs: the debug information that the kernel can read.
pub mod Names
pub mod Keeps
pub mod Sort
pub mod Sanitizer
pub mod Scan
pub mod Node
pub mod Cost
pub mod Fuel
pub mod Visit
pub mod Linkage
pub mod Run
