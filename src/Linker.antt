-- ===== src/Linker.antt =====
-- linker.rs: the linker's options and errors, its inputs, and the pipeline from modules to output.
pub mod Options
pub mod Cpu
pub mod InputType
pub mod Diagnostics
pub mod Args
pub mod Modules
pub mod TargetMachine
pub mod Keeps
pub mod Link
