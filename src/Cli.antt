-- ===== src/Cli.antt =====
-- bin/bpf-linker.rs: the command line program. `clap`, which parses the arguments, and the logger
-- are not part of the repository.
pub mod Options
pub mod Lines
pub mod Main
pub mod LogFile
