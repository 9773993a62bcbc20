-- ===== src/Tools.antt =====
-- The command-line programs of src.
pub mod Complete
pub mod Host
pub mod Json
pub mod Session
pub mod Cli
