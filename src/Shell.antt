-- ===== src/Shell.antt =====
-- lab1: the shell mybash.
pub mod Glib
pub mod Command
pub mod Parsing
pub mod Builtin
pub mod Sample
pub mod Execute
pub mod Main
