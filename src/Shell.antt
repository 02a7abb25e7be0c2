-- ===== src/Shell.antt =====
-- lab_1: the shell.
pub mod Command
pub mod Jobs
pub mod Interpreter
mod Tests
