-- ===== src/Shell.antt =====
-- The parts of src/apps/shell/shell.c that decide: words, aliases, the history, the clock, paths
-- and the commands that create. What is printed is a value.
pub mod Words
pub mod Clock
pub mod Alias
pub mod Paths
pub mod Create
pub mod Expansion
pub mod Containing
mod Tests
