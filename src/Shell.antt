-- ===== src/Shell.antt =====
-- shell/shell.c: `Line` has the line that is typed, `Command` what becomes of it, and `Loop` the
-- loop over the keys.
pub mod Line
pub mod Command
pub mod Loop
pub mod Tests
