-- ===== src/Filters.antt =====
-- The console filters: win32/c/rot13.c, win32/c/chr7filter.c, win32/c/extrtext32.c and
-- win32/c/aaofiltr.c. Standard input and output are a console, whose `ReadFile` and `WriteFile`
-- are not part of the repository: a record of the two calls, and what the filters rely on.
pub mod Console
pub mod Rot13
pub mod Bell
pub mod Extract
pub mod Spell
