-- ===== src/ValueSet.antt =====
-- lib/nikss_value_set.c: sets of values that a parser matches.
pub mod Context
pub mod Entries
pub mod Ternary
pub mod Empty
pub mod Tests
