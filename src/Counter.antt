-- ===== src/Counter.antt =====
-- lib/nikss_counter.c: counters.
pub mod Value
pub mod Access
pub mod Stored
pub mod Tests
