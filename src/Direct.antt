-- ===== src/Direct.antt =====
-- lib/nikss_direct_counter.c and lib/nikss_direct_meter.c: objects in the entries of a table.
pub mod Found
pub mod ByIndex
pub mod Counter
pub mod Meter
pub mod Write
pub mod Misplaced
pub mod Tests
pub mod WriteTests
