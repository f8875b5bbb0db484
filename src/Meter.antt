-- ===== src/Meter.antt =====
-- lib/nikss_meter.c: meters.
pub mod Rate
pub mod Converted
pub mod Access
pub mod Stored
pub mod Tests
pub mod StoredTests
