-- ===== src/Digest.antt =====
-- lib/nikss_digest.c: digests.
pub mod Access
pub mod Fields
pub mod Tests
