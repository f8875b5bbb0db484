-- ===== src/Register.antt =====
-- lib/nikss_register.c: registers.
pub mod Access
pub mod Stored
pub mod Tests
