-- ===== src/Pre.antt =====
-- lib/nikss_pre.c and include/nikss/nikss_pre.h: the packet replication engine.
pub mod Types
pub mod Maps
pub mod Session
pub mod Entry
pub mod Walk
pub mod Chain
pub mod Unlink
pub mod Lists
pub mod Insert
pub mod Find
pub mod Delete
pub mod Opening
pub mod Update
pub mod Blocked
pub mod Iterate
pub mod CloneSession
pub mod Multicast
pub mod Scan
pub mod Descriptors
pub mod Sim
pub mod Tests
