-- ===== src/Bpf.antt =====
-- What the library uses of the bpf(2) system call and of libbpf's wrappers.
pub mod Types
pub mod Exec
pub mod Open
pub mod Assoc
