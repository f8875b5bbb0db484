-- ===== src/Struct.antt =====
-- lib/common.c: buffers of bytes, and their byte order.
pub mod Buffer
pub mod Equal
pub mod Slices
pub mod NextField
pub mod FieldWalk
pub mod Swapped
pub mod Fields
pub mod Constructed
pub mod Tests
