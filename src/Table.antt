-- ===== src/Table.antt =====
-- lib/nikss_table.c: the entries of tables.
pub mod Types
pub mod MatchKey
pub mod Write
pub mod Keys
pub mod Masks
pub mod Values
pub mod Encoded
pub mod Joined
pub mod Prefixes
pub mod PrefixList
pub mod AddPrefix
pub mod RemovePrefix
pub mod Tuples
pub mod Entry
pub mod Delete
pub mod Get
pub mod ReadKey
pub mod Iterate
pub mod Opening
pub mod Stored
pub mod CacheEmpty
pub mod Masked
pub mod MaskValue
pub mod MaskTests
pub mod Clear
pub mod Emptied
pub mod AssocKeys
pub mod Sim
pub mod EntryTests
pub mod PrefixTests
pub mod Tests
