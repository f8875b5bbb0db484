-- ===== src/Selector.antt =====
-- lib/nikss_action_selector.c: action profiles and action selectors.
pub mod Types
pub mod Groups
pub mod GroupList
pub mod Append
pub mod SwapRemove
pub mod Remove
pub mod Members
pub mod Reserve
pub mod AddMember
pub mod InUse
pub mod Context
pub mod GroupSet
pub mod Iterate
pub mod Descriptors
pub mod TableEntry
pub mod MemberAction
pub mod MemberTests
pub mod Sim
pub mod Tests
