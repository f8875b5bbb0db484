-- ===== src/Cli.antt =====
-- CLI/clone_session.c and CLI/action_selector.c: the loops that read what is shown; CLI/common.c:
-- the text of data.
pub mod CloneSession
pub mod ActionSelector
pub mod Hex
pub mod HexValue
pub mod HexTests
pub mod Tests
