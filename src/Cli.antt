-- ===== src/Cli.antt =====
-- crates/cli/src/main.rs: the commands.
pub mod Events
pub mod Determinism
pub mod Layout
pub mod Files
pub mod Record
pub mod Replay
pub mod Verification
pub mod Archive
pub mod Recorded
pub mod Main
pub mod Saved
