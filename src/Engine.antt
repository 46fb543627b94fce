-- ===== src/Engine.antt =====
-- crates/engine: the snapshot, the recorder and the replayer.
pub mod Memory
pub mod Snapshot
pub mod Runner
pub mod Record
pub mod Replay
pub mod Loader
pub mod Simulation
pub mod Determinism
