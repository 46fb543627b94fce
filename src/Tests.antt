-- ===== src/Tests.antt =====
-- Runs of the model on a small platform, and the theorems at concrete inputs.
mod Toy
mod Pipeline
mod Paging
mod Recorder
mod Hashing
mod Images
mod Layout
mod Life
mod Replayer
mod Restored
mod Machine
mod Scenarios
mod Verification
mod Formats
mod EndToEnd
mod Host
mod Targets
mod Snapshots
mod Recorded
mod Codec
mod Commands
