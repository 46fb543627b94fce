-- ===== src/Scenarios.antt =====
-- The tests that the crates carry, as programs that call the components.
pub mod Hypervisor
pub mod Engines
pub mod Foundation
pub mod Pipeline
pub mod Execution
