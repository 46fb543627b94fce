-- ===== src/Platform.antt =====
-- What the program calls and does not implement: the Windows Hypervisor Platform of the `windows`
-- crate, the allocator, and the build profile. All of it is a parameter of the model.
mod Types
mod Blocks
mod State
mod Memory
pub mod Access
pub mod Whole
pub mod Frame
pub mod Registers
pub mod Quiet
pub mod Local
pub use Types.*
unfoldable pub use Blocks.*
pub use State.*
unfoldable pub use Memory.*
