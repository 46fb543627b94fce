-- ===== src/Guest.antt =====
-- The programs that run in the guest, as machines that stop at intercepted instructions, and what
-- the recorder makes of such a program.
pub mod TargetApp
pub mod TestTarget
pub mod Spec
pub mod Hosts
pub mod Recorded
use vestigium.Common.{ℕ}

-- An instruction that stops the guest: HLT with RAX, VMCALL with RCX, RDTSC, CPUID.
pub data Stop : Type 0 where
  at_hlt : ℕ → Stop
  at_vmcall : ℕ → Stop
  at_rdtsc at_cpuid : Stop

-- What the instruction gives to the guest: nothing, RAX and RDX, or EAX, EBX, ECX and EDX.
pub data Reply : Type 0 where
  nothing : Reply
  ticks : ℕ → ℕ → Reply
  ids : ℕ → ℕ → ℕ → ℕ → Reply

-- A program, between two stops.
pub record Program : Type 1 where
  pub Point : Type 0
  pub start : Point
  pub stop : Point → Stop
  pub resume : Point → Reply → Point
