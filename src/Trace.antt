-- ===== src/Trace.antt =====
-- crates/trace/src/format.rs: the events of a trace.
use vestigium.Common.{ℕ, List}
use vestigium.Platform.{Bytes}

pub data EventType : Type 0 where
  syscall : ℕ → List (ℕ × Bytes) → EventType
  rdtsc : ℕ → ℕ → EventType
  cpuid : ℕ → ℕ → ℕ → ℕ → EventType
  context_switch : ℕ → EventType

pub record TraceEvent : Type 0 where
  pub instruction_count : ℕ
  pub event : EventType
