-- ===== src/Guest/TestTarget.antt =====
-- crates/test_target/src/main.rs: RDTSC, then CPUID, then a verdict on what they gave.
pub mod Verdict
use vestigium.Common.{ℕ, ◌%◌, ◌^◌, Bool, ◌&&◌, ◌==◌, if◌then◌else◌}
use vestigium.Guest.{Program, Stop, at_hlt, at_rdtsc, at_cpuid, Reply, nothing, ticks, ids}

-- `start` is the RDTSC; then the CPUID, with `rax`; then the HLT, with `result`.
pub data Point : Type 0 where
  reading_ticks : Point
  reading_ids : ℕ → Point
  halting : ℕ → Point

-- `result`.
abbrev pub verdict : ℕ → ℕ → ℕ
verdict cpuid_eax rax = if cpuid_eax == 0xAAAA_AAAA && rax == 0x1000 then 0x42 else 0xDEAD

-- `cpuid_eax` is the low half of RAX.
abbrev pub resume : Point → Reply → Point
resume reading_ticks (ticks rax rdx) = reading_ids rax
resume (reading_ids rax) (ids eax ebx ecx edx) = halting (verdict (eax % 2 ^ 32) rax)
resume point reply = point

-- The HLT does not name RAX: what it holds there is the compiler's choice.
abbrev pub stop : (ℕ → ℕ) → Point → Stop
stop leftover reading_ticks = at_rdtsc
stop leftover (reading_ids rax) = at_cpuid
stop leftover (halting result) = at_hlt (leftover result)

abbrev pub test_target : (ℕ → ℕ) → Program
test_target leftover = record {
  Point = Point;
  start = reading_ticks;
  stop = stop leftover;
  resume = resume;
}
