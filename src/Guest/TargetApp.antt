-- ===== src/Guest/TargetApp.antt =====
-- target_app/src/main.rs: two threads count with a read, a yield and a write.
pub mod Counting
use vestigium.Common.{ℕ, zero, suc, ◌+◌, ◌%◌, ◌^◌, ◌==◌, if◌then◌else◌}
use vestigium.Guest.{Program, Stop, at_hlt, at_vmcall, Reply}

-- Where the program stands: in the VMCALL of `sched_yield`, with the rounds left after this one, the
-- thread's number and the value it has read; or at the HLT, with `final_val`.
pub data Point : Type 0 where
  yielding : ℕ → ℕ → ℕ → Point
  halted : ℕ → Point

-- `COUNTER` beside the point.
pub record TargetState : Type 0 where
  pub counter : ℕ
  pub point : Point

-- `execute_slice`, up to its yield: the counter is read.
abbrev pub begin_slice : ℕ → ℕ → ℕ → TargetState
begin_slice rounds thread_id counter = record {
  counter = counter;
  point = yielding rounds thread_id counter;
}

-- The loop of `_start`, with the rounds that are left.
abbrev pub rounds_left : ℕ → ℕ → TargetState
rounds_left zero counter = record { counter = counter; point = halted counter }
rounds_left (suc rounds) counter = begin_slice rounds 0 counter

-- `execute_slice` after its yield, which writes what was read and one more (it wraps, as in the release
-- profile); then the next slice.
abbrev pub end_slice : ℕ → ℕ → ℕ → TargetState
end_slice rounds thread_id temp =
    let counter = (temp + 1) % 2 ^ 64 in
    if thread_id == 0 then begin_slice rounds 1 counter else rounds_left rounds counter

-- From one stop to the next; the HLT is in a loop.
unfoldable pub resume : TargetState → TargetState
resume s = elim s.point [
  | yielding rounds thread_id temp ↦ end_slice rounds thread_id temp
  | halted final_val ↦ s
]

abbrev pub stop : TargetState → Stop
stop s = elim s.point [
  | yielding rounds thread_id temp ↦ at_vmcall thread_id
  | halted final_val ↦ at_hlt final_val
]

-- `_start`, with `n` for its 100 rounds.
abbrev pub program_of : ℕ → Program
program_of n = record {
  Point = TargetState;
  start = rounds_left n 0;
  stop = stop;
  resume = λ s reply. resume s;
}

abbrev pub target_app : Program
target_app = program_of 100
