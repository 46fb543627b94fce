-- ===== src/Tests/Replayer.antt =====
-- The replayer where its run is not the recorded one.
use vestigium.Common.{ℕ, ◌≡◌, refl, inr, [], ◌∷◌, ◌==◌, if◌then◌else◌}
use vestigium.Common.Exec.{ok, stuck}
use vestigium.Platform.{World, Message, say, zero_value, of_reg64}
use vestigium.Trace.{TraceEvent, EventType, syscall, rdtsc, cpuid, context_switch}
use vestigium.Engine.Runner
use vestigium.Vmm.Vcpu.{get_registers}
use vestigium.Engine.Replay
use vestigium.Engine.Replay.{
  ReplayEngine, inject_event, advance_rip, replay_event, restore_registers,
}
use vestigium.Engine.Replay.Branches.{replay_event-spins, replay_event-mismatch}
use vestigium.Engine.Replay.Injection.{inject_event-syscall, replay_event-instruction_count}
use vestigium.Tests.Toy.{toy, start, exit_at}
use vestigium.Tests.Pipeline.{partition, vcpu, replayer}

abbrev event_of : EventType → TraceEvent
event_of event = record { instruction_count = 0; event = event }

at_rdtsc : Runner.run (Runner.new partition vcpu) start ≡ (ok (exit_at 0), start)
unfolding Runner.run
at_rdtsc = refl

replay_event-spins_example :
    replay_event 1000 replayer (event_of (cpuid 1 2 3 4)) start ≡ (stuck, start)
replay_event-spins_example =
    replay_event-spins replayer vcpu refl (event_of (cpuid 1 2 3 4)) (exit_at 0) start at_rdtsc
      (inr (refl, refl)) 1000

-- the guest at its VMCALL, with 7 in RCX
abbrev calling : World toy
calling = record {
  machine = λ k. if k == 4 then of_reg64 4 else if k == 2 then of_reg64 7 else zero_value;
  heap = [];
  printed = [];
}

at_vmcall : Runner.run (Runner.new partition vcpu) calling ≡ (ok (exit_at 4), calling)
unfolding Runner.run
at_vmcall = refl

thread_of : EventType → ℕ
thread_of (context_switch n) = n
thread_of event = 0

replay_event-mismatch_example :
    (m : Message) × (replay_event 1 replayer (event_of (context_switch 5)) calling
      ≡ (ok tt, say (m ∷ []) calling))
unfolding get_registers
replay_event-mismatch_example =
    replay_event-mismatch replayer vcpu refl 0 (event_of (context_switch 5)) (exit_at 4) calling
      calling (of_reg64 7 ∷ []) at_vmcall refl refl (λ e. cc)

inject_event-syscall_example :
    inject_event replayer (event_of (syscall 7 ((0x1000, 1 ∷ 2 ∷ []) ∷ []))) start
    ≡ inject_event replayer (event_of (syscall 7 [])) start
inject_event-syscall_example = inject_event-syscall replayer 0 7 ((0x1000, 1 ∷ 2 ∷ []) ∷ []) start

replay_event-instruction_count_example :
    replay_event 5 replayer (record { instruction_count = 10; event = rdtsc 1 2 }) start
    ≡ replay_event 5 replayer (record { instruction_count = 99; event = rdtsc 1 2 }) start
replay_event-instruction_count_example =
    replay_event-instruction_count replayer 5 10 99 (rdtsc 1 2) start

abbrev empty : ReplayEngine
empty = Replay.new partition 0
