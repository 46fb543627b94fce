-- ===== src/Tests/Verification.antt =====
-- The end of a replay on the small platform.
use vestigium.Common.{◌*◌, ◌≡◌, ◌≢◌, refl, arith, inl, inr, List, [], ◌∷◌, ◌^◌}
use vestigium.Common.Exec.{ok, fault, stuck}
use vestigium.Platform.{World, Message, done, say, of_reg64, zero_value}
use vestigium.Trace.{TraceEvent, rdtsc, cpuid, context_switch}
use vestigium.Vmm.Vcpu.{get_registers, set_registers}
use vestigium.Engine.Runner
use vestigium.Engine.Replay
use vestigium.Engine.Replay.{
  replay_event, active_vcpu, inject_event, inject, inject_and_advance, restore_snapshot,
  restore_registers, map_regions, replay_round, replay_exit, replay_vmcall,
}
use vestigium.Engine.Replay.Termination.{replay_event-returns}
use vestigium.Engine.Snapshot
use vestigium.Engine.Snapshot.{Snapshot, capture_registers}
use vestigium.Engine.Snapshot.Hash.{hash_state, hash_regions, sort}
use vestigium.Cli.Record.{Archive}
use vestigium.Cli.Events.{replay_events}
use vestigium.Cli.Replay.{replay_guest, verify, run_rest, handle_vm_exit}
use vestigium.Cli.Replay.Verdict.{IsVerified, replay_guest-IsVerified}
use vestigium.Cli.Replay.Report.{IsReport, run_rest-IsReport}
use vestigium.Tests.Toy.{toy, start, exit_at}
use vestigium.Tests.Pipeline.{partition, vcpu, replayer}
use vestigium.Tests.Hashing.{hasher}

abbrev archive : Archive
archive = record {
  snapshot = record { memory_regions = []; registers = [] };
  events =
      record { instruction_count = 0; event = rdtsc 0x1000 0 }
      ∷ record { instruction_count = 1; event = cpuid 1 2 0xCCCC_CCCC 4 }
      ∷ record { instruction_count = 2; event = context_switch 0xCCCC_CCCC }
      ∷ [];
  hash = 534 * 31 ^ 5;
}

abbrev final : Snapshot
final = record {
  memory_regions = [];
  registers = of_reg64 7 ∷ zero_value ∷ zero_value ∷ zero_value ∷ zero_value ∷ zero_value ∷ [];
}

abbrev ended : World toy
ended = (replay_guest 1 hasher partition vcpu Snapshot.new archive start).1

replays : replay_guest 1 hasher partition vcpu Snapshot.new archive start ≡ (ok final, ended)
unfolding replay_guest restore_snapshot map_regions restore_registers replay_events replay_event
    replay_round active_vcpu Runner.run replay_exit inject_and_advance inject_event inject
    Replay.advance_rip get_registers set_registers replay_vmcall run_rest handle_vm_exit verify
    capture_registers hash_state hash_regions sort
replays = refl

replay_guest-IsVerified_example : IsVerified hasher vcpu Snapshot.new final archive.hash ended
replay_guest-IsVerified_example =
    replay_guest-IsVerified 1 hasher partition vcpu Snapshot.new archive start ended replays

run_rest-IsReport_example :
    (lines : List Message) × (run_rest partition vcpu start ≡ (ok tt, say lines start))
    × IsReport vcpu start (done (exit_at 0)) lines
run_rest-IsReport_example = run_rest-IsReport partition vcpu start

abbrev first_event : TraceEvent
first_event = record { instruction_count = 0; event = rdtsc 5 6 }

at_rdtsc : Runner.run (Runner.new partition vcpu) start ≡ (ok (exit_at 0), start)
unfolding Runner.run
at_rdtsc = refl

replay_event-returns_example :
    (replay_event 8 replayer first_event start ≡ replay_event 1 replayer first_event start)
    × ((replay_event 8 replayer first_event start).0 ≢ stuck)
    × ((replay_event 8 replayer first_event start).0 ≢ fault)
replay_event-returns_example =
    replay_event-returns replayer vcpu 7 first_event (exit_at 0) start start refl at_rdtsc
      (λ s. elim s [ inl (a, _) ↦ omega arith | inr (_, b) ↦ cc ])
