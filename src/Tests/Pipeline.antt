-- ===== src/Tests/Pipeline.antt =====
-- The recorder and the replayer on the small platform.
use vestigium.Common.{◌≡◌, refl, [], ◌∷◌}
use vestigium.Common.Exec.{ok}
use vestigium.Trace.{rdtsc, cpuid, context_switch}
use vestigium.Vmm.Partition.{VmPartition}
use vestigium.Vmm.Vcpu.{Vcpu, get_registers, set_registers}
use vestigium.Engine.Runner
use vestigium.Engine.Record
use vestigium.Engine.Record.{RecordState, finalize}
use vestigium.Engine.Replay
use vestigium.Engine.Replay.{ReplayEngine}
use vestigium.Engine.Simulation.{same_guest-IsSimulation, SameGuest}
use vestigium.Cli.Determinism.{Reaches, record_replay}
use vestigium.Tests.Toy.{toy, start}

abbrev pub partition : VmPartition
partition = record { handle = 1 }

abbrev pub vcpu : Vcpu
vcpu = record { partition = 1; index = 0 }

abbrev pub recording : RecordState toy
recording = record { engine = Record.new partition vcpu; world = start }

abbrev pub replayer : ReplayEngine
replayer = Replay.register_vcpu (Replay.new partition 0) 0 vcpu

abbrev pub recorded : RecordState toy
recorded = (Record.run 9 recording).1

pub run_ends : Record.run 9 recording ≡ (ok tt, recorded)
unfolding Record.run Record.record_loop Record.record_round Runner.run Record.record_exit
    Record.record_rdtsc set_registers Record.advance_rip get_registers Record.record_cpuid
    Record.record_vmcall Record.record_halt
run_ends = refl

trace :
    finalize recorded.engine
    ≡ record { instruction_count = 0; event = rdtsc 0x1000 0 }
      ∷ record {
        instruction_count = 1;
        event = cpuid 0xAAAA_AAAA 0xBBBB_BBBB 0xCCCC_CCCC 0xDDDD_DDDD;
      }
      ∷ record { instruction_count = 2; event = context_switch 0xCCCC_CCCC }
      ∷ []
unfolding Record.run Record.record_loop Record.record_round Runner.run Record.record_exit
    Record.record_rdtsc set_registers Record.advance_rip get_registers Record.record_cpuid
    Record.record_vmcall Record.record_halt
trace = refl

record_replay_example :
    Reaches SameGuest partition vcpu vcpu replayer refl
      (same_guest-IsSimulation partition vcpu)
      0
      (finalize recorded.engine)
      start
      recorded.world
record_replay_example =
    record_replay SameGuest partition vcpu vcpu replayer refl
      (same_guest-IsSimulation partition vcpu) 0 9 start start recorded run_ends (refl, refl)
