-- ===== src/Tests/Recorder.antt =====
-- The numbering of a recorded trace.
use vestigium.Common.{◌≡◌, ◌%◌, refl, some, get_elem?}
use vestigium.Platform.{u64_mod}
use vestigium.Trace.{context_switch}
use vestigium.Engine.Runner
use vestigium.Engine.Record
use vestigium.Engine.Record.{finalize}
use vestigium.Engine.Record.Trace.{IsRecorded}
use vestigium.Engine.Record.Counts.{run-counts}
use vestigium.Engine.Record.Rounds.{LastExit, run-LastExit}
use vestigium.Vmm.Vcpu.{get_registers, set_registers}
use vestigium.Tests.Toy.{start}
use vestigium.Tests.Pipeline.{partition, vcpu, recording, recorded, run_ends}

third :
    get_elem? (finalize recorded.engine) 2
    ≡ some (record { instruction_count = 2; event = context_switch 0xCCCC_CCCC })
unfolding Record.run Record.record_loop Record.record_round Runner.run Record.record_exit
    Record.record_rdtsc set_registers Record.advance_rip get_registers Record.record_cpuid
    Record.record_vmcall Record.record_halt
third = refl

run-counts_example : (2 ≡ 2 % u64_mod) × IsRecorded (context_switch 0xCCCC_CCCC)
run-counts_example = run-counts partition vcpu 9 start 2 third

run-LastExit_example : LastExit recording recorded
run-LastExit_example = run-LastExit 9 recording recorded run_ends
