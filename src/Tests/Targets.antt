-- ===== src/Tests/Targets.antt =====
-- The two target programs, recorded.
use vestigium.Common.{ℕ, ◌≡◌, refl, some, [], ◌∷◌, arith}
use vestigium.Common.Exec.{ok}
use vestigium.Platform.{World, say, halted_record, zero_value}
use vestigium.Trace.{rdtsc, cpuid}
use vestigium.Engine.Record
use vestigium.Engine.Record.{
  RecordState, finalize, sim_rax, sim_rdx, sim_eax, sim_ebx, sim_ecx, sim_edx,
}
use vestigium.Guest.{Program}
use vestigium.Guest.Spec.{spec_recording}
use vestigium.Guest.Recorded.{run-Recording}
use vestigium.Guest.TargetApp.{resume, rounds_left, program_of, target_app}
use vestigium.Guest.TargetApp.Counting.{
  move, here, next, IsCounting, Reach-IsCounting, switches, program_of-recorded,
}
use vestigium.Guest.TestTarget.{test_target}
use vestigium.Guest.TestTarget.Verdict.{test_target-recorded}
use vestigium.Tests.Host.{host_of, At, host_of-Hosts}
use vestigium.Tests.Pipeline.{partition, vcpu}

abbrev loaded : (prog : Program) → World (host_of prog)
loaded prog = record { machine = (λ k. zero_value, prog.start); heap = []; printed = [] }

program_of-recorded_example :
    (s' : RecordState (host_of target_app)) × (u : World (host_of target_app)) × (Record.run 201
        (record { engine = Record.new partition vcpu; world = loaded target_app })
      ≡ (ok tt, s'))
    × (finalize s'.engine ≡ switches 100 0)
    × (s'.world ≡ say (halted_record 200 ∷ []) u)
program_of-recorded_example =
    program_of-recorded partition vcpu 100 (At target_app partition vcpu) (loaded target_app)
      (host_of-Hosts target_app partition vcpu) refl (omega arith)

-- what the verdict leaves in RAX
abbrev kept : ℕ → ℕ
kept result = result

test_target-recorded_example :
    (s' : RecordState (host_of (test_target kept))) × (u : World (host_of (test_target kept)))
    × (Record.run 3
          (record { engine = Record.new partition vcpu; world = loaded (test_target kept) })
        ≡ (ok tt, s'))
    × (finalize s'.engine
        ≡ record { instruction_count = 0; event = rdtsc sim_rax sim_rdx }
          ∷ record { instruction_count = 1; event = cpuid sim_eax sim_ebx sim_ecx sim_edx }
          ∷ [])
    × (s'.world ≡ say (halted_record 0x42 ∷ []) u)
test_target-recorded_example =
    test_target-recorded partition vcpu kept (At (test_target kept) partition vcpu)
      (loaded (test_target kept)) (host_of-Hosts (test_target kept) partition vcpu) refl

two_rounds :
    spec_recording 5 (program_of 2) (program_of 2).start 0
    ≡ some (record { events = switches 2 0; final_rax = 4 })
unfolding spec_recording resume
two_rounds = refl

run-Recording_example :
    (s' : RecordState (host_of (program_of 2))) × (u : World (host_of (program_of 2))) × (Record.run
        5
        (record { engine = Record.new partition vcpu; world = loaded (program_of 2) })
      ≡ (ok tt, s'))
    × (finalize s'.engine ≡ switches 2 0)
    × (s'.world ≡ say (halted_record 4 ∷ []) u)
run-Recording_example =
    run-Recording partition vcpu (program_of 2) (At (program_of 2) partition vcpu)
      (host_of-Hosts (program_of 2) partition vcpu) 5 (loaded (program_of 2)) refl (omega arith)
      two_rounds

Reach-IsCounting_example : IsCounting 100 (resume (resume (rounds_left 100 0)))
Reach-IsCounting_example = Reach-IsCounting 100 (omega arith) (next (next here move) move)
