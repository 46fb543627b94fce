-- ===== src/Guest/TestTarget/Verdict.antt =====
-- The verdict of the test target under the recorder.
use vestigium.Common.{ℕ, ◌≡◌, refl, some, [], ◌∷◌, arith}
use vestigium.Common.Exec.{ok}
use vestigium.Platform.{Platform, World, say, halted_record}
use vestigium.Trace.{rdtsc, cpuid}
use vestigium.Vmm.Partition.{VmPartition}
use vestigium.Vmm.Vcpu.{Vcpu}
use vestigium.Engine.Record
use vestigium.Engine.Record.{
  RecordState, finalize, sim_rax, sim_rdx, sim_eax, sim_ebx, sim_ecx, sim_edx,
}
use vestigium.Guest.Spec.{spec_recording}
use vestigium.Guest.Hosts.{Hosts}
use vestigium.Guest.Recorded.{run-Recording}
use vestigium.Guest.TestTarget.{Point, test_target}

test_target-recording :
    (leftover : ℕ → ℕ)
    → spec_recording 3 (test_target leftover) (test_target leftover).start 0
      ≡ some (record {
        events =
            record { instruction_count = 0; event = rdtsc sim_rax sim_rdx }
            ∷ record { instruction_count = 1; event = cpuid sim_eax sim_ebx sim_ecx sim_edx }
            ∷ [];
        final_rax = leftover 0x42;
      })
unfolding spec_recording
test_target-recording leftover = refl

-- On a processor that runs the test target, the recorder ends with two events, the RDTSC and then the
-- CPUID with its constants, and the target's verdict is 0x42; the value printed is what is left in RAX
-- after that verdict.
pub test_target-recorded :
    {p : Platform} (part : VmPartition) (v : Vcpu) (leftover : ℕ → ℕ)
    (At : Point → World p → Type 0) (w : World p)
    → Hosts part v (test_target leftover) At
    → At (test_target leftover).start w
    → (s' : RecordState p) × (u : World p) × (Record.run 3
          (record { engine = Record.new part v; world = w })
        ≡ (ok tt, s'))
      × (finalize s'.engine
          ≡ record { instruction_count = 0; event = rdtsc sim_rax sim_rdx }
            ∷ record { instruction_count = 1; event = cpuid sim_eax sim_ebx sim_ecx sim_edx }
            ∷ [])
      × (s'.world ≡ say (halted_record (leftover 0x42) ∷ []) u)
test_target-recorded part v leftover At w hosts at =
    run-Recording part v (test_target leftover) At hosts 3 w at (omega arith)
      (test_target-recording leftover)
