-- ===== src/Guest/Hosts.antt =====
-- What it means that a processor runs a program: the documented behaviour of the hypervisor and of
-- the instructions that it intercepts.
use vestigium.Common.{ℕ, ◌≡◌, List, [], ◌∷◌}
use vestigium.Common.Exec.{ok}
use vestigium.Platform.{
  Platform, World, ExitContext, RegisterValue, of_reg64, zero_value, rax, rbx, rcx, rdx,
}
use vestigium.Vmm.Partition.{VmPartition}
use vestigium.Vmm.Vcpu.{Vcpu, first, get_registers, set_registers}
use vestigium.Engine.Runner
use vestigium.Engine.Record.{advance_rip, length_of}
use vestigium.Guest.{Program, at_hlt, at_vmcall, at_rdtsc, at_cpuid, nothing, ticks, ids}

-- The run from `w` exits for `reason`, and leaves `u`.
pub record Exits {p : Platform} (part : VmPartition) (v : Vcpu) (reason : ℕ) (w : World p)
    : Type 0 where
  pub exit : ExitContext
  pub after : World p
  pub run : Runner.run (Runner.new part v) w ≡ (ok exit, after)
  pub for_reason : exit.exit_reason ≡ reason

-- Stepped over the instruction, the guest stands at the point.
pub record Steps {p : Platform} (At : World p → Type 0) (v : Vcpu) (length : ℕ) (w : World p)
    : Type 0 where
  pub next : World p
  pub steps : advance_rip v length w ≡ (ok tt, next)
  pub there : At next

-- The registers of an instruction can be written, and the guest goes on with them.
pub record Answers {p : Platform} (At : World p → Type 0) (v : Vcpu) (length : ℕ) (names : List _)
    (values : List RegisterValue) (w : World p) : Type 0 where
  pub written : World p
  pub writes : set_registers v names values w ≡ (ok tt, written)
  pub then : Steps At v length written

-- `At point w`: run from `w`, the guest gets to the next stop after `point`, and exits there.
pub record Hosts {p : Platform} (part : VmPartition) (v : Vcpu) (prog : Program)
    (At : prog.Point → World p → Type 0) : Type 0 where
  -- HLT, with RAX
  pub halts :
      (point : prog.Point) (w : World p) (value : ℕ)
      → At point w
      → prog.stop point ≡ at_hlt value
      → (e : Exits part v 8 w) × (values : List RegisterValue) × (get_registers v
            (rax ∷ [])
            (zero_value ∷ [])
            e.after
          ≡ (ok values, e.after))
        × ((first values).reg64 ≡ value)
  -- VMCALL, three bytes long, with RCX
  pub calls :
      (point : prog.Point) (w : World p) (value : ℕ)
      → At point w
      → prog.stop point ≡ at_vmcall value
      → (e : Exits part v 4 w) × (values : List RegisterValue) × (get_registers v
            (rcx ∷ [])
            (zero_value ∷ [])
            e.after
          ≡ (ok values, e.after))
        × ((first values).reg64 ≡ value)
        × Steps (At (prog.resume point nothing)) v 3 e.after
  -- RDTSC, for any values
  pub reads_ticks :
      (point : prog.Point) (w : World p) (a d : ℕ)
      → At point w
      → prog.stop point ≡ at_rdtsc
      → (e : Exits part v 4099 w) × Answers
          (At (prog.resume point (ticks a d)))
          v
          (length_of e.exit)
          (rax ∷ rdx ∷ [])
          (of_reg64 a ∷ of_reg64 d ∷ [])
          e.after
  -- CPUID, for any values
  pub reads_ids :
      (point : prog.Point) (w : World p) (a b c d : ℕ)
      → At point w
      → prog.stop point ≡ at_cpuid
      → (e : Exits part v 4097 w) × Answers
          (At (prog.resume point (ids a b c d)))
          v
          (length_of e.exit)
          (rax ∷ rbx ∷ rcx ∷ rdx ∷ [])
          (of_reg64 a ∷ of_reg64 b ∷ of_reg64 c ∷ of_reg64 d ∷ [])
          e.after
