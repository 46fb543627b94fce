-- ===== src/Engine/Replay.antt =====
-- crates/engine/src/replay.rs: the guest is run again, and the recorded values are injected.
pub mod Follow
pub mod Branches
pub mod Injection
pub mod Translation
pub mod Restored
pub mod Ends
pub mod Termination
use Prim.Native.Nat.{bit_and}
use vestigium.Common.{
  ℕ, zero, suc, ◌%◌, ◌^◌, Bool, true, false, Option, none, some, List, [], ◌∷◌, ◌++◌, ◌==◌,
  if◌then◌else◌,
}
use vestigium.Common.Exec.{
  Outcome, ok, panic, stuck, Exec, pure, raise, Flow, leave, again, ◌>>=◌, ◌>>◌,
}
use vestigium.Common.HashMap.{HashMap, get, insert}
use vestigium.Platform.{
  Platform, World, Bytes, ExitContext, RegisterName, RegisterValue, of_reg64, zero_value, rax, rbx,
  rcx, rdx, rip, halted_replay, unhandled_replay, switch_mismatch, unexpected_vmcall, println,
  add_u64,
}
use vestigium.Trace.{TraceEvent, EventType, syscall, rdtsc, cpuid, context_switch}
use vestigium.Vmm.Partition.{VmPartition, as_raw}
use vestigium.Vmm.Vcpu.{Vcpu, first, get_registers, set_registers}
use vestigium.Vmm.Ept
use vestigium.Vmm.Ept.{EptManager, map_gpa_range}
use vestigium.Engine.Memory.{AlignedMemory, len}
use vestigium.Engine.Snapshot.{Snapshot}
use vestigium.Engine.Runner

pub record ReplayEngine : Type 0 where
  pub partition : VmPartition
  pub vcpus : HashMap Vcpu
  pub active_vcpu_id : ℕ

-- `ReplayEngine::new`.
abbrev pub new : VmPartition → ℕ → ReplayEngine
new partition initial_vcpu_id = record {
  partition = partition;
  vcpus = [];
  active_vcpu_id = initial_vcpu_id;
}

abbrev pub register_vcpu : ReplayEngine → ℕ → Vcpu → ReplayEngine
register_vcpu engine id vcpu = record engine { vcpus = insert id vcpu engine.vcpus }

abbrev pub is_cpuid : EventType → Bool
is_cpuid (cpuid a b c d) = true
is_cpuid event = false

abbrev pub is_rdtsc : EventType → Bool
is_rdtsc (rdtsc a d) = true
is_rdtsc event = false

abbrev pub length_of : ExitContext → ℕ
length_of exit = bit_and exit.bitfield 0x0F

module _ {p : Platform} where
  abbrev pub found : Option Vcpu → Exec (World p) Vcpu
  found none = raise panic
  found (some vcpu) = pure vcpu

  unfoldable pub active_vcpu : ReplayEngine → Exec (World p) Vcpu
  active_vcpu engine = found (get engine.active_vcpu_id engine.vcpus)

  -- The loop of `restore_snapshot` over the regions, in the map's order.
  unfoldable pub map_regions : EptManager → HashMap AlignedMemory → Exec (World p) (Unit {0})
  map_regions ept [] = pure tt
  map_regions ept ((gpa, mem) ∷ regions) = do
    map_gpa_range ept gpa mem.ptr (len mem) 0x7
    map_regions ept regions

  unfoldable pub restore_registers :
      ReplayEngine → List RegisterName → List RegisterValue → Exec (World p) (Unit {0})
  restore_registers engine names [] = pure tt
  restore_registers engine names (v ∷ values) = do
    vcpu ← active_vcpu engine
    set_registers vcpu names (v ∷ values)

  unfoldable pub restore_snapshot :
      ReplayEngine → Snapshot → List RegisterName → Exec (World p) (Unit {0})
  restore_snapshot engine snapshot names = do
    map_regions (Ept.new (as_raw engine.partition)) snapshot.memory_regions
    restore_registers engine names snapshot.registers

  -- `write_guest_memory`, whose body is still to be written.
  unfoldable pub write_guest_memory : ReplayEngine → ℕ → Bytes → Exec (World p) (Unit {0})
  write_guest_memory engine gpa content = pure tt

  unfoldable pub write_all : ReplayEngine → List (ℕ × Bytes) → Exec (World p) (Unit {0})
  write_all engine [] = pure tt
  write_all engine ((gpa, content) ∷ writes) = do
    write_guest_memory engine gpa content
    write_all engine writes

  -- `ReplayEngine::advance_rip`.
  unfoldable pub advance_rip : ReplayEngine → ℕ → Exec (World p) (Unit {0})
  advance_rip engine instruction_length = do
    vcpu ← active_vcpu engine
    values ← get_registers vcpu (rip ∷ []) (zero_value ∷ [])
    next ← add_u64 (first values).reg64 instruction_length
    vcpu' ← active_vcpu engine
    set_registers vcpu' (rip ∷ []) (record (first values) { reg64 = next } ∷ [])

  -- The match of `inject_event` on the event.
  unfoldable pub inject : ReplayEngine → Vcpu → EventType → Exec (World p) (Unit {0})
  inject engine vcpu (syscall a memory_writes) = do
    set_registers vcpu (rax ∷ []) (of_reg64 a ∷ [])
    write_all engine memory_writes
  inject engine vcpu (rdtsc a d) =
      set_registers vcpu (rax ∷ rdx ∷ []) (of_reg64 a ∷ of_reg64 d ∷ [])
  inject engine vcpu (cpuid a b c d) =
      set_registers vcpu (rax ∷ rbx ∷ rcx ∷ rdx ∷ [])
        (of_reg64 a ∷ of_reg64 b ∷ of_reg64 c ∷ of_reg64 d ∷ [])
  inject engine vcpu (context_switch next) = pure tt

  unfoldable pub inject_event : ReplayEngine → TraceEvent → Exec (World p) (Unit {0})
  inject_event engine event = do vcpu ← active_vcpu engine; inject engine vcpu event.event

  -- The arm of reasons 1 and 8.
  unfoldable pub replay_halt : ReplayEngine → Exec (World p) (Flow (Unit {0}))
  replay_halt engine = do
    vcpu ← active_vcpu engine
    values ← get_registers vcpu (rax ∷ []) (zero_value ∷ [])
    println (halted_replay (first values).reg64)
    pure leave

  -- The injection and the step over an instruction, as in the arms of 4097, 4099 and 4.
  unfoldable pub inject_and_advance :
      ReplayEngine → TraceEvent → ℕ → Exec (World p) (Flow (Unit {0}))
  inject_and_advance engine event instruction_length = do
    inject_event engine event
    advance_rip engine instruction_length
    pure leave

  -- The arm of reason 4, by the event.
  unfoldable pub replay_vmcall :
      ReplayEngine → TraceEvent → EventType → Exec (World p) (Flow (Unit {0}))
  replay_vmcall engine event (context_switch next_thread_id) = do
    vcpu ← active_vcpu engine
    values ← get_registers vcpu (rcx ∷ []) (zero_value ∷ [])
    let current = (first values).reg64 % 2 ^ 32
    if current == next_thread_id
        then inject_and_advance engine event 3
        else (do println (switch_mismatch next_thread_id current); pure leave)
  replay_vmcall engine event other = do println unexpected_vmcall; pure leave

  -- The match on the reason of an exit.
  unfoldable pub replay_exit :
      ReplayEngine → TraceEvent → ExitContext → Exec (World p) (Flow (Unit {0}))
  replay_exit engine event exit =
      if exit.exit_reason == 1
      then replay_halt engine
      else if exit.exit_reason == 8
      then replay_halt engine
      else if exit.exit_reason == 4097
      then (if is_cpuid event.event
          then inject_and_advance engine event (length_of exit)
          else pure (again tt))
      else if exit.exit_reason == 4099
      then (if is_rdtsc event.event
          then inject_and_advance engine event (length_of exit)
          else pure (again tt))
      else if exit.exit_reason == 4
      then replay_vmcall engine event event.event
      else (do println (unhandled_replay exit.exit_reason); pure leave)

  -- One round of the loop of `replay_event`.
  unfoldable pub replay_round : ReplayEngine → TraceEvent → Exec (World p) (Flow (Unit {0}))
  replay_round engine event = do
    vcpu ← active_vcpu engine
    exit ← Runner.run (Runner.new engine.partition vcpu)
    replay_exit engine event exit

  -- `ReplayEngine::replay_event`, on fuel.
  unfoldable pub replay_event : ℕ → ReplayEngine → TraceEvent → Exec (World p) (Unit {0})
  replay_event zero engine event = raise stuck
  replay_event (suc fuel) engine event = do
    flow ← replay_round engine event
    elim flow [ leave ↦ pure tt | again _ ↦ replay_event fuel engine event ]
