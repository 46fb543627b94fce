-- ===== src/Engine/Record.antt =====
-- crates/engine/src/record.rs, `TraceLogger` and `RecordEngine`: the guest is run from exit to
-- exit, and what the exits inject is logged.
pub mod Steps
pub mod Exits
pub mod Trace
pub mod Counts
pub mod Rounds
pub mod Memory
use Prim.Native.Nat.{bit_and}
use vestigium.Common.{ℕ, zero, suc, ◌%◌, ◌^◌, List, [], ◌∷◌, ◌++◌, ◌==◌, if◌then◌else◌}
use vestigium.Common.Exec.{Outcome, ok, stuck, Exec, pure, raise, Flow, leave, again, ◌>>=◌, ◌>>◌}
use vestigium.Platform.{
  Platform, World, ExitContext, RegisterName, RegisterValue, of_reg64, zero_value, rax, rbx, rcx,
  rdx, rip, Message, ept_violation, halted_record, unhandled_record, println, add_u64,
}
use vestigium.Trace.{TraceEvent, EventType, rdtsc, cpuid, context_switch}
use vestigium.Vmm.Partition.{VmPartition}
use vestigium.Vmm.Vcpu.{Vcpu, first, get_registers, set_registers}
use vestigium.Engine.Runner
use vestigium.Engine.Runner.{VmRunner}

pub record TraceLogger : Type 0 where
  pub events : List TraceEvent

-- `TraceLogger::new`.
abbrev pub new_logger : TraceLogger
new_logger = record { events = [] }

abbrev pub log_event : TraceLogger → TraceEvent → TraceLogger
log_event logger event = record { events = logger.events ++ event ∷ [] }

pub record RecordEngine : Type 0 where
  pub vcpu : Vcpu
  pub logger : TraceLogger
  pub runner : VmRunner

-- `RecordEngine::new`.
abbrev pub new : VmPartition → Vcpu → RecordEngine
new partition vcpu = record { vcpu = vcpu; logger = new_logger; runner = Runner.new partition vcpu }

-- `RecordEngine::finalize`.
abbrev pub finalize : RecordEngine → List TraceEvent
finalize engine = engine.logger.events

-- The constants that the exits inject.
abbrev pub sim_eax : ℕ
sim_eax = 0xAAAA_AAAA

abbrev pub sim_ebx : ℕ
sim_ebx = 0xBBBB_BBBB

abbrev pub sim_ecx : ℕ
sim_ecx = 0xCCCC_CCCC

abbrev pub sim_edx : ℕ
sim_edx = 0xDDDD_DDDD

abbrev pub sim_rax : ℕ
sim_rax = 0x1000

abbrev pub sim_rdx : ℕ
sim_rdx = 0x0

abbrev pub length_of : ExitContext → ℕ
length_of exit = bit_and exit.bitfield 0x0F

-- `&mut self`, beside what its calls change.
pub record RecordState (p : Platform) : Type 0 where
  pub engine : RecordEngine
  pub world : World p

module _ {p : Platform} where
  abbrev pub on_world : {A : Type 0} → Exec (World p) A → Exec (RecordState p) A
  on_world m s = let (r, w) = m s.world in (r, record s { world = w })

  -- `self.logger.log_event(event)`.
  abbrev pub log : TraceEvent → Exec (RecordState p) (Unit {0})
  log event s =
      (ok tt, record s { engine = record s.engine { logger = log_event s.engine.logger event } })

  -- `RecordEngine::advance_rip`.
  unfoldable pub advance_rip : Vcpu → ℕ → Exec (World p) (Unit {0})
  advance_rip vcpu instruction_length = do
    values ← get_registers vcpu (rip ∷ []) (zero_value ∷ [])
    next ← add_u64 (first values).reg64 instruction_length
    set_registers vcpu (rip ∷ []) (record (first values) { reg64 = next } ∷ [])

  -- The arm of reason 8.
  unfoldable pub record_halt : Vcpu → Exec (World p) (Unit {0})
  record_halt vcpu = do
    values ← get_registers vcpu (rax ∷ []) (zero_value ∷ [])
    println (halted_record (first values).reg64)

  -- The arm of reason 4097.
  unfoldable pub record_cpuid : Vcpu → ExitContext → ℕ → Exec (RecordState p) (Flow ℕ)
  record_cpuid vcpu exit count = do
    on_world (
        set_registers vcpu (rax ∷ rbx ∷ rcx ∷ rdx ∷ [])
          (of_reg64 sim_eax ∷ of_reg64 sim_ebx ∷ of_reg64 sim_ecx ∷ of_reg64 sim_edx ∷ []))
    log (record { instruction_count = count; event = cpuid sim_eax sim_ebx sim_ecx sim_edx })
    next ← on_world (add_u64 count 1)
    on_world (advance_rip vcpu (length_of exit))
    pure (again next)

  -- The arm of reason 4099.
  unfoldable pub record_rdtsc : Vcpu → ExitContext → ℕ → Exec (RecordState p) (Flow ℕ)
  record_rdtsc vcpu exit count = do
    on_world (set_registers vcpu (rax ∷ rdx ∷ []) (of_reg64 sim_rax ∷ of_reg64 sim_rdx ∷ []))
    log (record { instruction_count = count; event = rdtsc sim_rax sim_rdx })
    next ← on_world (add_u64 count 1)
    on_world (advance_rip vcpu (length_of exit))
    pure (again next)

  -- The arm of reason 4.
  unfoldable pub record_vmcall : Vcpu → ℕ → Exec (RecordState p) (Flow ℕ)
  record_vmcall vcpu count = do
    values ← on_world (get_registers vcpu (rcx ∷ []) (zero_value ∷ []))
    log (record {
      instruction_count = count;
      event = context_switch ((first values).reg64 % 2 ^ 32);
    })
    next ← on_world (add_u64 count 1)
    on_world (advance_rip vcpu 3)
    pure (again next)

  -- The match on the reason of an exit.
  unfoldable pub record_exit : Vcpu → ExitContext → ℕ → Exec (RecordState p) (Flow ℕ)
  record_exit vcpu exit count =
      if exit.exit_reason == 1
      then (do on_world (println (ept_violation exit.gpa)); pure leave)
      else if exit.exit_reason == 8
      then (do on_world (record_halt vcpu); pure leave)
      else if exit.exit_reason == 4097
      then record_cpuid vcpu exit count
      else if exit.exit_reason == 4099
      then record_rdtsc vcpu exit count
      else if exit.exit_reason == 4
      then record_vmcall vcpu count
      else (do on_world (println (unhandled_record exit.exit_reason)); pure leave)

  -- One round of the loop of `RecordEngine::run`.
  unfoldable pub record_round : ℕ → Exec (RecordState p) (Flow ℕ)
  record_round count s =
      (do exit ← on_world (Runner.run s.engine.runner); record_exit s.engine.vcpu exit count) s

  -- The loop, on fuel.
  unfoldable pub record_loop : ℕ → ℕ → Exec (RecordState p) (Unit {0})
  record_loop zero count = raise stuck
  record_loop (suc fuel) count = do
    flow ← record_round count
    elim flow [ leave ↦ pure tt | again next ↦ record_loop fuel next ]

  -- `RecordEngine::run`.
  unfoldable pub run : ℕ → Exec (RecordState p) (Unit {0})
  run fuel = record_loop fuel 0
