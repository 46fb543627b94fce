-- ===== src/Engine/Replay/Follow.antt =====
-- One round of the replayer at the exit at which its event was recorded.
use vestigium.Common.{ℕ, ◌%◌, ◌^◌, ◌≡◌, some, List, ==_refl}
use vestigium.Common.Exec.{ok, Exec, pure, Flow, leave, ◌>>=◌, ◌>>◌}
use vestigium.Common.HashMap.{get}
use vestigium.Platform.{Platform, World, ExitContext, RegisterValue}
use vestigium.Trace.{TraceEvent}
use vestigium.Vmm.Vcpu.{Vcpu, first}
use vestigium.Engine.Runner
use vestigium.Engine.Record
use vestigium.Engine.Record.Steps.{
  at, cpuid_event, rdtsc_event, switch_event, write_cpuid, write_rdtsc, read_rcx,
}
use vestigium.Engine.Replay.{
  ReplayEngine, active_vcpu, advance_rip, inject, inject_event, inject_and_advance, replay_vmcall,
  replay_exit, replay_round, length_of,
}

module _ {p : Platform} (engine : ReplayEngine) (v : Vcpu)
    (has : get engine.active_vcpu_id engine.vcpus ≡ some v) where
  pub active_vcpu_lem : active_vcpu {p = p} engine ≡ pure v
  unfolding active_vcpu
  active_vcpu_lem = rw has

  -- The two engines step over an instruction in the same way.
  pub advance_rip_same : (len : ℕ) → advance_rip {p = p} engine len ≡ Record.advance_rip v len
  unfolding advance_rip Record.advance_rip
  advance_rip_same len = rw active_vcpu_lem

  -- an injection, and the step over the instruction
  abbrev pub then_advance : {A : Type 0} → Exec (World p) A → ℕ → Exec (World p) (Flow (Unit {0}))
  then_advance m len = m >>= λ _. Record.advance_rip v len >>= λ _. pure leave

  module _ (count : ℕ) (exit : ExitContext) where
    pub replay_cpuid :
        exit.exit_reason ≡ 4097
        → replay_exit engine (at count cpuid_event) exit
          ≡ then_advance (write_cpuid v) (length_of exit)
    unfolding replay_exit inject_and_advance inject_event inject
    replay_cpuid r = rw (r, active_vcpu_lem, advance_rip_same)

    pub replay_rdtsc :
        exit.exit_reason ≡ 4099
        → replay_exit engine (at count rdtsc_event) exit
          ≡ then_advance (write_rdtsc v) (length_of exit)
    unfolding replay_exit inject_and_advance inject_event inject
    replay_rdtsc r = rw (r, active_vcpu_lem, advance_rip_same)

    pub replay_switch :
        (values : List RegisterValue) (w mid : World p)
        → exit.exit_reason ≡ 4
        → read_rcx v w ≡ (ok values, mid)
        → replay_exit engine (at count (switch_event values)) exit w
          ≡ (do Record.advance_rip v 3; pure leave) mid
    unfolding replay_exit inject_and_advance inject_event inject replay_vmcall
    replay_switch values w mid r e =
        rw (r, active_vcpu_lem, e, ==_refl ((first values).reg64 % 2 ^ 32), advance_rip_same)

  pub replay_round_lem :
      (event : TraceEvent)
      → replay_round {p = p} engine event
        ≡ (Runner.run (Runner.new engine.partition v) >>= replay_exit engine event)
  unfolding replay_round
  replay_round_lem event = rw active_vcpu_lem
