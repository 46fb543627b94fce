-- ===== src/Engine/Replay/Branches.antt =====
-- What `replay_event` and `inject_event` do where the replayed run is not the recorded one.
use vestigium.Common.{
  ℕ, zero, suc, ◌%◌, ◌^◌, ◌≡◌, ◌≢◌, refl, ap, sym, ◌∙◌, ◌⊎◌, inl, inr, false, some, List, [], ◌∷◌,
  ◌==◌, ==_iff, Bool-cases,
}
use vestigium.Common.Exec.{ok, stuck, Exec, Flow, leave, again}
use vestigium.Common.Steps.{bind-step}
use vestigium.Common.HashMap.{get}
use vestigium.Platform.{
  Platform, World, ExitContext, RegisterValue, Message, say, switch_mismatch, unexpected_vmcall,
}
use vestigium.Trace.{TraceEvent, EventType, syscall, rdtsc, cpuid, context_switch}
use vestigium.Vmm.Vcpu.{Vcpu, first}
use vestigium.Engine.Runner
use vestigium.Engine.Record.Steps.{read_rcx}
use vestigium.Engine.Replay.{
  ReplayEngine, is_cpuid, is_rdtsc, replay_vmcall, replay_exit, replay_round, replay_event,
}
use vestigium.Engine.Replay.Follow.{active_vcpu_lem, replay_round_lem}

-- A CPUID or RDTSC exit at an event of another kind.
abbrev pub IsSkipped : ExitContext → TraceEvent → Type 0
IsSkipped exit e =
    ((exit.exit_reason ≡ 4097) × (is_cpuid e.event ≡ false))
    ⊎ ((exit.exit_reason ≡ 4099) × (is_rdtsc e.event ≡ false))

module _ {p : Platform} (engine : ReplayEngine) (v : Vcpu)
    (has : get engine.active_vcpu_id engine.vcpus ≡ some v) where
  skipped-again :
      (exit : ExitContext) (e : TraceEvent) (w : World p)
      → IsSkipped exit e
      → replay_exit engine e exit w ≡ (ok (again tt), w)
  unfolding replay_exit
  skipped-again exit e w (inl (r, k)) = rw (r, k)
  skipped-again exit e w (inr (r, k)) = rw (r, k)

  pub round_at :
      (e : TraceEvent) (exit : ExitContext) (w u : World p)
      → Runner.run (Runner.new engine.partition v) w ≡ (ok exit, u)
      → replay_round engine e w ≡ replay_exit engine e exit u
  round_at e exit w u run =
      ap (λ (m : Exec (World p) (Flow (Unit {0}))). m w) (replay_round_lem engine v has e)
      ∙ bind-step (Runner.run (Runner.new engine.partition v)) (replay_exit engine e) w run

  -- If the guest exits for CPUID at an event that is no CPUID event, or for RDTSC at one that is no
  -- RDTSC event, and running it again gives the same exit in the same state (as it does at an
  -- intercepted instruction that nothing has stepped over), then `replay_event` never returns: no
  -- amount of fuel is enough.
  pub replay_event-spins :
      (e : TraceEvent) (exit : ExitContext) (w : World p)
      → Runner.run (Runner.new engine.partition v) w ≡ (ok exit, w)
      → IsSkipped exit e
      → (fuel : ℕ) → replay_event fuel engine e w ≡ (stuck, w)
  unfolding replay_event
  replay_event-spins e exit w run s zero = refl
  replay_event-spins e exit w run s (suc fuel) =
      rw (round_at e exit w w run ∙ skipped-again exit e w s)
        (replay_event-spins e exit w run s fuel)

  -- the arm of VMCALL, at any event but the switch to the thread in RCX
  vmcall_mismatch :
      (e : TraceEvent) (u : World p) (values : List RegisterValue)
      → read_rcx v u ≡ (ok values, u)
      → (event : EventType) → event ≢ context_switch ((first values).reg64 % 2 ^ 32)
      → (m : Message) × (replay_vmcall engine e event u ≡ (ok leave, say (m ∷ []) u))
  unfolding replay_vmcall
  vmcall_mismatch e u values rcx (context_switch n) ne =
      elim (Bool-cases ((first values).reg64 % 2 ^ 32 == n)) [
        | inl same ↦ absurd (ne (ap context_switch (sym ((==_iff _ n).0 same))))
        | inr other ↦ (
          switch_mismatch n ((first values).reg64 % 2 ^ 32),
          rw (active_vcpu_lem engine v has, rcx, other),
        )
      ]
  vmcall_mismatch e u values rcx (syscall a m) ne = (unexpected_vmcall, refl)
  vmcall_mismatch e u values rcx (rdtsc a d) ne = (unexpected_vmcall, refl)
  vmcall_mismatch e u values rcx (cpuid a b c d) ne = (unexpected_vmcall, refl)

  -- At a VMCALL, with the event of another thread number, or with an event that is no context
  -- switch, a line is printed and the call succeeds: no register is written, and the guest is left at
  -- the VMCALL.
  pub replay_event-mismatch :
      (fuel : ℕ) (e : TraceEvent) (exit : ExitContext) (w u : World p) (values : List RegisterValue)
      → Runner.run (Runner.new engine.partition v) w ≡ (ok exit, u)
      → exit.exit_reason ≡ 4
      → read_rcx v u ≡ (ok values, u)
      → e.event ≢ context_switch ((first values).reg64 % 2 ^ 32)
      → (m : Message) × (replay_event (suc fuel) engine e w ≡ (ok tt, say (m ∷ []) u))
  unfolding replay_event replay_exit
  replay_event-mismatch fuel e exit w u values run four rcx ne =
      let (m, k) = vmcall_mismatch e u values rcx e.event ne in
      (m, rw (round_at e exit w u run, four, k))
