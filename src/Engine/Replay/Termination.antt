-- ===== src/Engine/Replay/Termination.antt =====
-- When `replay_event` returns: one run of the guest is enough unless its exit is skipped.
use vestigium.Common.{
  ℕ, suc, ◌%◌, ◌^◌, ◌≡◌, ◌≢◌, refl, inl, inr, Bool-cases, some, List, [], ◌∷◌, ◌==◌, ==_iff,
  if◌then◌else◌,
}
use vestigium.Common.Exec.{
  Outcome, ok, err, panic, fault, stuck, Exec, continue, pure, Flow, leave, again, ◌>>=◌, ◌>>◌,
}
use vestigium.Common.HashMap.{get}
use vestigium.Platform.{
  Platform, World, println, ExitContext, RegisterValue, zero_value, rax, rcx, halted_replay,
  switch_mismatch,
}
use vestigium.Trace.{TraceEvent, EventType, syscall, rdtsc, cpuid, context_switch}
use vestigium.Vmm.Vcpu.{Vcpu, first, get_registers}
use vestigium.Engine.Runner
use vestigium.Engine.Replay.{
  ReplayEngine, is_cpuid, is_rdtsc, active_vcpu, advance_rip, inject_event, inject_and_advance,
  replay_vmcall, replay_halt, replay_exit, replay_event,
}
use vestigium.Engine.Replay.Branches.{IsSkipped, round_at}
use vestigium.Engine.Replay.Ends.{
  Leaves, bind-Leaves, active_vcpu-Ends, get_registers-Ends, inject_event-Ends, advance_rip-Ends,
}

module _ {p : Platform} (engine : ReplayEngine) where
  abbrev injected : TraceEvent → ℕ → Exec (World p) (Flow (Unit {0}))
  injected e len = advance_rip engine len >>= λ _. pure leave

  inject_and_advance-Leaves :
      (e : TraceEvent) (len : ℕ) (w : World p) → Leaves (inject_and_advance engine e len w).0
  unfolding inject_and_advance
  inject_and_advance-Leaves e len w =
      bind-Leaves (inject_event engine e) (λ _. injected e len) w (inject_event-Ends engine e w)
        (λ _ u.
          bind-Leaves (advance_rip engine len) (λ _. pure leave) u (advance_rip-Ends engine len u)
            (λ _ _. tt))

  abbrev said : List RegisterValue → Exec (World p) (Flow (Unit {0}))
  said values = do println (halted_replay (first values).reg64); pure leave

  replay_halt-Leaves : (w : World p) → Leaves (replay_halt engine w).0
  unfolding replay_halt
  replay_halt-Leaves w =
      bind-Leaves (active_vcpu engine) (λ v. get_registers v (rax ∷ []) (zero_value ∷ []) >>= said)
        w (active_vcpu-Ends engine w)
        (λ v u.
          bind-Leaves (get_registers v (rax ∷ []) (zero_value ∷ [])) said u
            (get_registers-Ends v _ _ u) (λ _ _. tt))

  abbrev compared : TraceEvent → ℕ → List RegisterValue → Exec (World p) (Flow (Unit {0}))
  compared e n values =
      if (first values).reg64 % 2 ^ 32 == n
      then inject_and_advance engine e 3
      else (do println (switch_mismatch n ((first values).reg64 % 2 ^ 32)); pure leave)

  compared-Leaves :
      (e : TraceEvent) (n : ℕ) (values : List RegisterValue) (w : World p)
      → Leaves (compared e n values w).0
  compared-Leaves e n values w = elim (Bool-cases ((first values).reg64 % 2 ^ 32 == n)) [
    | inl same ↦ rw same (inject_and_advance-Leaves e 3 w)
    | inr other ↦ rw other tt
  ]

  replay_vmcall-Leaves :
      (e : TraceEvent) (event : EventType) (w : World p) → Leaves (replay_vmcall engine e event w).0
  unfolding replay_vmcall
  replay_vmcall-Leaves e (context_switch n) w =
      bind-Leaves (active_vcpu engine)
        (λ v. get_registers v (rcx ∷ []) (zero_value ∷ []) >>= compared e n) w
        (active_vcpu-Ends engine w)
        (λ v u.
          bind-Leaves (get_registers v (rcx ∷ []) (zero_value ∷ [])) (compared e n) u
            (get_registers-Ends v _ _ u) (compared-Leaves e n))
  replay_vmcall-Leaves e (syscall a m) w = tt
  replay_vmcall-Leaves e (rdtsc a d) w = tt
  replay_vmcall-Leaves e (cpuid a b c d) w = tt

  replay_exit-Leaves :
      (e : TraceEvent) (exit : ExitContext) (w : World p)
      → ¬ IsSkipped exit e
      → Leaves (replay_exit engine e exit w).0
  unfolding replay_exit
  replay_exit-Leaves e exit w ns = elim (Bool-cases (exit.exit_reason == 1)) [
    | inl a ↦ rw a (replay_halt-Leaves w)
    | inr a ↦ elim (Bool-cases (exit.exit_reason == 8)) [
      | inl b ↦ rw (a, b) (replay_halt-Leaves w)
      | inr b ↦ elim (Bool-cases (exit.exit_reason == 4097)) [
        | inl c ↦ elim (Bool-cases (is_cpuid e.event)) [
          | inl k ↦ rw (a, b, c, k) (inject_and_advance-Leaves e _ w)
          | inr k ↦ absurd (ns (inl ((==_iff _ _).0 c, k)))
        ]
        | inr c ↦ elim (Bool-cases (exit.exit_reason == 4099)) [
          | inl d ↦ elim (Bool-cases (is_rdtsc e.event)) [
            | inl k ↦ rw (a, b, c, d, k) (inject_and_advance-Leaves e _ w)
            | inr k ↦ absurd (ns (inr ((==_iff _ _).0 d, k)))
          ]
          | inr d ↦ elim (Bool-cases (exit.exit_reason == 4)) [
            | inl f ↦ rw (a, b, c, d, f) (replay_vmcall-Leaves e e.event w)
            | inr f ↦ rw (a, b, c, d, f) tt
          ]
        ]
      ]
    ]
  ]

  abbrev next_round : ℕ → TraceEvent → Flow (Unit {0}) → Exec (World p) (Unit {0})
  next_round fuel e flow = elim flow [ leave ↦ pure tt | again _ ↦ replay_event fuel engine e ]

  -- after a round that leaves, the fuel is not used
  last_round :
      (fuel : ℕ) (e : TraceEvent) (r : Outcome (Flow (Unit {0}))) (w : World p)
      → Leaves r
      → (continue r (next_round fuel e) w ≡ continue r (next_round 0 e) w)
        × ((continue r (next_round fuel e) w).0 ≢ stuck)
        × ((continue r (next_round fuel e) w).0 ≢ fault)
  last_round fuel e (ok leave) w l = (refl, (λ q. cc), λ q. cc)
  last_round fuel e (ok (again x)) w l = elim l [ ]
  last_round fuel e (err n) w l = (refl, (λ q. cc), λ q. cc)
  last_round fuel e panic w l = (refl, (λ q. cc), λ q. cc)
  last_round fuel e fault w l = elim l [ ]
  last_round fuel e stuck w l = elim l [ ]

  -- If the first run of the guest exits, and not for CPUID at an event that is no CPUID event or for
  -- RDTSC at one that is no RDTSC event, then `replay_event` returns after that run, with a result, an
  -- error or a panic: one unit of fuel is enough, and more gives the same.
  pub replay_event-returns :
      (v : Vcpu) (fuel : ℕ) (e : TraceEvent) (exit : ExitContext) (w u : World p)
      → get engine.active_vcpu_id engine.vcpus ≡ some v
      → Runner.run (Runner.new engine.partition v) w ≡ (ok exit, u)
      → ¬ IsSkipped exit e
      → (replay_event (suc fuel) engine e w ≡ replay_event 1 engine e w)
        × ((replay_event (suc fuel) engine e w).0 ≢ stuck)
        × ((replay_event (suc fuel) engine e w).0 ≢ fault)
  unfolding replay_event
  replay_event-returns v fuel e exit w u has run ns = rw (round_at engine v has e exit w u run) (
      last_round fuel e (replay_exit engine e exit u).0 (replay_exit engine e exit u).1
        (replay_exit-Leaves e exit u ns))
