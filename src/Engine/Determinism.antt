-- ===== src/Engine/Determinism.antt =====
-- A recorded run is replayed: the replayer, fed with the recorded events, follows it exit by exit.
use vestigium.Common.{ℕ, suc, ◌+◌, ◌%◌, ◌≡◌, sym, ◌∙◌, ap, inl, inr, some, List, [], ◌∷◌}
use vestigium.Common.Exec.{ok, Exec, pure, Flow, leave, again, ◌>>=◌}
use vestigium.Common.Steps.{bind-ok, bind-step}
use vestigium.Common.HashMap.{get}
use vestigium.Platform.{Platform, World, ExitContext, RegisterValue, u64_mod}
use vestigium.Trace.{EventType}
use vestigium.Vmm.Partition.{VmPartition}
use vestigium.Vmm.Vcpu.{Vcpu}
use vestigium.Engine.Runner
use vestigium.Engine.Record
use vestigium.Engine.Record.{
  RecordState, RecordEngine, on_world, record_exit, record_round, record_loop,
}
use vestigium.Engine.Record.Steps.{
  at, cpuid_event, rdtsc_event, switch_event, with_event, on_world-ok, cpuid-ok, rdtsc-ok,
  vmcall-ok, write_cpuid, write_rdtsc, read_rcx, Logged,
}
use vestigium.Engine.Record.Exits.{
  record_exit-again, record_exit-leave, IsLine-unhandled, IsIntercepted,
}
use mathlib.Core.Path.{subst}
use vestigium.Engine.Replay.{ReplayEngine, replay_exit, replay_round, replay_event}
use vestigium.Engine.Replay.Follow.{
  then_advance, replay_cpuid, replay_rdtsc, replay_switch, replay_round_lem,
}
use vestigium.Engine.Simulation.{
  Agree, Agree-ok, IsSimulation, set_registers-Agree, get_registers-Agree, advance_rip-Agree,
}

abbrev then_leave : {p : Platform} → Exec (World p) (Unit {0}) → Exec (World p) (Flow (Unit {0}))
then_leave m = m >>= λ _. pure leave

module _ {p : Platform} (R : World p → World p → Type 0) (part : VmPartition) (v v' : Vcpu)
    (engine : ReplayEngine) (has : get engine.active_vcpu_id engine.vcpus ≡ some v')
    (sim : IsSimulation R part engine.partition v v') where
  -- The round that logged `event` at `exit` from `s`, and the replayer's round for it.
  record Followed (exit : ExitContext) (s : RecordState p) (event : EventType) (count n : ℕ)
      (s' : RecordState p) : Type 0 where
    logged : s'.engine ≡ with_event s (at count event)
    counted : n ≡ (count + 1) % u64_mod
    replayed :
        (w' : World p)
        → R s.world w'
        → (u' : World p) × (replay_exit engine (at count event) exit w' ≡ (ok leave, u'))
          × R s'.world u'

  advanced :
      (len : ℕ) (mid mid' u : World p)
      → R mid mid'
      → Record.advance_rip v len mid ≡ (ok tt, u)
      → (u' : World p) × (then_leave (Record.advance_rip v' len) mid' ≡ (ok leave, u')) × R u u'
  advanced len mid mid' u r e =
      let (u', e', r') = Agree-ok (advance_rip-Agree sim len) r e in
      (u', bind-step (Record.advance_rip v' len) _ mid' e', r')

  -- The arms that inject what was recorded.
  injected :
      (exit : ExitContext) (event : EventType) (count len n : ℕ) (s s' : RecordState p)
      (write write' : Exec (World p) (Unit {0}))
      → Agree R write write'
      → replay_exit engine (at count event) exit ≡ then_advance engine v' has write' len
      → (a : Unit {0}) × (mid : World p) × (write s.world ≡ (ok a, mid))
        × Logged s (at count event) n v len mid s'
      → Followed exit s event count n s'
  injected exit event count len n s s' write write' same replays (a, mid, e, l) = record {
    logged = l.engine;
    counted = l.counted;
    replayed = λ w' r.
        let (mid', e', r') = Agree-ok same r e in
        let (u', f', q) = advanced len mid mid' s'.world r' l.advanced in
        (
          u',
          ap (λ (m : Exec (World p) (Flow (Unit {0}))). m w') replays
              ∙ bind-step write' _ w' e'
              ∙ f',
          q,
        );
  }

  switched :
      (exit : ExitContext) (count n : ℕ) (s s' : RecordState p)
      → exit.exit_reason ≡ 4
      → (values : List RegisterValue) × (mid : World p) × (read_rcx v s.world ≡ (ok values, mid))
        × Logged s (at count (switch_event values)) n v 3 mid s'
      → (event : EventType) × Followed exit s event count n s'
  switched exit count n s s' four (values, mid, e, l) = (
    switch_event values,
    record {
      logged = l.engine;
      counted = l.counted;
      replayed = λ w' r.
          let (mid', e', r') = Agree-ok (get_registers-Agree sim _ _) r e in
          let (u', f', q) = advanced 3 mid mid' s'.world r' l.advanced in
          (u', replay_switch engine v' has count exit values w' mid' four e' ∙ f', q);
    },
  )

  -- Every exit after which the recorder goes on is followed.
  followed :
      (exit : ExitContext) (count n : ℕ) (s s' : RecordState p)
      → record_exit v exit count s ≡ (ok (again n), s')
      → (event : EventType) × Followed exit s event count n s'
  followed exit count n s s' h = elim (record_exit-again v exit count s h) [
    | inl (reason, k) ↦ (
      cpuid_event,
      injected exit cpuid_event count _ n s s' (write_cpuid v) (write_cpuid v')
          (set_registers-Agree sim _ _) (replay_cpuid engine v' has count exit reason)
          (cpuid-ok v exit count s k),
    )
    | inr (inl (reason, k)) ↦ (
      rdtsc_event,
      injected exit rdtsc_event count _ n s s' (write_rdtsc v) (write_rdtsc v')
          (set_registers-Agree sim _ _) (replay_rdtsc engine v' has count exit reason)
          (rdtsc-ok v exit count s k),
    )
    | inr (inr (reason, k)) ↦ switched exit count n s s' reason (vmcall-ok v exit count s k)
  ]

  -- A recorder that drives `v`, and the rounds of its loop.
  pub record Drives (s : RecordState p) : Type 0 where
    pub vcpu : s.engine.vcpu ≡ v
    pub runner : s.engine.runner ≡ Runner.new part v

  pub record Round (s : RecordState p) (count n : ℕ) (event : EventType) (s' : RecordState p)
      : Type 0 where
    pub logged : s'.engine ≡ with_event s (at count event)
    pub counted : n ≡ (count + 1) % u64_mod
    pub replayed :
        (fuel : ℕ) (w' : World p)
        → R s.world w'
        → (u' : World p) × (replay_event (suc fuel) engine (at count event) w' ≡ (ok tt, u'))
          × R s'.world u'

  -- The exit that a round of the recorder meets.
  exits :
      (s : RecordState p) (count : ℕ) (flow : Flow ℕ) (s' : RecordState p)
      → Drives s
      → record_round count s ≡ (ok flow, s')
      → (exit : ExitContext) × (s1 : RecordState p) × (Runner.run (Runner.new part v) s.world
          ≡ (ok exit, s1.world))
        × (s1.engine ≡ s.engine)
        × (record_exit v exit count s1 ≡ (ok flow, s'))
  unfolding record_round
  exits s count flow s' d h =
      let (exit, s1, e1, h1) =
        bind-ok (on_world (Runner.run s.engine.runner))
          (λ exit. record_exit s.engine.vcpu exit count) s h in
      let (e2, e3) = on_world-ok (Runner.run s.engine.runner) s e1 in
      (
        exit,
        s1,
        subst (λ r. Runner.run r s.world ≡ (ok exit, s1.world)) d.runner e2,
        e3,
        subst (λ x. record_exit x exit count s1 ≡ (ok flow, s')) d.vcpu h1,
      )

  pub again_replays :
      (s : RecordState p) (count n : ℕ) (s' : RecordState p)
      → Drives s
      → record_round count s ≡ (ok (again n), s')
      → (event : EventType) × Round s count n event s'
  unfolding replay_event
  again_replays s count n s' d h =
      let (exit, s1, run, engine_same, k) = exits s count (again n) s' d h in
      let (event, f) = followed exit count n s1 s' k in
      (
        event,
        record {
          logged =
              f.logged
              ∙ ap
                  (λ (e : RecordEngine). record e {
                    logger = Record.log_event e.logger (at count event);
                  })
                  engine_same;
          counted = f.counted;
          replayed = λ fuel w' r.
              let (mid', run', r') = Agree-ok sim.runs r run in
              let (u', e', q) = f.replayed mid' r' in
              (
                u',
                bind-step (replay_round engine (at count event)) _ w' (
                    ap (λ (m : Exec (World p) (Flow (Unit {0}))). m w')
                      (replay_round_lem engine v' has (at count event))
                    ∙ bind-step (Runner.run (Runner.new engine.partition v')) _ w' run'
                    ∙ e'),
                q,
              );
        },
      )

  -- The last round of the recorder, and the run that the replayer ends with.
  pub record Last (s : RecordState p) (s' : RecordState p) : Type 0 where
    pub engine_same : s'.engine ≡ s.engine
    pub replayed :
        (w' : World p)
        → R s.world w'
        → (exit : ExitContext) × (u' : World p) × (Runner.run (Runner.new engine.partition v') w'
            ≡ (ok exit, u'))
          × R s'.world u'
          × ¬ IsIntercepted exit.exit_reason

  pub leave_replays :
      (s : RecordState p) (count : ℕ) (s' : RecordState p)
      → Drives s
      → record_round count s ≡ (ok leave, s')
      → Last s s'
  leave_replays s count s' d h =
      let (exit, s1, run, engine_same, k) = exits s count leave s' d h in
      let (m, e, line) = record_exit-leave v exit count s1 k in
      record {
        engine_same = ap (λ (x : RecordState p). x.engine) e ∙ engine_same;
        replayed = λ w' r.
            let (u', run', r') = Agree-ok sim.runs r run in
            (
              exit,
              u',
              run',
              subst (λ (x : RecordState p). R x.world u') (sym e)
                  (sim.prints (m ∷ []) s1.world u' r'),
              IsLine-unhandled v exit s1.world m line,
            );
      }
