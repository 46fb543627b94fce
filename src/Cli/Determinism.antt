-- ===== src/Cli/Determinism.antt =====
-- The whole pipeline: what `RecordEngine::run` recorded, the loop of the replay command and the
-- run after it bring the replayed processor to the recorded end.
use vestigium.Common.{ℕ, zero, suc, ◌≡◌, refl, sym, ◌∙◌, ap, some, List, [], ◌∷◌, ◌++◌}
use mathlib.Core.List.{append-nil, append_assoc}
use mathlib.Core.Path.{subst}
use vestigium.Common.Exec.{ok, Exec, pure, Flow, leave, again, expect}
use vestigium.Common.Steps.{bind-ok, bind-step, expect-step}
use vestigium.Common.HashMap.{get}
use vestigium.Platform.{Platform, World, ExitContext}
use vestigium.Trace.{TraceEvent, EventType}
use vestigium.Vmm.Partition.{VmPartition}
use vestigium.Vmm.Vcpu.{Vcpu}
use vestigium.Engine.Runner
use vestigium.Engine.Record
use vestigium.Engine.Record.{RecordState, RecordEngine, finalize, record_round, record_loop}
use vestigium.Engine.Record.Steps.{at, with_event}
use vestigium.Engine.Record.Exits.{IsIntercepted}
use vestigium.Engine.Replay.{ReplayEngine, replay_event}
use vestigium.Engine.Simulation.{IsSimulation}
use vestigium.Engine.Determinism.{Drives, Round, Last, again_replays, leave_replays}
use vestigium.Cli.Events.{replay_events}

-- What the loop of the recorder does with the flow of a round.
abbrev next_round : {p : Platform} → ℕ → Flow ℕ → Exec (RecordState p) (Unit {0})
next_round fuel flow = elim flow [ leave ↦ pure tt | again n ↦ record_loop fuel n ]

module _ {p : Platform} (R : World p → World p → Type 0) (part : VmPartition) (v v' : Vcpu)
    (engine : ReplayEngine) (has : get engine.active_vcpu_id engine.vcpus ≡ some v')
    (sim : IsSimulation R part engine.partition v v') where
  -- From `w'` the events are replayed, the run after them ends at an exit that is not intercepted,
  -- and the end is related to `u`.
  abbrev pub Reaches : ℕ → List TraceEvent → World p → World p → Type 0
  Reaches fuel events w' u =
      (mid' : World p) × (exit : ExitContext) × (u' : World p) × (replay_events (suc fuel) engine
          events w'
        ≡ (ok tt, mid'))
      × (Runner.run (Runner.new engine.partition v') mid' ≡ (ok exit, u'))
      × R u u'
      × ¬ IsIntercepted exit.exit_reason

  abbrev pub Drives' : RecordState p → Type 0
  Drives' = Drives R part v v' engine has sim

  keeps :
      (s s' : RecordState p) (event : TraceEvent)
      → Drives' s
      → s'.engine ≡ with_event s event
      → Drives' s'
  keeps s s' event d e = record {
    vcpu = ap (λ (x : RecordEngine). x.vcpu) e ∙ d.vcpu;
    runner = ap (λ (x : RecordEngine). x.runner) e ∙ d.runner;
  }

  replay_events-step :
      (fuel : ℕ) (event : TraceEvent) (events : List TraceEvent) (w u : World p)
      → replay_event fuel engine event w ≡ (ok tt, u)
      → replay_events fuel engine (event ∷ events) w ≡ replay_events fuel engine events u
  unfolding replay_events
  replay_events-step fuel event events w u e =
      bind-step (expect (replay_event fuel engine event)) _ w
        (expect-step (replay_event fuel engine event) w e)

  -- The events that a recorder in state `s` has added by `s'`, and their replay.
  abbrev pub Replayed : ℕ → RecordState p → RecordState p → Type 0
  Replayed k s s' =
      (events : List TraceEvent) × (finalize s'.engine ≡ finalize s.engine ++ events)
      × ((w' : World p) → R s.world w' → Reaches k events w' s'.world)

  Last-Replayed :
      (k : ℕ) (s s' : RecordState p) → Last R part v v' engine has sim s s' → Replayed k s s'
  unfolding replay_events
  Last-Replayed k s s' l = (
    [],
    ap finalize l.engine_same ∙ sym (append-nil _),
    λ w' r.
        let (exit, u', run, r', stops) = l.replayed w' r in (w', exit, u', refl, run, r', stops),
  )

  Round-Replayed :
      (k count n : ℕ) (event : EventType) (s s1 s' : RecordState p)
      → Round R part v v' engine has sim s count n event s1
      → Replayed k s1 s'
      → Replayed k s s'
  Round-Replayed k count n event s s1 s' round (events, e, replays) = (
    at count event ∷ events,
    e
        ∙ ap (λ (x : RecordEngine). finalize x ++ events) round.logged
        ∙ append_assoc s.engine.logger.events (at count event ∷ []) events,
    λ w' r.
        let (u, run, r') = round.replayed k w' r in
        let (mid', exit, u', es, last, q, stops) = replays u r' in
        (
          mid',
          exit,
          u',
          replay_events-step (suc k) (at count event) events w' u run ∙ es,
          last,
          q,
          stops,
        ),
  )

  flow-Replayed :
      (k fuel count : ℕ) (s s1 s' : RecordState p) (flow : Flow ℕ)
      → Drives' s
      → ((n : ℕ) → Drives' s1 → record_loop fuel n s1 ≡ (ok tt, s') → Replayed k s1 s')
      → record_round count s ≡ (ok flow, s1)
      → next_round fuel flow s1 ≡ (ok tt, s')
      → Replayed k s s'
  flow-Replayed k fuel count s s1 s' leave d ih h e =
      Last-Replayed k s s'
        (leave_replays R part v v' engine has sim s count s' d (h ∙ λ i. (ok leave, (e i).1)))
  flow-Replayed k fuel count s s1 s' (again n) d ih h e =
      let (event, round) = again_replays R part v v' engine has sim s count n s1 d h in
      Round-Replayed k count n event s s1 s' round
        (ih n (keeps s s1 (at count event) d round.logged) e)

  loop_replays :
      (k fuel count : ℕ) (s s' : RecordState p)
      → Drives' s
      → record_loop fuel count s ≡ (ok tt, s')
      → Replayed k s s'
  unfolding record_loop
  loop_replays k zero count s s' d h = cc (ap (λ x. x.0) h)
  loop_replays k (suc fuel) count s s' d h =
      let (flow, s1, e, rest) = bind-ok (record_round count) (next_round fuel) s h in
      flow-Replayed k fuel count s s1 s' flow d (λ n. loop_replays k fuel n s1 s') e rest

  -- A recording that ends is replayed to its end: if the recorded processor and the active one of the
  -- replay engine answer alike and the run of
  -- a new recorder on `part` and `v` ends, with the trace that `finalize` returns, then from every
  -- related state the replay command's loop over that trace succeeds, with one round for each
  -- event; the run that follows it stops at an exit that is not intercepted; and the guest is
  -- then in a state related to the recorded end.
  pub record_replay :
      (k fuel : ℕ) (w w' : World p) (s' : RecordState p)
      → Record.run fuel (record { engine = Record.new part v; world = w }) ≡ (ok tt, s')
      → R w w'
      → Reaches k (finalize s'.engine) w' s'.world
  unfolding Record.run
  record_replay k fuel w w' s' h r =
      let s : RecordState p = record { engine = Record.new part v; world = w } in
      let (events, e, replays) =
        loop_replays k fuel 0 s s' (record { vcpu = refl; runner = refl }) h in
      subst (λ es. Reaches k es w' s'.world) (sym e) (replays w' r)
