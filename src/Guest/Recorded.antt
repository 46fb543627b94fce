-- ===== src/Guest/Recorded.antt =====
-- `RecordEngine::run` refines the abstract recorder.
use vestigium.Common.{
  ℕ, zero, suc, ◌+◌, ◌%◌, ◌^◌, ◌<◌, ◌≡◌, refl, sym, ◌∙◌, Option, none, some, [], ◌∷◌, ◌++◌, arith,
}
use mathlib.Core.Path.{subst}
use mathlib.Core.List.{append-nil, append_assoc}
use vestigium.Common.Exec.{ok, leave, again}
use vestigium.Platform.{Platform, World, say, halted_record, add_u64}
use vestigium.Trace.{EventType, rdtsc, cpuid, context_switch}
use vestigium.Vmm.Partition.{VmPartition}
use vestigium.Vmm.Vcpu.{Vcpu}
use vestigium.Engine.Runner
use vestigium.Engine.Record
use vestigium.Engine.Record.{
  RecordState, RecordEngine, finalize, log_event, on_world, record_exit, record_halt, record_vmcall,
  record_rdtsc, record_cpuid, record_round, record_loop, sim_rax, sim_rdx, sim_eax, sim_ebx,
  sim_ecx, sim_edx, length_of,
}
use vestigium.Guest.{Program, Stop, at_hlt, at_vmcall, at_rdtsc, at_cpuid, nothing, ticks, ids}
use vestigium.Guest.Spec.{Recording, logged, record_stop, spec_recording}
use vestigium.Guest.Hosts.{Hosts}

add_one :
    {p : Platform} (count : ℕ) (w : World p)
    → count + 1 < 2 ^ 64
    → add_u64 count 1 w ≡ (ok (count + 1), w)
add_one count w h = ground arith

module _ {p : Platform} (part : VmPartition) (v : Vcpu) (prog : Program)
    (At : prog.Point → World p → Type 0) (hosts : Hosts part v prog At) where
  -- a recorder on the processor
  abbrev IsOn : RecordState p → Type 0
  IsOn s = (s.engine.vcpu ≡ v) × (s.engine.runner ≡ Runner.new part v)

  -- the state after an event and a step to a world
  abbrev stepped : RecordState p → ℕ → EventType → World p → RecordState p
  stepped s count event w = record {
    engine = record s.engine {
      logger = log_event s.engine.logger (record { instruction_count = count; event = event });
    };
    world = w;
  }

  -- what a round does at each stop
  halt_round :
      (point : prog.Point) (count value : ℕ) (s : RecordState p)
      → IsOn s
      → At point s.world
      → prog.stop point ≡ at_hlt value
      → (u : World p) × (record_round count s
          ≡ (ok leave, record s { world = say (halted_record value ∷ []) u }))
  unfolding record_round record_exit record_halt
  halt_round point count value s (on, runs) at stops =
      let (e, values, read, same) = hosts.halts point s.world value at stops in
      (e.after, rw (runs, e.run, e.for_reason, on, read, same))

  call_round :
      (point : prog.Point) (count value : ℕ) (s : RecordState p)
      → IsOn s
      → At point s.world
      → prog.stop point ≡ at_vmcall value
      → count + 1 < 2 ^ 64
      → (u : World p) × At (prog.resume point nothing) u
        × (record_round count s
            ≡ (ok (again (count + 1)), stepped s count (context_switch (value % 2 ^ 32)) u))
  unfolding record_round record_exit record_vmcall
  call_round point count value s (on, runs) at stops small =
      let (e, values, read, same, step) = hosts.calls point s.world value at stops in
      (
        step.next,
        step.there,
        rw (runs, e.run, e.for_reason, on, read, same, add_one count e.after small, step.steps),
      )

  ticks_round :
      (point : prog.Point) (count : ℕ) (s : RecordState p)
      → IsOn s
      → At point s.world
      → prog.stop point ≡ at_rdtsc
      → count + 1 < 2 ^ 64
      → (u : World p) × At (prog.resume point (ticks sim_rax sim_rdx)) u
        × (record_round count s
            ≡ (ok (again (count + 1)), stepped s count (rdtsc sim_rax sim_rdx) u))
  unfolding record_round record_exit record_rdtsc
  ticks_round point count s (on, runs) at stops small =
      let (e, answers) = hosts.reads_ticks point s.world sim_rax sim_rdx at stops in
      let step = answers.then in
      (
        step.next,
        step.there,
        rw (
          runs,
          e.run,
          e.for_reason,
          on,
          answers.writes,
          add_one count answers.written small,
          step.steps,
        ),
      )

  ids_round :
      (point : prog.Point) (count : ℕ) (s : RecordState p)
      → IsOn s
      → At point s.world
      → prog.stop point ≡ at_cpuid
      → count + 1 < 2 ^ 64
      → (u : World p) × At (prog.resume point (ids sim_eax sim_ebx sim_ecx sim_edx)) u
        × (record_round count s
            ≡ (ok (again (count + 1)), stepped s count (cpuid sim_eax sim_ebx sim_ecx sim_edx) u))
  unfolding record_round record_exit record_cpuid
  ids_round point count s (on, runs) at stops small =
      let (e, answers) = hosts.reads_ids point s.world sim_eax sim_ebx sim_ecx sim_edx at stops in
      let step = answers.then in
      (
        step.next,
        step.there,
        rw (
          runs,
          e.run,
          e.for_reason,
          on,
          answers.writes,
          add_one count answers.written small,
          step.steps,
        ),
      )

  -- The recorder has added these events, and has printed RAX at the halt.
  abbrev pub Records : ℕ → ℕ → RecordState p → Recording → Type 0
  Records fuel count s r =
      (s' : RecordState p) × (u : World p) × (record_loop fuel count s ≡ (ok tt, s'))
      × (finalize s'.engine ≡ finalize s.engine ++ r.events)
      × (s'.world ≡ say (halted_record r.final_rax ∷ []) u)

  -- one more event in front
  stepped-Records :
      (fuel count : ℕ) (s : RecordState p) (event : EventType) (u : World p) (r : Recording)
      → record_round count s ≡ (ok (again (count + 1)), stepped s count event u)
      → Records fuel (count + 1) (stepped s count event u) r
      → Records
          (suc fuel)
          count
          s
          (record r { events = record { instruction_count = count; event = event } ∷ r.events })
  unfolding record_loop
  stepped-Records fuel count s event u r round (s', t, run, es, w) = (
    s',
    t,
    rw round run,
    es
        ∙ append_assoc (finalize s.engine)
            (record { instruction_count = count; event = event } ∷ []) r.events,
    w,
  )

  logged-some :
      (count : ℕ) (event : EventType) (o : Option Recording) {r : Recording}
      → logged count event o ≡ some r
      → (r' : Recording) × (o ≡ some r')
        × (r ≡ record r' {
          events = record { instruction_count = count; event = event } ∷ r'.events;
        })
  logged-some count event none e = cc
  logged-some count event (some r') e = (r', refl, cc)

  -- one round of the abstract recorder, by the stop
  stop-Records :
      (fuel count : ℕ) (point : prog.Point) (s : RecordState p) {r : Recording}
      → IsOn s
      → At point s.world
      → count + 1 < 2 ^ 64
      → (rest : prog.Point → Option Recording)
      → ((next : prog.Point) (s1 : RecordState p) (r1 : Recording)
          → IsOn s1
          → At next s1.world
          → rest next ≡ some r1
          → Records fuel (count + 1) s1 r1)
      → (t : Stop) → prog.stop point ≡ t
      → record_stop prog point count rest t ≡ some r
      → Records (suc fuel) count s r
  unfolding record_loop
  stop-Records fuel count point s on at small rest ih (at_hlt value) e h =
      let (u, round) = halt_round point count value s on at e in
      subst (Records (suc fuel) count s) (cc h) (
        record s { world = say (halted_record value ∷ []) u },
        u,
        (rw round),
        sym (append-nil _),
        refl,
      )
  stop-Records fuel count point s on at small rest ih (at_vmcall value) e h =
      let (u, there, round) = call_round point count value s on at e small in
      let (r1, recorded, same) =
        logged-some count (context_switch (value % 2 ^ 32)) (rest (prog.resume point nothing)) h in
      subst (Records (suc fuel) count s) (sym same) (
        stepped-Records fuel count s (context_switch (value % 2 ^ 32)) u r1 round (
          ih (prog.resume point nothing) (stepped s count (context_switch (value % 2 ^ 32)) u) r1 on
            there recorded))
  stop-Records fuel count point s on at small rest ih at_rdtsc e h =
      let next = prog.resume point (ticks sim_rax sim_rdx) in
      let (u, there, round) = ticks_round point count s on at e small in
      let (r1, recorded, same) = logged-some count (rdtsc sim_rax sim_rdx) (rest next) h in
      subst (Records (suc fuel) count s) (sym same) (
        stepped-Records fuel count s (rdtsc sim_rax sim_rdx) u r1 round
          (ih next (stepped s count (rdtsc sim_rax sim_rdx) u) r1 on there recorded))
  stop-Records fuel count point s on at small rest ih at_cpuid e h =
      let next = prog.resume point (ids sim_eax sim_ebx sim_ecx sim_edx) in
      let event = cpuid sim_eax sim_ebx sim_ecx sim_edx in
      let (u, there, round) = ids_round point count s on at e small in
      let (r1, recorded, same) = logged-some count event (rest next) h in
      subst (Records (suc fuel) count s) (sym same) (
        stepped-Records fuel count s event u r1 round
          (ih next (stepped s count event u) r1 on there recorded))

  loop-Records :
      (fuel count : ℕ) (point : prog.Point) (s : RecordState p) {r : Recording}
      → IsOn s
      → At point s.world
      → count + fuel < 2 ^ 64
      → spec_recording fuel prog point count ≡ some r
      → Records fuel count s r
  unfolding spec_recording
  loop-Records zero count point s on at small h = cc h
  loop-Records (suc fuel) count point s on at small h =
      stop-Records fuel count point s on at (omega arith)
        (λ next. spec_recording fuel prog next (count + 1))
        (λ next s1 r1 on1 at1 h1. loop-Records fuel (count + 1) next s1 on1 at1 (omega arith) h1)
        (prog.stop point) refl h

  -- On a processor that runs a program which halts, in fewer than 2^64 stops, the recorder ends: the
  -- trace is that of the abstract recorder, with an event for each stop before the halt, and the last
  -- line printed is RAX at the halt.
  pub run-Recording :
      (fuel : ℕ) (w : World p) {r : Recording}
      → At prog.start w
      → fuel < 2 ^ 64
      → spec_recording fuel prog prog.start 0 ≡ some r
      → (s' : RecordState p) × (u : World p) × (Record.run fuel
            (record { engine = Record.new part v; world = w })
          ≡ (ok tt, s'))
        × (finalize s'.engine ≡ r.events)
        × (s'.world ≡ say (halted_record r.final_rax ∷ []) u)
  unfolding Record.run
  run-Recording fuel w at small h =
      loop-Records fuel 0 prog.start (record { engine = Record.new part v; world = w }) (refl, refl)
        at (omega arith) h
