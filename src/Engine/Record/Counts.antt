-- ===== src/Engine/Record/Counts.antt =====
-- The numbering of the trace, through the loop of the recorder.
use vestigium.Common.{
  ℕ, zero, suc, ◌+◌, ◌%◌, ◌<◌, ◌≡◌, refl, ap, sym, ◌∙◌, inl, inr, some, List, [], ◌∷◌, ◌++◌, arith,
  get_elem?,
}
use mathlib.Core.Path.{subst}
use vestigium.Common.Exec.{Outcome, ok, Exec, continue, pure, Flow, leave, again}
use vestigium.Common.Steps.{bind-ok}
use vestigium.Platform.{Platform, World, ExitContext, u64_mod}
use vestigium.Trace.{TraceEvent, EventType}
use vestigium.Vmm.Partition.{VmPartition}
use vestigium.Vmm.Vcpu.{Vcpu}
use vestigium.Engine.Runner
use vestigium.Engine.Record
use vestigium.Engine.Record.{
  RecordState, RecordEngine, finalize, log_event, on_world, record_exit, record_round, record_loop,
}
use vestigium.Engine.Record.Steps.{at, with_event, on_world-ok, cpuid-ok, rdtsc-ok, vmcall-ok}
use vestigium.Engine.Record.Exits.{record_exit-again}
use vestigium.Engine.Record.Trace.{IsRecorded, Counts, Counts-snoc, Extends, exit-Extends}

module _ {p : Platform} where
  -- the run before the match leaves the engine as it is
  run-Extends :
      (vcpu : Vcpu) (count : ℕ) (s u : RecordState p) (r : Outcome ExitContext)
      → u.engine ≡ s.engine
      → Extends s count (continue r (λ exit. record_exit vcpu exit count) u).1
  run-Extends vcpu count s u (ok exit) e =
      subst (λ x. Extends (record s { engine = x }) count (record_exit vcpu exit count u).1) e
        (exit-Extends vcpu exit count u)
  run-Extends vcpu count s u _ e = inl e

  round-Extends : (count : ℕ) (s : RecordState p) → Extends s count (record_round count s).1
  unfolding record_round
  round-Extends count s =
      run-Extends s.engine.vcpu count s (on_world (Runner.run s.engine.runner) s).1
        (on_world (Runner.run s.engine.runner) s).0 refl

  -- A round that goes on has logged an event and raised the count.
  abbrev Advances : RecordState p → ℕ → ℕ → RecordState p → Type 0
  Advances s count n s' =
      (event : EventType) × IsRecorded event
      × (s'.engine ≡ with_event s (at count event))
      × (n ≡ (count + 1) % u64_mod)

  exit-Advances :
      (vcpu : Vcpu) (exit : ExitContext) (count n : ℕ) (s s' : RecordState p)
      → record_exit vcpu exit count s ≡ (ok (again n), s')
      → Advances s count n s'
  exit-Advances vcpu exit count n s s' h = elim (record_exit-again vcpu exit count s h) [
    | inl (_, k) ↦
        let (_, _, _, l) = cpuid-ok vcpu exit count s k in
        (_, (refl, refl, refl, refl), l.engine, l.counted)
    | inr (inl (_, k)) ↦
        let (_, _, _, l) = rdtsc-ok vcpu exit count s k in (_, (refl, refl), l.engine, l.counted)
    | inr (inr (_, k)) ↦
        let (_, _, _, l) = vmcall-ok vcpu exit count s k in (_, omega arith, l.engine, l.counted)
  ]

  round-Advances :
      (count n : ℕ) (s s' : RecordState p)
      → record_round count s ≡ (ok (again n), s')
      → Advances s count n s'
  unfolding record_round
  round-Advances count n s s' h =
      let (exit, u, e, k) =
        bind-ok (on_world (Runner.run s.engine.runner))
          (λ exit. record_exit s.engine.vcpu exit count) s h in
      let (event, rec, eq, num) = exit-Advances s.engine.vcpu exit count n u s' k in
      (
        event,
        rec,
        eq
            ∙ ap (λ (x : RecordEngine). record x { logger = log_event x.logger (at count event) })
                (on_world-ok (Runner.run s.engine.runner) s e).1,
        num,
      )

  abbrev Counted : RecordState p → Type 0
  Counted s = (d : ℕ) × Counts 0 (finalize s.engine) d

  Extends-Counted :
      (count : ℕ) (s s' : RecordState p)
      → Counts 0 (finalize s.engine) count
      → Extends s count s'
      → Counted s'
  Extends-Counted count s s' c (inl e) = (count, subst (λ x. Counts 0 (finalize x) count) (sym e) c)
  Extends-Counted count s s' c (inr (event, rec, e)) = (
    (count + 1) % u64_mod,
    subst (λ x. Counts 0 (finalize x) ((count + 1) % u64_mod)) (sym e)
        (Counts-snoc 0 count (finalize s.engine) event c rec),
  )

  Advances-Counts :
      (count n : ℕ) (s s' : RecordState p)
      → Counts 0 (finalize s.engine) count
      → Advances s count n s'
      → Counts 0 (finalize s'.engine) n
  Advances-Counts count n s s' c (event, rec, e, num) =
      subst (λ x. Counts 0 (finalize x) n) (sym e)
        (subst (λ k. Counts 0 (finalize s.engine ++ at count event ∷ []) k) (sym num)
          (Counts-snoc 0 count (finalize s.engine) event c rec))

  abbrev next_round : ℕ → Flow ℕ → Exec (RecordState p) (Unit {0})
  next_round fuel flow = elim flow [ leave ↦ pure tt | again n ↦ record_loop fuel n ]

  flow-Counted :
      (fuel count : ℕ) (s u : RecordState p) (r : Outcome (Flow ℕ))
      → Counts 0 (finalize s.engine) count
      → record_round count s ≡ (r, u)
      → Extends s count u
      → ((n : ℕ) → Counts 0 (finalize u.engine) n → Counted (record_loop fuel n u).1)
      → Counted (continue r (next_round fuel) u).1
  flow-Counted fuel count s u (ok (again n)) c e x ih =
      ih n (Advances-Counts count n s u c (round-Advances count n s u e))
  flow-Counted fuel count s u _ c e x ih = Extends-Counted count s u c x

  loop-Counted :
      (fuel count : ℕ) (s : RecordState p)
      → Counts 0 (finalize s.engine) count
      → Counted (record_loop fuel count s).1
  unfolding record_loop
  loop-Counted zero count s c = (count, c)
  loop-Counted (suc fuel) count s c =
      let u = (record_round count s).1 in
      flow-Counted fuel count s u (record_round count s).0 c refl (round-Extends count s)
        (λ n k. loop-Counted fuel n u k)

-- The event at an index of a numbered trace.
Counts-get_elem? :
    (c d i : ℕ) (es : List TraceEvent) {e : TraceEvent}
    → c < u64_mod
    → Counts c es d
    → get_elem? es i ≡ some e
    → (e.instruction_count ≡ (c + i) % u64_mod) × IsRecorded e.event
Counts-get_elem? c d i [] lt h e = cc
Counts-get_elem? c d zero (x ∷ es) {e = y} lt (n, rec, h) e =
    let same : x ≡ y = cc in
    subst (λ z. (z.instruction_count ≡ (c + 0) % u64_mod) × IsRecorded z.event) same
      (omega arith, rec)
Counts-get_elem? c d (suc i) (x ∷ es) lt (n, rec, h) e =
    let (a, b) = Counts-get_elem? ((c + 1) % u64_mod) d i es (omega arith) h e in
    (a ∙ omega arith, b)

-- However a new recorder's run ends, also by an error or without fuel, the event at index `i` of its
-- trace carries `i` (modulo 2^64) as its instruction count, and it is an RDTSC or CPUID event with
-- the constants of the recorder, or a context switch to a 32-bit thread number. A trace never holds
-- a system call.
pub run-counts :
    {p : Platform} (part : VmPartition) (v : Vcpu) (fuel : ℕ) (w : World p) (i : ℕ) {e : TraceEvent}
    → get_elem?
        (finalize (Record.run fuel (record { engine = Record.new part v; world = w })).1.engine)
        i
      ≡ some e
    → (e.instruction_count ≡ i % u64_mod) × IsRecorded e.event
unfolding Record.run
run-counts part v fuel w i {e = e} h =
    let s : RecordState _ = record { engine = Record.new part v; world = w } in
    let (d, c) = loop-Counted fuel 0 s refl in
    let (a, b) =
      Counts-get_elem? 0 d i (finalize (record_loop fuel 0 s).1.engine) (omega arith) c h in
    (a ∙ omega arith, b)
