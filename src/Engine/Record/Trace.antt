-- ===== src/Engine/Record/Trace.antt =====
-- The trace that the recorder leaves, however its run ends.
use vestigium.Common.{
  ℕ, ◌+◌, ◌%◌, ◌^◌, ◌<◌, ◌≡◌, refl, ap, sym, ◌∙◌, ◌⊎◌, inl, inr, List, [], ◌∷◌, ◌++◌, arith, ◌==◌,
  Bool-cases,
}
use vestigium.Common.Exec.{Outcome, ok, Exec, continue, pure, Flow, leave, again, ◌>>◌}
use vestigium.Platform.{
  Platform, World, ExitContext, u64_mod, add_u64, println, unhandled_record, ept_violation,
}
use vestigium.Trace.{TraceEvent, EventType, syscall, rdtsc, cpuid, context_switch}
use vestigium.Vmm.Vcpu.{Vcpu}
use vestigium.Engine.Record.{
  RecordState, RecordEngine, on_world, log, advance_rip, record_halt, record_cpuid, record_rdtsc,
  record_vmcall, record_exit, length_of,
}
use vestigium.Engine.Record.Steps.{
  at, logged, with_event, cpuid_event, rdtsc_event, switch_event, write_cpuid, write_rdtsc,
  read_rcx,
}

-- The events that a recorder makes.
abbrev pub IsRecorded : EventType → Type 0
IsRecorded (syscall a writes) = ⊥
IsRecorded (rdtsc a d) = (a ≡ 0x1000) × (d ≡ 0)
IsRecorded (cpuid a b c d) =
    (a ≡ 0xAAAA_AAAA) × (b ≡ 0xBBBB_BBBB) × (c ≡ 0xCCCC_CCCC) × (d ≡ 0xDDDD_DDDD)
IsRecorded (context_switch thread) = thread < 2 ^ 32

-- The events are numbered one after the other from `c` on, up to `d`.
abbrev pub Counts : ℕ → List TraceEvent → ℕ → Type 0
Counts c [] d = c ≡ d
Counts c (e ∷ es) d =
    (e.instruction_count ≡ c) × IsRecorded e.event × Counts ((c + 1) % u64_mod) es d

pub Counts-snoc :
    (c d : ℕ) (es : List TraceEvent) (event : EventType)
    → Counts c es d
    → IsRecorded event
    → Counts c (es ++ at d event ∷ []) ((d + 1) % u64_mod)
Counts-snoc c d [] event h r = (sym h, r, ap (λ x. (x + 1) % u64_mod) h)
Counts-snoc c d (e ∷ es) event (a, b, k) r = (a, b, Counts-snoc ((c + 1) % u64_mod) d es event k r)

module _ {p : Platform} where
  -- calls on the world leave the engine alone, however they end
  continue-engine :
      {A B : Type 0} (r : Outcome A) (f : A → Exec (RecordState p) B) (s : RecordState p)
      (e : RecordEngine)
      → s.engine ≡ e
      → ((a : A) → (f a s).1.engine ≡ e)
      → (continue r f s).1.engine ≡ e
  continue-engine (ok a) f s e h k = k a
  continue-engine _ f s e h k = h

  abbrev finish : Vcpu → ℕ → ℕ → Exec (RecordState p) (Flow ℕ)
  finish vcpu len next = do on_world (advance_rip vcpu len); pure (again next)

  engine-logged :
      (vcpu : Vcpu) (event : TraceEvent) (count len : ℕ) (s : RecordState p)
      → (logged vcpu event count len s).1.engine ≡ with_event s event
  engine-logged vcpu event count len s =
      let s1 = (log event s).1 in
      let s2 = (on_world (add_u64 count 1) s1).1 in
      continue-engine (on_world (add_u64 count 1) s1).0 (finish vcpu len) s2 (with_event s event)
        refl
        λ n.
          continue-engine (on_world (advance_rip vcpu len) s2).0 (λ _. pure (again n))
            (on_world (advance_rip vcpu len) s2).1 (with_event s event) refl (λ _. refl)

  -- After an arm the log is as before, or has one more event of the recorder's kind.
  abbrev pub Extends : RecordState p → ℕ → RecordState p → Type 0
  Extends s count s' =
      (s'.engine ≡ s.engine)
      ⊎ ((event : EventType) × IsRecorded event × (s'.engine ≡ with_event s (at count event)))

  after-Extends :
      {A : Type 0} (r : Outcome A) (event : A → EventType) (vcpu : Vcpu) (count len : ℕ)
      (s u : RecordState p)
      → u.engine ≡ s.engine
      → ((a : A) → IsRecorded (event a))
      → Extends s count (continue r (λ a. logged vcpu (at count (event a)) count len) u).1
  after-Extends (ok a) event vcpu count len s u e rec = inr (
    event a,
    rec a,
    engine-logged vcpu (at count (event a)) count len u
        ∙ ap
            (λ (x : RecordEngine). record x {
              logger = record { events = x.logger.events ++ at count (event a) ∷ [] };
            })
            e,
  )
  after-Extends _ event vcpu count len s u e rec = inl e

  module _ (vcpu : Vcpu) (exit : ExitContext) (count : ℕ) (s : RecordState p) where
    cpuid-Extends : Extends s count (record_cpuid vcpu exit count s).1
    unfolding record_cpuid
    cpuid-Extends =
        after-Extends (on_world (write_cpuid vcpu) s).0 (λ _. cpuid_event) vcpu count
          (length_of exit) s (on_world (write_cpuid vcpu) s).1 refl (λ _. (refl, refl, refl, refl))

    rdtsc-Extends : Extends s count (record_rdtsc vcpu exit count s).1
    unfolding record_rdtsc
    rdtsc-Extends =
        after-Extends (on_world (write_rdtsc vcpu) s).0 (λ _. rdtsc_event) vcpu count
          (length_of exit) s (on_world (write_rdtsc vcpu) s).1 refl (λ _. (refl, refl))

    vmcall-Extends : Extends s count (record_vmcall vcpu count s).1
    unfolding record_vmcall
    vmcall-Extends =
        after-Extends (on_world (read_rcx vcpu) s).0 switch_event vcpu count 3 s
          (on_world (read_rcx vcpu) s).1 refl (λ values. omega arith)

    leaves-Extends :
        (m : Exec (World p) (Unit {0}))
        → Extends s count ((on_world m >> pure {A = Flow ℕ} leave) s).1
    leaves-Extends m = inl (
        continue-engine (on_world m s).0 (λ _. pure {A = Flow ℕ} leave) (on_world m s).1 s.engine
          refl (λ _. refl))

    pub exit-Extends : Extends s count (record_exit vcpu exit count s).1
    unfolding record_exit
    exit-Extends = elim (Bool-cases (exit.exit_reason == 1)) [
      | inl a ↦ rw a (leaves-Extends (println (ept_violation exit.gpa)))
      | inr a ↦ elim (Bool-cases (exit.exit_reason == 8)) [
        | inl b ↦ rw (a, b) (leaves-Extends (record_halt vcpu))
        | inr b ↦ elim (Bool-cases (exit.exit_reason == 4097)) [
          | inl c ↦ rw (a, b, c) cpuid-Extends
          | inr c ↦ elim (Bool-cases (exit.exit_reason == 4099)) [
            | inl d ↦ rw (a, b, c, d) rdtsc-Extends
            | inr d ↦ elim (Bool-cases (exit.exit_reason == 4)) [
              | inl e ↦ rw (a, b, c, d, e) vmcall-Extends
              | inr e ↦
                  rw (a, b, c, d, e) (leaves-Extends (println (unhandled_record exit.exit_reason)))
            ]
          ]
        ]
      ]
    ]
