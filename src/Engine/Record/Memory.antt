-- ===== src/Engine/Record/Memory.antt =====
-- What the recorder does to the host's memory: only the runs of the guest change it.
use vestigium.Common.{
  ℕ, zero, suc, ◌≡◌, refl, sym, ◌∙◌, Bool, true, false, Bool-cases, inl, inr, List, length, ◌==◌,
  arith,
}
use mathlib.Core.Path.{subst}
use vestigium.Common.Exec.{
  Outcome, ok, err, panic, fault, stuck, Exec, continue, pure, assert, Flow, leave, again, ◌>>=◌,
  ◌>>◌,
}
use vestigium.Platform.{
  Platform, World, Heap, ExitContext, RegisterName, RegisterValue, query, add_u64, println,
  ept_violation, unhandled_record,
}
use vestigium.Vmm.Partition.{as_raw}
use vestigium.Vmm.Vcpu.{Vcpu, get_registers, set_registers}
use vestigium.Engine.Runner
use vestigium.Engine.Record
use vestigium.Engine.Record.{
  RecordState, on_world, log, advance_rip, record_halt, record_cpuid, record_rdtsc, record_vmcall,
  record_exit, record_round, record_loop, length_of,
}
use vestigium.Trace.{TraceEvent, EventType}
use vestigium.Engine.Record.Steps.{
  at, logged, cpuid_event, rdtsc_event, switch_event, write_cpuid, write_rdtsc, read_rcx,
}

-- The runs of the guest keep a property of the host's memory.
abbrev pub RunsKeep : Platform → (Heap → Type 0) → Type 0
RunsKeep p P = (h i : ℕ) (m : p.Machine) (heap : Heap) → P heap → P (p.run_processor h i m heap).2

module _ {S : Type 0} (heap_of : S → Heap) where
  -- The memory is as before the call, however it ends.
  abbrev pub SameHeap : {A : Type 0} → Exec S A → Type 0
  SameHeap m = (s : S) → heap_of (m s).1 ≡ heap_of s

  continue-SameHeap :
      {A B : Type 0} (r : Outcome A) (f : A → Exec S B) (s : S)
      → ((a : A) → SameHeap (f a))
      → heap_of (continue r f s).1 ≡ heap_of s
  continue-SameHeap (ok a) f s k = k a s
  continue-SameHeap (err e) f s k = refl
  continue-SameHeap panic f s k = refl
  continue-SameHeap fault f s k = refl
  continue-SameHeap stuck f s k = refl

  pub bind-SameHeap :
      {A B : Type 0} (m : Exec S A) (f : A → Exec S B)
      → SameHeap m
      → ((a : A) → SameHeap (f a))
      → SameHeap (m >>= f)
  bind-SameHeap m f l k s = continue-SameHeap (m s).0 f (m s).1 k ∙ l s

module _ {p : Platform} where
  -- The memory of a world, and of the recorder's state.
  abbrev memory : World p → Heap
  memory w = w.heap

  abbrev guest_memory : RecordState p → Heap
  guest_memory s = s.world.heap

  assert-SameHeap : (b : Bool) → SameHeap memory (assert {S = World p} b)
  assert-SameHeap true w = refl
  assert-SameHeap false w = refl

  get_registers-SameHeap :
      (vcpu : Vcpu) (names : List RegisterName) (values : List RegisterValue)
      → SameHeap memory (get_registers {p = p} vcpu names values)
  unfolding get_registers
  get_registers-SameHeap vcpu names values =
      bind-SameHeap memory (assert (length names == length values)) _
        (assert-SameHeap (length names == length values))
        (λ _.
          bind-SameHeap memory (query (p.read_registers vcpu.partition vcpu.index names)) _
            (λ w. refl) (λ answers w. refl))

  set_registers-SameHeap :
      (vcpu : Vcpu) (names : List RegisterName) (values : List RegisterValue)
      → SameHeap memory (set_registers {p = p} vcpu names values)
  unfolding set_registers
  set_registers-SameHeap vcpu names values =
      bind-SameHeap memory (assert (length names == length values)) _
        (assert-SameHeap (length names == length values)) (λ _ w. refl)

  add_u64-SameHeap : (a b : ℕ) → SameHeap memory (add_u64 {p = p} a b)
  add_u64-SameHeap a b w = ground arith

  advance_rip-SameHeap : (vcpu : Vcpu) (len : ℕ) → SameHeap memory (advance_rip {p = p} vcpu len)
  unfolding advance_rip
  advance_rip-SameHeap vcpu len =
      bind-SameHeap memory (get_registers vcpu _ _) _ (get_registers-SameHeap vcpu _ _) (λ values.
        bind-SameHeap memory (add_u64 _ len) _ (add_u64-SameHeap _ len)
          (λ next. set_registers-SameHeap vcpu _ _))

  record_halt-SameHeap : (vcpu : Vcpu) → SameHeap memory (record_halt {p = p} vcpu)
  unfolding record_halt
  record_halt-SameHeap vcpu =
      bind-SameHeap memory (get_registers vcpu _ _) _ (get_registers-SameHeap vcpu _ _)
        (λ values w. refl)

  on_world-SameHeap :
      {A : Type 0} (m : Exec (World p) A) → SameHeap memory m → SameHeap guest_memory (on_world m)
  on_world-SameHeap m h s = h s.world

  -- the arms of the match
  logged-SameHeap :
      (vcpu : Vcpu) (event : TraceEvent) (count len : ℕ)
      → SameHeap guest_memory (logged {p = p} vcpu event count len)
  logged-SameHeap vcpu event count len =
      let last : ℕ → Exec (RecordState p) (Flow ℕ) =
        λ next. on_world (advance_rip vcpu len) >>= λ _. pure (again next) in
      bind-SameHeap guest_memory (log event) (λ _. on_world (add_u64 count 1) >>= last) (λ s. refl)
        (λ _.
          bind-SameHeap guest_memory (on_world (add_u64 count 1)) last
            (on_world-SameHeap (add_u64 count 1) (add_u64-SameHeap count 1))
            (λ next.
              bind-SameHeap guest_memory (on_world (advance_rip vcpu len)) (λ _. pure (again next))
                (on_world-SameHeap (advance_rip vcpu len) (advance_rip-SameHeap vcpu len))
                (λ _ s. refl)))

  arm-SameHeap :
      {A : Type 0} (m : Exec (World p) A) (event : A → EventType) (vcpu : Vcpu) (count len : ℕ)
      → SameHeap memory m
      → SameHeap guest_memory (on_world m >>= λ a. logged vcpu (at count (event a)) count len)
  arm-SameHeap m event vcpu count len h =
      bind-SameHeap guest_memory (on_world m) (λ a. logged vcpu (at count (event a)) count len)
        (on_world-SameHeap m h) (λ a. logged-SameHeap vcpu (at count (event a)) count len)

  leaves-SameHeap :
      (m : Exec (World p) (Unit {0}))
      → SameHeap memory m
      → SameHeap guest_memory (on_world m >> pure {A = Flow ℕ} leave)
  leaves-SameHeap m h =
      bind-SameHeap guest_memory (on_world m) (λ _. pure leave) (on_world-SameHeap m h)
        (λ _ s. refl)

  module _ (vcpu : Vcpu) (exit : ExitContext) (count : ℕ) where
    cpuid-SameHeap : SameHeap guest_memory (record_cpuid {p = p} vcpu exit count)
    unfolding record_cpuid
    cpuid-SameHeap =
        arm-SameHeap (write_cpuid vcpu) (λ _. cpuid_event) vcpu count (length_of exit)
          (set_registers-SameHeap vcpu _ _)

    rdtsc-SameHeap : SameHeap guest_memory (record_rdtsc {p = p} vcpu exit count)
    unfolding record_rdtsc
    rdtsc-SameHeap =
        arm-SameHeap (write_rdtsc vcpu) (λ _. rdtsc_event) vcpu count (length_of exit)
          (set_registers-SameHeap vcpu _ _)

    vmcall-SameHeap : SameHeap guest_memory (record_vmcall {p = p} vcpu count)
    unfolding record_vmcall
    vmcall-SameHeap =
        arm-SameHeap (read_rcx vcpu) switch_event vcpu count 3 (get_registers-SameHeap vcpu _ _)

    exit-SameHeap : SameHeap guest_memory (record_exit {p = p} vcpu exit count)
    unfolding record_exit
    exit-SameHeap s = elim (Bool-cases (exit.exit_reason == 1)) [
      | inl a ↦ rw a (leaves-SameHeap (println (ept_violation exit.gpa)) (λ w. refl) s)
      | inr a ↦ elim (Bool-cases (exit.exit_reason == 8)) [
        | inl b ↦ rw (a, b) (leaves-SameHeap (record_halt vcpu) (record_halt-SameHeap vcpu) s)
        | inr b ↦ elim (Bool-cases (exit.exit_reason == 4097)) [
          | inl c ↦ rw (a, b, c) (cpuid-SameHeap s)
          | inr c ↦ elim (Bool-cases (exit.exit_reason == 4099)) [
            | inl d ↦ rw (a, b, c, d) (rdtsc-SameHeap s)
            | inr d ↦ elim (Bool-cases (exit.exit_reason == 4)) [
              | inl e ↦ rw (a, b, c, d, e) (vmcall-SameHeap s)
              | inr e ↦
                  rw (a, b, c, d, e)
                    (leaves-SameHeap (println (unhandled_record exit.exit_reason)) (λ w. refl) s)
            ]
          ]
        ]
      ]
    ]

  module _ (P : Heap → Type 0) where
    after_run :
        (r : Outcome ExitContext) (vcpu : Vcpu) (count : ℕ) (u : RecordState p)
        → P (guest_memory u)
        → P (guest_memory (continue r (λ exit. record_exit vcpu exit count) u).1)
    after_run (ok exit) vcpu count u h = subst P (sym (exit-SameHeap vcpu exit count u)) h
    after_run _ vcpu count u h = h

    round-keeps :
        RunsKeep p P
        → (count : ℕ) (s : RecordState p) → P (guest_memory s)
        → P (guest_memory (record_round count s).1)
    unfolding record_round Runner.run
    round-keeps keep count s h =
        after_run (on_world (Runner.run s.engine.runner) s).0 s.engine.vcpu count
          (on_world (Runner.run s.engine.runner) s).1
          (keep (as_raw s.engine.runner.partition) s.engine.runner.vcpu.index s.world.machine
            s.world.heap h)

    abbrev next_round : ℕ → Flow ℕ → Exec (RecordState p) (Unit {0})
    next_round fuel flow = elim flow [ leave ↦ pure tt | again n ↦ record_loop fuel n ]

    flow-keeps :
        (fuel : ℕ) (r : Outcome (Flow ℕ)) (u : RecordState p)
        → P (guest_memory u)
        → ((n : ℕ) → P (guest_memory (record_loop fuel n u).1))
        → P (guest_memory (continue r (next_round fuel) u).1)
    flow-keeps fuel (ok (again n)) u h k = k n
    flow-keeps fuel _ u h k = h

    loop-keeps :
        RunsKeep p P
        → (fuel count : ℕ) (s : RecordState p) → P (guest_memory s)
        → P (guest_memory (record_loop fuel count s).1)
    unfolding record_loop
    loop-keeps keep zero count s h = h
    loop-keeps keep (suc fuel) count s h =
        let u = (record_round count s).1 in
        let h' = round-keeps keep count s h in
        flow-keeps fuel (record_round count s).0 u h' (λ n. loop-keeps keep fuel n u h')

    -- What the guest's runs keep of the host's memory, the recorder's run keeps, however it ends.
    pub run-keeps :
        RunsKeep p P
        → (fuel : ℕ) (s : RecordState p) → P s.world.heap
        → P (Record.run fuel s).1.world.heap
    unfolding Record.run
    run-keeps keep fuel s h = loop-keeps keep fuel 0 s h
