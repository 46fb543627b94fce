-- ===== src/Engine/Record/Exits.antt =====
-- Which exits the recorder goes on after, and which end its loop.
use vestigium.Common.{ℕ, ◌≡◌, refl, sym, ◌∙◌, List, [], ◌∷◌, ap, ◌⊎◌, inl, inr, arith, ◌≢◌}
use vestigium.Common.Exec.{Outcome, ok, Exec, pure, Flow, leave, again, ◌>>=◌, ◌>>◌}
use vestigium.Common.Steps.{bind-ok}
use vestigium.Platform.{
  Platform, World, ExitContext, Message, println, RegisterName, RegisterValue, say, ept_violation,
  halted_record, unhandled_record, add_u64, rax, zero_value,
}
use vestigium.Trace.{EventType}
use vestigium.Vmm.Vcpu.{Vcpu, first, get_registers}
use vestigium.Engine.Record.Steps.{
  at, logged, cpuid_event, rdtsc_event, switch_event, write_cpuid, write_rdtsc, read_rcx,
  on_world-ok,
}
use vestigium.Engine.Record.{
  advance_rip, length_of, RecordState, on_world, log, record_halt, record_exit, record_cpuid,
  record_rdtsc, record_vmcall,
}

-- The exits that the engines intercept.
abbrev pub IsIntercepted : ℕ → Type 0
IsIntercepted reason = (reason ≡ 4097) ⊎ (reason ≡ 4099) ⊎ (reason ≡ 4)

leave-ne-again :
    {n : ℕ} {S : Type 0} {a b : S}
    → ◌≡◌ {A = Outcome (Flow ℕ) × S} (ok leave, a) (ok (again n), b)
    → ⊥
leave-ne-again h = cc (ap (λ x. x.0) h)

module _ {p : Platform} where
  leaves :
      (m : Exec (World p) (Unit {0})) (s : RecordState p) {n : ℕ} {s' : RecordState p}
      → (on_world m >> pure leave) s ≡ (ok (again n), s')
      → ⊥
  leaves m s h = let (_, _, _, k) = bind-ok (on_world m) _ s h in leave-ne-again k

module _ {p : Platform} (vcpu : Vcpu) (exit : ExitContext) (count : ℕ) (s : RecordState p) {n : ℕ}
    {s' : RecordState p} where
  pub record_exit-again :
      record_exit vcpu exit count s ≡ (ok (again n), s')
      → ((exit.exit_reason ≡ 4097) × (record_cpuid vcpu exit count s ≡ (ok (again n), s')))
        ⊎ ((exit.exit_reason ≡ 4099) × (record_rdtsc vcpu exit count s ≡ (ok (again n), s')))
        ⊎ ((exit.exit_reason ≡ 4) × (record_vmcall vcpu count s ≡ (ok (again n), s')))
  unfolding record_exit
  record_exit-again h = ground (arith, leaves (record_halt vcpu) s {n = n} {s' = s'})

again-ne-leave :
    {n : ℕ} {S : Type 0} {a b : S}
    → ◌≡◌ {A = Outcome (Flow ℕ) × S} (ok (again n), a) (ok leave, b)
    → ⊥
again-ne-leave h = cc (ap (λ x. x.0) h)

-- The intercepted arms never end the loop.
module _ {p : Platform} where
  goes_on :
      {A : Type 0} (m : Exec (World p) A) (event : A → EventType) (vcpu : Vcpu) (count len : ℕ)
      (s : RecordState p) {s' : RecordState p}
      → (on_world m >>= λ a. logged vcpu (at count (event a)) count len) s ≡ (ok leave, s')
      → ⊥
  goes_on m event vcpu count len s h =
      let (a, s1, _, h1) = bind-ok (on_world m) _ s h in
      let (n, s2, _, h2) =
        bind-ok (on_world (add_u64 count 1)) _ (log (at count (event a)) s1).1 h1 in
      let (_, s3, _, h3) = bind-ok (on_world (advance_rip vcpu len)) _ s2 h2 in again-ne-leave h3

module _ {p : Platform} (vcpu : Vcpu) (exit : ExitContext) (count : ℕ) (s : RecordState p)
    {s' : RecordState p} where
  cpuid-goes_on : record_cpuid vcpu exit count s ≡ (ok leave, s') → ⊥
  unfolding record_cpuid
  cpuid-goes_on = goes_on (write_cpuid vcpu) (λ _. cpuid_event) vcpu count (length_of exit) s

  rdtsc-goes_on : record_rdtsc vcpu exit count s ≡ (ok leave, s') → ⊥
  unfolding record_rdtsc
  rdtsc-goes_on = goes_on (write_rdtsc vcpu) (λ _. rdtsc_event) vcpu count (length_of exit) s

  vmcall-goes_on : record_vmcall vcpu count s ≡ (ok leave, s') → ⊥
  unfolding record_vmcall
  vmcall-goes_on = goes_on (read_rcx vcpu) switch_event vcpu count 3 s

module _ {p : Platform} where
  -- Reading registers changes nothing.
  pub get_registers-same :
      (vcpu : Vcpu) (names : List RegisterName) (values : List RegisterValue) (w : World p)
      → (get_registers vcpu names values w).1 ≡ w
  unfolding get_registers
  get_registers-same vcpu names values w = ground arith

  -- The state after the arm of an exit that ends the loop: a line has been printed.
  abbrev pub printed : RecordState p → Message → RecordState p
  printed s m = record s { world = say (m ∷ []) s.world }

  abbrev print_halt : List RegisterValue → Exec (World p) (Unit {0})
  print_halt values = println (halted_record (first values).reg64)

  -- The line that the arm of a halt prints.
  halt-prints :
      (vcpu : Vcpu) (s : RecordState p) {s' : RecordState p}
      → (on_world (record_halt vcpu) >> pure {A = Flow ℕ} leave) s ≡ (ok leave, s')
      → (values : List RegisterValue) × (get_registers vcpu (rax ∷ []) (zero_value ∷ []) s.world
          ≡ (ok values, s.world))
        × (s' ≡ printed s (halted_record (first values).reg64))
  unfolding record_halt
  halt-prints vcpu s {s' = s'} h =
      let (_, s1, e1, h1) = bind-ok (on_world (record_halt vcpu)) _ s h in
      let (e3, e4) = on_world-ok (record_halt vcpu) s e1 in
      let (values, w1, e2, h2) =
        bind-ok (get_registers vcpu (rax ∷ []) (zero_value ∷ [])) print_halt s.world e3 in
      let same : w1 ≡ s.world = ap (λ x. x.1) (sym e2) ∙ get_registers-same vcpu _ _ s.world in
      let m = halted_record (first values).reg64 in
      let world : s1.world ≡ say (m ∷ []) s.world =
        ap (λ x. x.1) (sym h2) ∙ ap (say (m ∷ [])) same in
      (
        values,
        e2 ∙ ap (λ u. (ok values, u)) same,
        ap (λ x. x.1) (sym h1) ∙ λ i. record { engine = e4 i; world = world i },
      )

module _ {p : Platform} where
  -- The line for an exit that ends the loop.
  abbrev pub IsLine : Vcpu → ExitContext → World p → Message → Type 0
  IsLine vcpu exit w m =
      ((exit.exit_reason ≡ 1) × (m ≡ ept_violation exit.gpa))
      ⊎ ((exit.exit_reason ≡ 8)
          × ((values : List RegisterValue) × (get_registers vcpu (rax ∷ []) (zero_value ∷ []) w
                ≡ (ok values, w))
              × (m ≡ halted_record (first values).reg64)))
      ⊎ ((exit.exit_reason ≢ 1)
          × (exit.exit_reason ≢ 8)
          × ¬ IsIntercepted exit.exit_reason
          × (m ≡ unhandled_record exit.exit_reason))

  pub IsLine-unhandled :
      (vcpu : Vcpu) (exit : ExitContext) (w : World p) (m : Message)
      → IsLine vcpu exit w m
      → ¬ IsIntercepted exit.exit_reason
  IsLine-unhandled vcpu exit w m (inl (one, e)) i = ground arith
  IsLine-unhandled vcpu exit w m (inr (inl (eight, rest))) i = ground arith
  IsLine-unhandled vcpu exit w m (inr (inr (a, b, other, e))) i = other i

module _ {p : Platform} (vcpu : Vcpu) (exit : ExitContext) (count : ℕ) (s : RecordState p)
    {s' : RecordState p} where
  leave-cases :
      record_exit vcpu exit count s ≡ (ok leave, s')
      → ((exit.exit_reason ≡ 1) × (s' ≡ printed s (ept_violation exit.gpa)))
        ⊎ ((exit.exit_reason ≡ 8)
            × ((on_world (record_halt vcpu) >> pure {A = Flow ℕ} leave) s ≡ (ok leave, s')))
        ⊎ ((exit.exit_reason ≢ 1)
            × (exit.exit_reason ≢ 8)
            × (exit.exit_reason ≢ 4097)
            × (exit.exit_reason ≢ 4099)
            × (exit.exit_reason ≢ 4)
            × (s' ≡ printed s (unhandled_record exit.exit_reason)))
  unfolding record_exit
  leave-cases h = ground (
    arith,
    cpuid-goes_on vcpu exit count s {s' = s'},
    rdtsc-goes_on vcpu exit count s {s' = s'},
    vmcall-goes_on vcpu exit count s {s' = s'},
  )

  -- An exit that ends the loop: a line is printed for it, and nothing is logged.
  pub record_exit-leave :
      record_exit vcpu exit count s ≡ (ok leave, s')
      → (m : Message) × (s' ≡ printed s m) × IsLine vcpu exit s.world m
  record_exit-leave h = elim (leave-cases h) [
    | inl (one, e) ↦ (ept_violation exit.gpa, e, inl (one, refl))
    | inr (inl (eight, e)) ↦
        let (values, read, e') = halt-prints vcpu s e in
        (halted_record (first values).reg64, e', inr (inl (eight, (values, read, refl))))
    | inr (inr (not_one, not_eight, a, b, c, e)) ↦ (
      unhandled_record exit.exit_reason,
      e,
      inr (inr (not_one, not_eight, (λ i. ground arith), refl)),
    )
  ]
