-- ===== src/Engine/Record/Steps.antt =====
-- What a successful round of the recorder has done: the calls on the world, and the event logged.
use vestigium.Common.{ℕ, ◌+◌, ◌%◌, ◌^◌, ◌≡◌, sym, ◌∙◌, ap, List, [], ◌∷◌, arith}
use vestigium.Common.Exec.{ok, Exec, pure, Flow, again, ◌>>=◌, ◌>>◌}
use vestigium.Common.Steps.{bind-ok}
use vestigium.Platform.{
  Platform, World, ExitContext, RegisterValue, add_u64, u64_mod, of_reg64, zero_value, rax, rbx,
  rcx, rdx,
}
use vestigium.Trace.{TraceEvent, EventType, rdtsc, cpuid, context_switch}
use vestigium.Vmm.Vcpu.{Vcpu, first, get_registers, set_registers}
use vestigium.Engine.Record.{
  RecordState, RecordEngine, on_world, log, log_event, advance_rip, record_cpuid, record_rdtsc,
  record_vmcall, length_of, sim_rax, sim_rdx, sim_eax, sim_ebx, sim_ecx, sim_edx,
}

abbrev pub at : ℕ → EventType → TraceEvent
at count event = record { instruction_count = count; event = event }

module _ {p : Platform} where
  -- The calls of the arms before they log.
  abbrev pub write_cpuid : Vcpu → Exec (World p) (Unit {0})
  write_cpuid vcpu =
      set_registers vcpu (rax ∷ rbx ∷ rcx ∷ rdx ∷ [])
        (of_reg64 sim_eax ∷ of_reg64 sim_ebx ∷ of_reg64 sim_ecx ∷ of_reg64 sim_edx ∷ [])

  abbrev pub write_rdtsc : Vcpu → Exec (World p) (Unit {0})
  write_rdtsc vcpu = set_registers vcpu (rax ∷ rdx ∷ []) (of_reg64 sim_rax ∷ of_reg64 sim_rdx ∷ [])

  abbrev pub read_rcx : Vcpu → Exec (World p) (List RegisterValue)
  read_rcx vcpu = get_registers vcpu (rcx ∷ []) (zero_value ∷ [])

  -- the engine, with one more event
  abbrev pub with_event : RecordState p → TraceEvent → RecordEngine
  with_event s event = record s.engine { logger = log_event s.engine.logger event }

  pub on_world-ok :
      {A : Type 0} (m : Exec (World p) A) (s : RecordState p) {a : A} {t : RecordState p}
      → on_world m s ≡ (ok a, t)
      → (m s.world ≡ (ok a, t.world)) × (t.engine ≡ s.engine)
  on_world-ok m s h = (λ i. ((h i).0, (h i).1.world), λ i. (sym h i).1.engine)

  pub add_u64-ok :
      (a b : ℕ) (w : World p) {n : ℕ} {u : World p}
      → add_u64 a b w ≡ (ok n, u)
      → (u ≡ w) × (n ≡ (a + b) % u64_mod)
  add_u64-ok a b w h = ground arith

  -- the part that every intercepted exit ends in
  abbrev pub logged : Vcpu → TraceEvent → ℕ → ℕ → Exec (RecordState p) (Flow ℕ)
  logged vcpu event count len = do
    log event
    next ← on_world (add_u64 count 1)
    on_world (advance_rip vcpu len)
    pure (again next)

  -- From `s`, once the registers have been written or read and the world is `mid`, the event has
  -- been logged, the count has gone up by one, and the instruction has been stepped over.
  pub record Logged (s : RecordState p) (event : TraceEvent) (n : ℕ) (vcpu : Vcpu) (len : ℕ)
      (mid : World p) (s' : RecordState p) : Type 0 where
    pub engine : s'.engine ≡ with_event s event
    pub counted : n ≡ (event.instruction_count + 1) % u64_mod
    pub advanced : advance_rip vcpu len mid ≡ (ok tt, s'.world)

  logged-ok :
      (vcpu : Vcpu) (event : TraceEvent) (len : ℕ) (s : RecordState p) {n : ℕ} {s' : RecordState p}
      → logged vcpu event event.instruction_count len s ≡ (ok (again n), s')
      → Logged s event n vcpu len s.world s'
  logged-ok vcpu event len s {s' = s'} h =
      let count = event.instruction_count in
      let s1 : RecordState p = record { engine = with_event s event; world = s.world } in
      let (n, s2, e2, h2) = bind-ok (on_world (add_u64 count 1)) _ s1 h in
      let (_, s3, e3, h3) = bind-ok (on_world (advance_rip vcpu len)) _ s2 h2 in
      let (e4, e5) = on_world-ok (add_u64 count 1) s1 e2 in
      let (same, n_eq) = add_u64-ok count 1 s.world e4 in
      let (e6, e7) = on_world-ok (advance_rip vcpu len) s2 e3 in
      let end : s3 ≡ s' = ap (λ x. x.1) h3 in
      let out : ok (again n) ≡ ok (again _) = ap (λ x. x.0) h3 in
      record {
        engine = ap (λ (x : RecordState p). x.engine) (sym end) ∙ e7 ∙ e5;
        counted = cc;
        advanced = rw same at (rw end at e6);
      }

  -- The same after a call on the world that leaves the engine as it is.
  after-ok :
      {A : Type 0} (m : Exec (World p) A) (vcpu : Vcpu) (event : A → EventType) (count len : ℕ)
      (s : RecordState p) {n : ℕ} {s' : RecordState p}
      → (on_world m >>= λ a. logged vcpu (at count (event a)) count len) s ≡ (ok (again n), s')
      → (a : A) × (mid : World p) × (m s.world ≡ (ok a, mid))
        × Logged s (at count (event a)) n vcpu len mid s'
  after-ok m vcpu event count len s h =
      let (a, s1, e1, h1) = bind-ok (on_world m) _ s h in
      let (e2, e3) = on_world-ok m s e1 in
      let done = logged-ok vcpu (at count (event a)) len s1 h1 in
      (
        a,
        s1.world,
        e2,
        record {
          engine =
              done.engine
              ∙ ap
                  (λ (e : RecordEngine). record e {
                    logger = log_event e.logger (at count (event a));
                  })
                  e3;
          counted = done.counted;
          advanced = done.advanced;
        },
      )

abbrev pub cpuid_event : EventType
cpuid_event = cpuid sim_eax sim_ebx sim_ecx sim_edx

abbrev pub rdtsc_event : EventType
rdtsc_event = rdtsc sim_rax sim_rdx

abbrev pub switch_event : List RegisterValue → EventType
switch_event values = context_switch ((first values).reg64 % 2 ^ 32)

module _ {p : Platform} (vcpu : Vcpu) (exit : ExitContext) (count : ℕ) (s : RecordState p) {n : ℕ}
    {s' : RecordState p} where
  pub cpuid-ok :
      record_cpuid vcpu exit count s ≡ (ok (again n), s')
      → (a : Unit {0}) × (mid : World p) × (write_cpuid vcpu s.world ≡ (ok a, mid))
        × Logged s (at count cpuid_event) n vcpu (length_of exit) mid s'
  unfolding record_cpuid
  cpuid-ok = after-ok (write_cpuid vcpu) vcpu (λ _. cpuid_event) count (length_of exit) s

  pub rdtsc-ok :
      record_rdtsc vcpu exit count s ≡ (ok (again n), s')
      → (a : Unit {0}) × (mid : World p) × (write_rdtsc vcpu s.world ≡ (ok a, mid))
        × Logged s (at count rdtsc_event) n vcpu (length_of exit) mid s'
  unfolding record_rdtsc
  rdtsc-ok = after-ok (write_rdtsc vcpu) vcpu (λ _. rdtsc_event) count (length_of exit) s

  pub vmcall-ok :
      record_vmcall vcpu count s ≡ (ok (again n), s')
      → (values : List RegisterValue) × (mid : World p) × (read_rcx vcpu s.world ≡ (ok values, mid))
        × Logged s (at count (switch_event values)) n vcpu 3 mid s'
  unfolding record_vmcall
  vmcall-ok = after-ok (read_rcx vcpu) vcpu switch_event count 3 s
