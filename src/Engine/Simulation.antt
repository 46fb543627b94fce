-- ===== src/Engine/Simulation.antt =====
-- Two processors that answer alike: the guest is deterministic, given the registers that the
-- engines write. The recorded run and the replayed one are compared through such a relation.
use vestigium.Common.{arith, ℕ, ◌≡◌, refl, sym, ◌∙◌, ap, Bool, List}
use vestigium.Common.Exec.{
  Outcome, ok, err, panic, fault, stuck, Exec, continue, pure, assert, ◌>>=◌,
}
use vestigium.Platform.{
  Platform, World, Message, RegisterName, RegisterValue, answer, api, query, say, add_u64,
}
use mathlib.Core.Path.{subst}
use vestigium.Vmm.Partition.{VmPartition}
use vestigium.Vmm.Vcpu.{Vcpu, get_registers, set_registers}
use vestigium.Engine.Runner
use vestigium.Engine.Record

-- `m` and `m'` end alike from related states, and leave related states.
pub record Agree {p : Platform} {A : Type 0} (R : World p → World p → Type 0)
    (m m' : Exec (World p) A) : Type 0 where
  pub outcome : (w w' : World p) → R w w' → (m w).0 ≡ (m' w').0
  pub related : (w w' : World p) → R w w' → R (m w).1 (m' w').1

-- The hypotheses on the platform: calls on related states give the same answers and related states,
-- and what the recorder prints does not matter.
pub record IsSimulation {p : Platform} (R : World p → World p → Type 0) (part part' : VmPartition)
    (v v' : Vcpu) : Type 0 where
  pub prints : (ms : List Message) (w w' : World p) → R w w' → R (say ms w) w'
  pub reads :
      (names : List RegisterName) (w w' : World p)
      → R w w'
      → p.read_registers v.partition v.index names w.machine
        ≡ p.read_registers v'.partition v'.index names w'.machine
  pub writes :
      (names : List RegisterName) (values : List RegisterValue)
      → Agree R
          (api (p.write_registers v.partition v.index names values))
          (api (p.write_registers v'.partition v'.index names values))
  pub runs : Agree R (Runner.run (Runner.new part v)) (Runner.run (Runner.new part' v'))

module _ {p : Platform} {R : World p → World p → Type 0} where
  pub Agree-pure : {A : Type 0} (a : A) → Agree R (pure a) (pure a)
  Agree-pure a = record { outcome = λ w w' r. refl; related = λ w w' r. r }

  Agree-assert : (b : Bool) → Agree R (assert b) (assert b)
  Agree-assert b = record { outcome = λ w w' r. ground arith; related = λ w w' r. ground arith }

  pub add_u64-Agree : (a b : ℕ) → Agree R (add_u64 a b) (add_u64 a b)
  add_u64-Agree a b = record { outcome = λ w w' r. ground arith; related = λ w w' r. ground arith }

  module _ {A B : Type 0} {f f' : A → Exec (World p) B}
      (each : (a : A) → Agree R (f a) (f' a)) where
    continue-outcome :
        (x : Outcome A) (u u' : World p) → R u u' → (continue x f u).0 ≡ (continue x f' u').0
    continue-outcome (ok a) u u' r = (each a).outcome u u' r
    continue-outcome _ u u' r = refl

    continue-related :
        (x : Outcome A) (u u' : World p) → R u u' → R (continue x f u).1 (continue x f' u').1
    continue-related (ok a) u u' r = (each a).related u u' r
    continue-related (err e) u u' r = r
    continue-related panic u u' r = r
    continue-related fault u u' r = r
    continue-related stuck u u' r = r

    pub Agree-bind : (m m' : Exec (World p) A) → Agree R m m' → Agree R (m >>= f) (m' >>= f')
    Agree-bind m m' h = record {
      outcome = λ w w' r.
          rw (h.outcome w w' r) (continue-outcome (m' w').0 (m w).1 (m' w').1 (h.related w w' r));
      related = λ w w' r.
          rw (h.outcome w w' r) (continue-related (m' w').0 (m w).1 (m' w').1 (h.related w w' r));
    }

  -- A call that succeeds succeeds on the other side.
  pub Agree-ok :
      {A : Type 0} {m m' : Exec (World p) A} {a : A} {w u w' : World p}
      → Agree R m m'
      → R w w'
      → m w ≡ (ok a, u)
      → (u' : World p) × (m' w' ≡ (ok a, u')) × R u u'
  Agree-ok {m' = m'} {w = w} {w' = w'} h r e =
      let same = h.outcome w w' r in
      let fst : (m' w').0 ≡ ok _ = sym same ∙ ap (λ x. x.0) e in
      ((m' w').1, (λ i. (fst i, (m' w').1)), subst (λ x. R x.1 (m' w').1) e (h.related w w' r))

module _ {p : Platform} {R : World p → World p → Type 0} {part part' : VmPartition} {v v' : Vcpu}
    (sim : IsSimulation R part part' v v') where
  pub get_registers-Agree :
      (names : List RegisterName) (values : List RegisterValue)
      → Agree R (get_registers v names values) (get_registers v' names values)
  unfolding get_registers
  get_registers-Agree names values =
      Agree-bind (λ _. Agree-bind (λ answers. Agree-pure _) _ _ read) _ _ (Agree-assert _)
    where
      read :
          Agree R
            (query {p = p} (p.read_registers v.partition v.index names))
            (query (p.read_registers v'.partition v'.index names))
      read = record {
        outcome = λ w w' r. ap answer (sim.reads names w w' r);
        related = λ w w' r. r;
      }

  pub set_registers-Agree :
      (names : List RegisterName) (values : List RegisterValue)
      → Agree R (set_registers v names values) (set_registers v' names values)
  unfolding set_registers
  set_registers-Agree names values = Agree-bind (λ _. sim.writes names values) _ _ (Agree-assert _)

  pub advance_rip-Agree : (len : ℕ) → Agree R (Record.advance_rip v len) (Record.advance_rip v' len)
  unfolding Record.advance_rip
  advance_rip-Agree len =
      Agree-bind (λ values. Agree-bind (λ next. set_registers-Agree _ _) _ _ (add_u64-Agree _ len))
        _ _ (get_registers-Agree _ _)

-- The same machine and the same host memory, whatever has been printed.
abbrev pub SameGuest : {p : Platform} → World p → World p → Type 0
SameGuest w w' = (w.machine ≡ w'.machine) × (w.heap ≡ w'.heap)

-- A processor answers like itself: the platform's calls are functions of machine and memory.
pub same_guest-IsSimulation :
    {p : Platform} (part : VmPartition) (v : Vcpu) → IsSimulation {p = p} SameGuest part part v v
unfolding Runner.run
same_guest-IsSimulation {p} part v = record {
  prints = λ ms w w' r. r;
  reads = λ names w w' r. ap (p.read_registers v.partition v.index names) r.0;
  writes = λ names values. record {
    outcome = λ w w' r. λ i. answer (p.write_registers v.partition v.index names values (r.0 i)).0;
    related =
        λ w w' r. ((λ i. (p.write_registers v.partition v.index names values (r.0 i)).1), r.1);
  };
  runs = record {
    outcome = λ w w' r. λ i. answer (p.run_processor part.handle v.index (r.0 i) (r.1 i)).0;
    related = λ w w' r. (
      (λ i. (p.run_processor part.handle v.index (r.0 i) (r.1 i)).1),
      (λ i. (p.run_processor part.handle v.index (r.0 i) (r.1 i)).2),
    );
  };
}
