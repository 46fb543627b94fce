-- ===== src/Engine/Replay/Ends.antt =====
-- The calls inside a round of `replay_event` end without fuel and without undefined behaviour.
use vestigium.Common.{
  ℕ, ltb, ◌+◌, length, inl, inr, Bool, true, false, Bool-cases, Option, none, some, List, [], ◌∷◌,
  ◌==◌,
}
use vestigium.Common.Exec.{
  Outcome, ok, err, panic, fault, stuck, Exec, continue, pure, assert, Flow, again, ◌>>=◌,
}
use vestigium.Platform.{
  Platform, World, Answer, done, failed, answer, api, query, RegisterName, RegisterValue, add_u64,
  u64_mod, zero_value, of_reg64, rip, rax,
}
use vestigium.Trace.{TraceEvent, EventType, syscall, rdtsc, cpuid, context_switch}
use vestigium.Vmm.Vcpu.{Vcpu, first, overwrite, get_registers, set_registers}
use vestigium.Engine.Replay.{
  ReplayEngine, active_vcpu, found, advance_rip, inject, inject_event, write_all,
  write_guest_memory,
}

-- A value, an error or a panic; and one that asks for no other round either.
abbrev pub Ends : {A : Type 0} → Outcome A → Type 0
Ends fault = ⊥
Ends stuck = ⊥
Ends r = Unit

abbrev pub Leaves : Outcome (Flow (Unit {0})) → Type 0
Leaves (ok (again x)) = ⊥
Leaves fault = ⊥
Leaves stuck = ⊥
Leaves r = Unit

module _ {S A B : Type 0} where
  bind-Ends :
      (m : Exec S A) (f : A → Exec S B) (w : S)
      → Ends (m w).0
      → ((a : A) (u : S) → Ends (f a u).0)
      → Ends ((m >>= f) w).0
  bind-Ends m f w e k = go (m w).0 (m w).1 e
    where
      go : (r : Outcome A) (u : S) → Ends r → Ends (continue r f u).0
      go (ok a) u e = k a u
      go (err n) u e = tt
      go panic u e = tt
      go fault u e = elim e [ ]
      go stuck u e = elim e [ ]

module _ {S A : Type 0} where
  pub bind-Leaves :
      (m : Exec S A) (f : A → Exec S (Flow (Unit {0}))) (w : S)
      → Ends (m w).0
      → ((a : A) (u : S) → Leaves (f a u).0)
      → Leaves ((m >>= f) w).0
  bind-Leaves m f w e k = go (m w).0 (m w).1 e
    where
      go : (r : Outcome A) (u : S) → Ends r → Leaves (continue r f u).0
      go (ok a) u e = k a u
      go (err n) u e = tt
      go panic u e = tt
      go fault u e = elim e [ ]
      go stuck u e = elim e [ ]

answer-Ends : {A : Type 0} (a : Answer A) → Ends (answer a)
answer-Ends (done a) = tt
answer-Ends (failed e) = tt

module _ {p : Platform} where
  assert-Ends : (b : Bool) (w : World p) → Ends (assert b w).0
  assert-Ends true w = tt
  assert-Ends false w = tt

  add_u64-Ends : (a b : ℕ) (w : World p) → Ends (add_u64 a b w).0
  add_u64-Ends a b w = elim (Bool-cases (ltb (a + b) u64_mod)) [
    | inl small ↦ rw small tt
    | inr large ↦ elim (Bool-cases p.overflow_checks) [
      | inl checks ↦ rw (large, checks) tt
      | inr wraps ↦ rw (large, wraps) tt
    ]
  ]

  pub get_registers-Ends :
      (v : Vcpu) (names : List RegisterName) (values : List RegisterValue) (w : World p)
      → Ends (get_registers v names values w).0
  unfolding get_registers
  get_registers-Ends v names values w =
      bind-Ends (assert (length names == length values)) _ w (assert-Ends _ w) (λ _ u.
        bind-Ends (query (p.read_registers v.partition v.index names))
          (λ answers. pure (overwrite values answers)) u (answer-Ends _) (λ _ _. tt))

  set_registers-Ends :
      (v : Vcpu) (names : List RegisterName) (values : List RegisterValue) (w : World p)
      → Ends (set_registers v names values w).0
  unfolding set_registers
  set_registers-Ends v names values w =
      bind-Ends (assert (length names == length values))
        (λ _. api (p.write_registers v.partition v.index names values)) w (assert-Ends _ w)
        (λ _ u. answer-Ends _)

module _ {p : Platform} (engine : ReplayEngine) where
  found-Ends : (v : Option Vcpu) (w : World p) → Ends (found v w).0
  found-Ends none w = tt
  found-Ends (some v) w = tt

  pub active_vcpu-Ends : (w : World p) → Ends (active_vcpu engine w).0
  unfolding active_vcpu
  active_vcpu-Ends w = found-Ends _ w

  write_all-Ends : (writes : List (ℕ × List ℕ)) (w : World p) → Ends (write_all engine writes w).0
  unfolding write_all write_guest_memory
  write_all-Ends [] w = tt
  write_all-Ends (x ∷ writes) w = write_all-Ends writes w

  inject-Ends : (v : Vcpu) (event : EventType) (w : World p) → Ends (inject engine v event w).0
  unfolding inject
  inject-Ends v (syscall a m) w =
      bind-Ends (set_registers v (rax ∷ []) (of_reg64 a ∷ [])) (λ _. write_all engine m) w
        (set_registers-Ends v _ _ w) (λ _ u. write_all-Ends m u)
  inject-Ends v (rdtsc a d) w = set_registers-Ends v _ _ w
  inject-Ends v (cpuid a b c d) w = set_registers-Ends v _ _ w
  inject-Ends v (context_switch n) w = tt

  pub inject_event-Ends : (e : TraceEvent) (w : World p) → Ends (inject_event engine e w).0
  unfolding inject_event
  inject_event-Ends e w =
      bind-Ends (active_vcpu engine) (λ v. inject engine v e.event) w (active_vcpu-Ends w)
        (λ v u. inject-Ends v e.event u)

  pub advance_rip-Ends : (len : ℕ) (w : World p) → Ends (advance_rip engine len w).0
  unfolding advance_rip
  advance_rip-Ends len w = bind-Ends (active_vcpu engine) read w (active_vcpu-Ends w) (λ v u.
      bind-Ends (get_registers v (rip ∷ []) (zero_value ∷ [])) step u (get_registers-Ends v _ _ u)
        (λ values t.
          bind-Ends (add_u64 (first values).reg64 len) (write values) t (add_u64-Ends _ len t)
            (λ next s.
              bind-Ends (active_vcpu engine) (put values next) s (active_vcpu-Ends s)
                (λ v' r. set_registers-Ends v' _ _ r))))
    where
      put : List RegisterValue → ℕ → Vcpu → Exec (World p) (Unit {0})
      put values next v' = set_registers v' (rip ∷ []) (record (first values) { reg64 = next } ∷ [])

      write : List RegisterValue → ℕ → Exec (World p) (Unit {0})
      write values next = active_vcpu engine >>= put values next

      step : List RegisterValue → Exec (World p) (Unit {0})
      step values = add_u64 (first values).reg64 len >>= write values

      read : Vcpu → Exec (World p) (Unit {0})
      read v = get_registers v (rip ∷ []) (zero_value ∷ []) >>= step
