-- ===== src/Engine/Replay/Injection.antt =====
-- Which parts of an event `inject_event` and `replay_event` use.
use vestigium.Common.{ℕ, zero, suc, ◌≡◌, refl, List, [], ◌∷◌}
use vestigium.Common.Exec.{pure, leave, again, ◌>>=◌}
use vestigium.Platform.{Platform, World, Bytes, ExitContext}
use vestigium.Trace.{TraceEvent, EventType, syscall, rdtsc, cpuid, context_switch}
use vestigium.Engine.Runner
use vestigium.Engine.Replay.{
  ReplayEngine, active_vcpu, inject, inject_event, inject_and_advance, replay_vmcall, replay_exit,
  replay_round, replay_event, write_all, write_guest_memory,
}

abbrev at : ℕ → EventType → TraceEvent
at count event = record { instruction_count = count; event = event }

module _ {p : Platform} (engine : ReplayEngine) where
  write_all-none : (writes : List (ℕ × Bytes)) → write_all {p = p} engine writes ≡ pure tt
  unfolding write_all write_guest_memory
  write_all-none [] = refl
  write_all-none ((gpa, content) ∷ writes) = write_all-none writes

  -- The memory writes of a system call event change nothing: the injection is that of the event
  -- without them, whatever the writes are.
  pub inject_event-syscall :
      (count a : ℕ) (writes : List (ℕ × Bytes)) (w : World p)
      → inject_event engine (at count (syscall a writes)) w
        ≡ inject_event engine (at count (syscall a [])) w
  unfolding inject_event inject
  inject_event-syscall count a writes w = rw (write_all-none writes, write_all-none [])

  exit-count :
      (n k : ℕ) (event : EventType) (exit : ExitContext)
      → replay_exit {p = p} engine (at n event) exit ≡ replay_exit engine (at k event) exit
  unfolding replay_exit inject_and_advance inject_event replay_vmcall
  exit-count n k (syscall a m) exit = refl
  exit-count n k (rdtsc a d) exit = refl
  exit-count n k (cpuid a b c d) exit = refl
  exit-count n k (context_switch t) exit = refl

  event-count :
      (fuel n k : ℕ) (event : EventType)
      → replay_event {p = p} fuel engine (at n event) ≡ replay_event fuel engine (at k event)
  unfolding replay_event replay_round
  event-count zero n k event = refl
  event-count (suc fuel) n k event = λ i.
      (active_vcpu engine >>= λ v.
      Runner.run (Runner.new engine.partition v) >>= λ exit. exit-count n k event exit i)
      >>= λ flow. elim flow [ leave ↦ pure tt | again _ ↦ event-count fuel n k event i ]

  -- The replay of an event does not depend on its instruction count: with the same exits, an event
  -- is injected at the same point of the guest's run under every count.
  pub replay_event-instruction_count :
      (fuel n k : ℕ) (event : EventType) (w : World p)
      → replay_event fuel engine (at n event) w ≡ replay_event fuel engine (at k event) w
  replay_event-instruction_count fuel n k event w = λ i. event-count fuel n k event i w
