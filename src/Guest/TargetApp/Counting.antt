-- ===== src/Guest/TargetApp/Counting.antt =====
-- What the two threads of the target count, and how it is recorded.
use vestigium.Common.{
  ℕ, zero, suc, ◌+◌, ◌*◌, ◌%◌, ◌^◌, ◌≤◌, ◌<◌, ◌≡◌, refl, sym, ap, ◌∙◌, some, List, [], ◌∷◌, false,
  ◌==◌, arith,
}
use vestigium.Common.Exec.{ok}
use vestigium.Platform.{Platform, World, say, halted_record}
use vestigium.Trace.{TraceEvent, context_switch}
use vestigium.Vmm.Partition.{VmPartition}
use vestigium.Vmm.Vcpu.{Vcpu}
use vestigium.Engine.Record
use vestigium.Engine.Record.{RecordState, finalize}
use vestigium.Guest.Spec.{logged, spec_recording}
use vestigium.Guest.Hosts.{Hosts}
use vestigium.Guest.Recorded.{run-Recording}
use vestigium.Guest.TargetApp.{
  Point, yielding, halted, TargetState, rounds_left, end_slice, resume, program_of,
}

-- From one stop of the target to the next.
pub data Moves (s : TargetState) : TargetState → Type 0 where
  move : Moves s (resume s)

pub data Reach (s : TargetState) : TargetState → Type 0 where
  here : Reach s s
  next : {t u : TargetState} → Reach s t → Moves t u → Reach s u

-- With `n` rounds: a thread in its yield has read the counter, which is the number of slices done
-- before; at the halt every slice is done.
abbrev pub IsCounting : ℕ → TargetState → Type 0
IsCounting n s = elim s.point [
  | yielding rounds thread_id temp ↦
      (rounds < n)
      × (thread_id ≤ 1)
      × (temp ≡ s.counter)
      × (s.counter + 2 * rounds + 2 ≡ 2 * n + thread_id)
  | halted final_val ↦ (final_val ≡ s.counter) × (s.counter ≡ 2 * n)
]

rounds_left-IsCounting :
    (n rounds counter : ℕ)
    → rounds ≤ n
    → counter + 2 * rounds ≡ 2 * n
    → IsCounting n (rounds_left rounds counter)
rounds_left-IsCounting n zero counter le e = (refl, omega arith)
rounds_left-IsCounting n (suc rounds) counter le e = (omega arith, omega arith, refl, omega arith)

end_slice-IsCounting :
    (n rounds thread_id temp counter : ℕ)
    → 2 * n < 2 ^ 64
    → IsCounting n (record { counter = counter; point = yielding rounds thread_id temp })
    → IsCounting n (end_slice rounds thread_id temp)
end_slice-IsCounting n rounds zero temp counter small (a, b, c, d) =
    (a, omega arith, refl, omega arith)
end_slice-IsCounting n rounds (suc thread_id) temp counter small (a, b, c, d) =
    let second : (suc thread_id == 0) ≡ false = ground arith in
    rw second (rounds_left-IsCounting n rounds ((temp + 1) % 2 ^ 64) (omega arith) (omega arith))

resume-IsCounting :
    (n : ℕ) (s : TargetState) → 2 * n < 2 ^ 64 → IsCounting n s → IsCounting n (resume s)
unfolding resume
resume-IsCounting n s small i = go s.point s.counter i
  where
    go :
        (point : Point) (counter : ℕ)
        → IsCounting n (record { counter = counter; point = point })
        → IsCounting n (resume (record { counter = counter; point = point }))
    go (yielding rounds thread_id temp) counter j =
        end_slice-IsCounting n rounds thread_id temp counter small j
    go (halted final_val) counter j = j

-- However far the target with `n` rounds has run, no update of the counter has been lost: a thread
-- that yields has read the number of slices done so far, and the value at the halt is twice `n`.
pub Reach-IsCounting :
    (n : ℕ) → 2 * n < 2 ^ 64 → {s : TargetState} → Reach (rounds_left n 0) s → IsCounting n s
Reach-IsCounting n small here = rounds_left-IsCounting n n 0 (omega arith) (omega arith)
Reach-IsCounting n small (next {t} r move) =
    resume-IsCounting n t small (Reach-IsCounting n small r)

-- The switches of `n` rounds, numbered from `count`.
abbrev pub switches : ℕ → ℕ → List TraceEvent
switches zero count = []
switches (suc n) count =
    record { instruction_count = count; event = context_switch 0 }
    ∷ record { instruction_count = count + 1; event = context_switch 1 }
    ∷ switches n (count + 1 + 1)

abbrev rounds_fuel : ℕ → ℕ
rounds_fuel zero = 1
rounds_fuel (suc n) = suc (suc (rounds_fuel n))

rounds-recording :
    (n m counter count : ℕ)
    → counter + 2 * m < 2 ^ 64
    → spec_recording (rounds_fuel m) (program_of n) (rounds_left m counter) count
      ≡ some (record { events = switches m count; final_rax = counter + 2 * m })
unfolding spec_recording resume
rounds-recording n zero counter count small =
    let e : counter ≡ counter + 2 * 0 = omega arith in
    ap (λ c. some (record { events = []; final_rax = c })) e
rounds-recording n (suc m) counter count small =
    let twice : ((counter + 1) % 2 ^ 64 + 1) % 2 ^ 64 ≡ counter + 1 + 1 = omega arith in
    let same : counter + 1 + 1 + 2 * m ≡ counter + 2 * suc m = omega arith in
    rw twice (
      ap (λ o. logged count (context_switch 0) (logged (count + 1) (context_switch 1) o))
        (rounds-recording n m (counter + 1 + 1) (count + 1 + 1) (omega arith))
      ∙ ap (λ c. some (record { events = switches (suc m) count; final_rax = c })) same)

rounds_fuel_lem : (n : ℕ) → rounds_fuel n ≡ 2 * n + 1
rounds_fuel_lem zero = refl
rounds_fuel_lem (suc n) = omega (arith, rounds_fuel_lem n)

-- On a processor that runs the target with `n` rounds, and 2 n + 1 below 2^64, the recorder ends: its
-- trace is the switches to the threads 0 and 1 in turn, `n` times, numbered from 0, and the last line
-- printed is the counter at the halt, 2 n. For the 100 rounds of the source, 200 events and 200.
pub program_of-recorded :
    {p : Platform} (part : VmPartition) (v : Vcpu) (n : ℕ) (At : TargetState → World p → Type 0)
    (w : World p)
    → Hosts part v (program_of n) At
    → At (rounds_left n 0) w
    → 2 * n + 1 < 2 ^ 64
    → (s' : RecordState p) × (u : World p) × (Record.run
          (2 * n + 1)
          (record { engine = Record.new part v; world = w })
        ≡ (ok tt, s'))
      × (finalize s'.engine ≡ switches n 0)
      × (s'.world ≡ say (halted_record (2 * n) ∷ []) u)
program_of-recorded {p} part v n At w hosts at small =
    let full : spec_recording (rounds_fuel n) (program_of n) (rounds_left n 0) 0
        ≡ some (record { events = switches n 0; final_rax = 0 + 2 * n }) =
      rounds-recording n n 0 0 (omega arith) in
    let enough : spec_recording (2 * n + 1) (program_of n) (rounds_left n 0) 0
        ≡ some (record { events = switches n 0; final_rax = 2 * n }) =
      ap (λ f. spec_recording f (program_of n) (rounds_left n 0) 0) (sym (rounds_fuel_lem n))
      ∙ full
      ∙ ap (λ c. some (record { events = switches n 0; final_rax = c })) (omega arith) in
    run-Recording part v (program_of n) At hosts (2 * n + 1) w at small enough
