-- ===== src/Cli/Replay/Report.antt =====
-- What the run after the trace leaves, and what is printed for it.
use vestigium.Common.{
  ℕ, ◌≡◌, ◌≢◌, refl, ap, ◌∙◌, true, false, Bool-cases, inl, inr, List, [], ◌∷◌, ◌++◌, ◌==◌, ==_iff,
  arith,
}
use mathlib.Core.List.{append_assoc}
use vestigium.Common.Exec.{ok}
use vestigium.Platform.{
  Platform, World, Message, ExitContext, Answer, done, failed, answer, say, RegisterValue, rax,
  zero_value, exit_violation, exit_gpa, exit_gva, halted_replay, halted_unreadable, stopped,
  run_failed,
}
use vestigium.Platform.Quiet.{with_lines}
use vestigium.Vmm.Partition.{VmPartition}
use vestigium.Vmm.Vcpu.{Vcpu, first, overwrite, get_registers}
use vestigium.Engine.Runner
use vestigium.Cli.Replay.{handle_vm_exit, run_rest}

first-answered :
    (values : List RegisterValue) → first (overwrite (zero_value ∷ []) values) ≡ first values
first-answered [] = refl
first-answered (v ∷ values) = refl

==_false_ne : (a b : ℕ) → (a == b) ≡ false → a ≢ b
==_false_ne a b e q = ground (arith, e, q)

module _ {p : Platform} where
  -- The lines for the end of a run, in the world it has left: the addresses of an access to memory
  -- (reason 1), RAX at a halt (reason 8), or that it cannot be read, the reason of another exit, or the
  -- code of an error.
  pub data IsReport (vcpu : Vcpu) (w : World p) : Answer ExitContext → List Message → Type 0 where
    violation :
        (exit : ExitContext)
        → exit.exit_reason ≡ 1
        → IsReport vcpu w (done exit) (exit_violation ∷ exit_gpa exit.gpa ∷ exit_gva exit.gva ∷ [])
    halt :
        (exit : ExitContext) (values : List RegisterValue)
        → exit.exit_reason ≡ 8
        → p.read_registers vcpu.partition vcpu.index (rax ∷ []) w.machine ≡ done values
        → IsReport vcpu w (done exit) (halted_replay (first values).reg64 ∷ [])
    unreadable :
        (exit : ExitContext) (code : ℕ)
        → exit.exit_reason ≡ 8
        → p.read_registers vcpu.partition vcpu.index (rax ∷ []) w.machine ≡ failed code
        → IsReport vcpu w (done exit) (halted_unreadable ∷ [])
    other :
        (exit : ExitContext)
        → exit.exit_reason ≢ 1
        → exit.exit_reason ≢ 8
        → IsReport vcpu w (done exit) (stopped exit.exit_reason ∷ [])
    broken : (code : ℕ) → IsReport vcpu w (failed code) (run_failed code ∷ [])

  abbrev Reports : Vcpu → Answer ExitContext → World p → Type 0
  Reports vcpu a w =
      (lines : List Message) × (handle_vm_exit vcpu (answer a) w ≡ (ok tt, say lines w))
      × IsReport vcpu w a lines

  say-say : (l k : List Message) (w : World p) → say k (say l w) ≡ say (l ++ k) w
  say-say l k w = ap (λ lines. with_lines lines w) (append_assoc w.printed l k)

  violation-Reports :
      (vcpu : Vcpu) (exit : ExitContext) (w : World p)
      → (exit.exit_reason == 1) ≡ true
      → Reports vcpu (done exit) w
  unfolding handle_vm_exit
  violation-Reports vcpu exit w e = (
    exit_violation ∷ exit_gpa exit.gpa ∷ exit_gva exit.gva ∷ [],
    rw e (
        ap (λ u. (ok tt, u))
          (ap (say (exit_gva exit.gva ∷ []))
              (say-say (exit_violation ∷ []) (exit_gpa exit.gpa ∷ []) w)
            ∙ say-say (exit_violation ∷ exit_gpa exit.gpa ∷ []) (exit_gva exit.gva ∷ []) w)),
    violation exit ((==_iff _ _).0 e),
  )

  halt-Reports :
      (vcpu : Vcpu) (exit : ExitContext) (w : World p) (a : Answer (List RegisterValue))
      → p.read_registers vcpu.partition vcpu.index (rax ∷ []) w.machine ≡ a
      → (exit.exit_reason == 1) ≡ false
      → (exit.exit_reason == 8) ≡ true
      → Reports vcpu (done exit) w
  unfolding handle_vm_exit get_registers
  halt-Reports vcpu exit w (done values) read one e = (
    halted_replay (first values).reg64 ∷ [],
    rw (one, e, read)
        (ap (λ (v : RegisterValue). (ok tt, say (halted_replay v.reg64 ∷ []) w))
          (first-answered values)),
    halt exit values ((==_iff _ _).0 e) read,
  )
  halt-Reports vcpu exit w (failed code) read one e =
      (halted_unreadable ∷ [], rw (one, e, read) refl, unreadable exit code ((==_iff _ _).0 e) read)

  handle_vm_exit-Reports : (vcpu : Vcpu) (a : Answer ExitContext) (w : World p) → Reports vcpu a w
  unfolding handle_vm_exit
  handle_vm_exit-Reports vcpu (failed code) w = (run_failed code ∷ [], refl, broken code)
  handle_vm_exit-Reports vcpu (done exit) w = elim (Bool-cases (exit.exit_reason == 1)) [
    | inl a ↦ violation-Reports vcpu exit w a
    | inr a ↦ elim (Bool-cases (exit.exit_reason == 8)) [
      | inl b ↦ halt-Reports vcpu exit w _ refl a b
      | inr b ↦ (
        stopped exit.exit_reason ∷ [],
        rw (a, b) refl,
        other exit (==_false_ne exit.exit_reason 1 a) (==_false_ne exit.exit_reason 8 b),
      )
    ]
  ]

  -- The run after the trace never fails the command. Whatever the processor answers, the world is the
  -- one it has left, with the lines for the answer: the addresses of an access to memory, RAX at a
  -- halt, or that it cannot be read, the reason of any other exit, or the code of an error.
  pub run_rest-IsReport :
      (partition : VmPartition) (vcpu : Vcpu) (w : World p)
      → let ran = p.run_processor partition.handle vcpu.index w.machine w.heap in
        let left : World p = record w { machine = ran.1; heap = ran.2 } in
        (lines : List Message) × (run_rest partition vcpu w ≡ (ok tt, say lines left))
        × IsReport vcpu left ran.0 lines
  unfolding run_rest Runner.run
  run_rest-IsReport partition vcpu w = handle_vm_exit-Reports vcpu _ _
