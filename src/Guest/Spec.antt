-- ===== src/Guest/Spec.antt =====
-- The abstract recorder: what a recording of a program is, with no processor and no registers.
use vestigium.Common.{ℕ, zero, suc, ◌+◌, ◌%◌, ◌^◌, Option, none, some, List, [], ◌∷◌}
use vestigium.Trace.{TraceEvent, EventType, rdtsc, cpuid, context_switch}
use vestigium.Engine.Record.{sim_rax, sim_rdx, sim_eax, sim_ebx, sim_ecx, sim_edx}
use vestigium.Guest.{Program, Stop, at_hlt, at_vmcall, at_rdtsc, at_cpuid, nothing, ticks, ids}

-- The events of a recording and the value of RAX at its end.
pub record Recording : Type 0 where
  pub events : List TraceEvent
  pub final_rax : ℕ

abbrev pub logged : ℕ → EventType → Option Recording → Option Recording
logged count event none = none
logged count event (some r) =
    some (record r { events = record { instruction_count = count; event = event } ∷ r.events })

-- The recording from a stop, which is logged with the number of the event and answered with the
-- recorder's constants; `rest` is the recording from the next point.
abbrev pub record_stop :
    (prog : Program) → prog.Point → ℕ → (prog.Point → Option Recording) → Stop → Option Recording
record_stop prog point count rest (at_hlt rax) = some (record { events = []; final_rax = rax })
record_stop prog point count rest (at_vmcall thread) =
    logged count (context_switch (thread % 2 ^ 32)) (rest (prog.resume point nothing))
record_stop prog point count rest at_rdtsc =
    logged count (rdtsc sim_rax sim_rdx) (rest (prog.resume point (ticks sim_rax sim_rdx)))
record_stop prog point count rest at_cpuid =
    logged count (cpuid sim_eax sim_ebx sim_ecx sim_edx)
      (rest (prog.resume point (ids sim_eax sim_ebx sim_ecx sim_edx)))

-- The recording of a program from a point, if it halts within the fuel.
unfoldable pub spec_recording : ℕ → (prog : Program) → prog.Point → ℕ → Option Recording
spec_recording zero prog point count = none
spec_recording (suc fuel) prog point count =
    record_stop prog point count (λ next. spec_recording fuel prog next (count + 1))
      (prog.stop point)
