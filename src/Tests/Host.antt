-- ===== src/Tests/Host.antt =====
-- A processor that runs a program: every intercepted instruction stands at the address 0, and the
-- program goes on once it has been stepped over.
use vestigium.Common.{◌≡◌, refl, true, [], ◌∷◌, map, ◌==◌, if◌then◌else◌}
use vestigium.Platform.{Platform, World, done, of_reg64, zero_value, ExitContext}
use vestigium.Vmm.Partition.{VmPartition}
use vestigium.Vmm.Vcpu.{Vcpu, get_registers, set_registers}
use vestigium.Engine.Runner
use vestigium.Engine.Record.{advance_rip}
use vestigium.Guest.{
  Program, Stop, at_hlt, at_vmcall, at_rdtsc, at_cpuid, Reply, nothing, ticks, ids,
}
use vestigium.Guest.Hosts.{Hosts}
use vestigium.Platform.Registers.{number}
use vestigium.Tests.Toy.{File, write}

abbrev pub exit_for : Stop → ExitContext
exit_for (at_hlt value) = record { exit_reason = 8; bitfield = 1; gpa = 0; gva = 0 }
exit_for (at_vmcall value) = record { exit_reason = 4; bitfield = 3; gpa = 0; gva = 0 }
exit_for at_rdtsc = record { exit_reason = 4099; bitfield = 2; gpa = 0; gva = 0 }
exit_for at_cpuid = record { exit_reason = 4097; bitfield = 2; gpa = 0; gva = 0 }

-- the registers at a stop: RAX or RCX, and RIP
abbrev pub file_for : Stop → File → File
file_for (at_hlt value) file k =
    if k == 0 then of_reg64 value else if k == 4 then zero_value else file k
file_for (at_vmcall value) file k =
    if k == 2 then of_reg64 value else if k == 4 then zero_value else file k
file_for at_rdtsc file k = if k == 4 then zero_value else file k
file_for at_cpuid file k = if k == 4 then zero_value else file k

abbrev pub reply_of : Stop → File → Reply
reply_of (at_hlt value) file = nothing
reply_of (at_vmcall value) file = nothing
reply_of at_rdtsc file = ticks (file 0).reg64 (file 3).reg64
reply_of at_cpuid file = ids (file 0).reg64 (file 1).reg64 (file 2).reg64 (file 3).reg64

-- where the program gets to from its registers
abbrev pub reached : (prog : Program) → File → prog.Point → prog.Point
reached prog file point =
    if (file 4).reg64 == 0 then point else prog.resume point (reply_of (prog.stop point) file)

abbrev pub host_of : Program → Platform
host_of prog = record {
  Machine = File × prog.Point;
  create_partition = λ m. (done 1, m);
  set_property = λ h q m. (done tt, m);
  setup_partition = λ h m. (done tt, m);
  delete_partition = λ h m. m;
  create_processor = λ h i m. (done tt, m);
  delete_processor = λ h i m. m;
  read_registers = λ h i names m. done (map (λ n. m.0 (number n)) names);
  write_registers = λ h i names values m. (done tt, (write names values m.0, m.1));
  map_range = λ h a g s f m. (done tt, m);
  run_processor = λ h i m heap.
      let point = reached prog m.0 m.1 in
      (done (exit_for (prog.stop point)), (file_for (prog.stop point) m.0, point), heap);
  segment = λ s. record { reg64 = s.base; high = s.limit };
  has_room = λ heap size. true;
  overflow_checks = true;
}

module _ (prog : Program) (part : VmPartition) (v : Vcpu) where
  abbrev pub At : prog.Point → World (host_of prog) → Type 0
  At point w = reached prog w.machine.0 w.machine.1 ≡ point

  pub host_of-Hosts : Hosts part v prog At
  unfolding Runner.run get_registers set_registers advance_rip
  host_of-Hosts = record {
    halts = λ point w value at stops. (
      record {
        exit = exit_for (at_hlt value);
        after = record w { machine = (file_for (at_hlt value) w.machine.0, point) };
        run = rw (at, stops);
        for_reason = refl;
      },
      of_reg64 value ∷ [],
      refl,
      refl,
    );
    calls = λ point w value at stops. (
      record {
        exit = exit_for (at_vmcall value);
        after = record w { machine = (file_for (at_vmcall value) w.machine.0, point) };
        run = rw (at, stops);
        for_reason = refl;
      },
      of_reg64 value ∷ [],
      refl,
      refl,
      record { next = _; steps = refl; there = rw stops },
    );
    reads_ticks = λ point w a d at stops. (
      record {
        exit = exit_for at_rdtsc;
        after = record w { machine = (file_for at_rdtsc w.machine.0, point) };
        run = rw (at, stops);
        for_reason = refl;
      },
      record {
        written = _;
        writes = refl;
        then = record { next = _; steps = refl; there = rw stops };
      },
    );
    reads_ids = λ point w a b c d at stops. (
      record {
        exit = exit_for at_cpuid;
        after = record w { machine = (file_for at_cpuid w.machine.0, point) };
        run = rw (at, stops);
        for_reason = refl;
      },
      record {
        written = _;
        writes = refl;
        then = record { next = _; steps = refl; there = rw stops };
      },
    );
  }
