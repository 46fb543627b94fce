-- ===== src/Tests/Toy.antt =====
-- A platform for tests: one processor, whose guest is RDTSC at 0, CPUID at 2, VMCALL at 4, HLT at 7.
use vestigium.Common.{ℕ, Bool, true, false, List, [], ◌∷◌, map, ◌==◌, if◌then◌else◌}
use vestigium.Platform.Registers.{number}
use vestigium.Platform.{Platform, World, done, RegisterName, RegisterValue, zero_value, ExitContext}

-- The registers by number.
abbrev pub File : Type 0
File = ℕ → RegisterValue

abbrev pub write : List RegisterName → List RegisterValue → File → File
write [] values file = file
write (n ∷ names) [] file = file
write (n ∷ names) (v ∷ values) file = write names values (λ k. if k == number n then v else file k)

abbrev pub exit_at : ℕ → ExitContext
exit_at at =
    if at == 0
    then record { exit_reason = 4099; bitfield = 0xF2; gpa = 0; gva = 0 }
    else if at == 2
    then record { exit_reason = 4097; bitfield = 0x12; gpa = 0; gva = 0 }
    else if at == 4
    then record { exit_reason = 4; bitfield = 0x03; gpa = 0; gva = 0 }
    else record { exit_reason = 8; bitfield = 0x01; gpa = 0; gva = 0 }

abbrev pub toy_of : (ℕ → ExitContext) → Bool → Platform
toy_of guest checks = record {
  Machine = File;
  create_partition = λ m. (done 1, m);
  set_property = λ h q m. (done tt, m);
  setup_partition = λ h m. (done tt, m);
  delete_partition = λ h m. m;
  create_processor = λ h i m. (done tt, m);
  delete_processor = λ h i m. m;
  read_registers = λ h i names m. done (map (λ n. m (number n)) names);
  write_registers = λ h i names values m. (done tt, write names values m);
  map_range = λ h a g s f m. (done tt, m);
  run_processor = λ h i m heap. (done (guest (m 4).reg64), m, heap);
  segment = λ s. record { reg64 = s.base; high = s.limit };
  has_room = λ heap size. true;
  overflow_checks = checks;
}

abbrev pub toy : Platform
toy = toy_of exit_at false

abbrev pub start : World toy
start = record { machine = λ k. zero_value; heap = []; printed = [] }
