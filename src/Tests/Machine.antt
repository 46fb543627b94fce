-- ===== src/Tests/Machine.antt =====
-- A hypervisor that keeps registers and mappings, and executes RDTSC and HLT out of the guest's memory.
use Prim.Native.Nat.{bit_and}
use vestigium.Common.{
  ℕ, zero, suc, ◌+◌, ◌≡◌, refl, sym, ap, ◌∙◌, true, false, ◌&&◌, Option, none, some, [], ◌∷◌, map,
  length, ◌==◌, ==_refl, if◌then◌else◌, arith,
}
use vestigium.Platform.{
  Platform, Bytes, Heap, ExitContext, Property, processor_count, extended_vm_exits, done, rip, cr3,
}
use vestigium.Platform.Registers.{Registers, assign}
use vestigium.Vmm.Paging.Walk.{walk}
use vestigium.Engine.Replay.Translation.{Translates, host_byte}
use vestigium.Scenarios.Hypervisor.{Serves}
use vestigium.Scenarios.Execution.{Stands, Fetches, Configures, Executes}
use vestigium.Tests.Restored.{Mappings, with_range, with_range-mapped, with_range-beside}

pub record State : Type 0 where
  pub registers : ℕ → ℕ → Registers
  pub mappings : ℕ → Mappings
  pub exits : ℕ → ℕ

abbrev byte_or_0 : Option ℕ → ℕ
byte_or_0 none = 0
byte_or_0 (some b) = b

-- `n` bytes of the guest's memory.
fetch : ℕ → Heap → Mappings → ℕ → Bytes
fetch zero heap at a = []
fetch (suc n) heap at a = byte_or_0 (host_byte heap (at a)) ∷ fetch n heap at (a + 1)

-- The exit at an opcode, with the exits that are configured.
pub exit_for : ℕ → ℕ → ExitContext
exit_for exits opcode =
    if opcode == 0x0F && bit_and exits 0x8 == 0x8
    then record { exit_reason = 4099; bitfield = 2; gpa = 0; gva = 0 }
    else record { exit_reason = 8; bitfield = 1; gpa = 0; gva = 0 }

exit_for-rdtsc : (exits : ℕ) → bit_and exits 0x8 ≡ 0x8 → exit_for exits 0x0F ≡ exit_for 0x8 0x0F
unfolding exit_for
exit_for-rdtsc exits e = rw e refl

abbrev opcode_at : Heap → Mappings → Option ℕ → ℕ
opcode_at heap at none = 0
opcode_at heap at (some a) = byte_or_0 (host_byte heap (at a))

-- The opcode at RIP, through the tables at CR3.
pub fetched : Registers → Mappings → Heap → ℕ
fetched registers at heap =
    let base = (registers cr3).reg64 in
    opcode_at heap at (walk (fetch 12288 heap at base) base (registers rip).reg64)

abbrev pub set_exits : ℕ → Property → State → State
set_exits h (processor_count n) m = m
set_exits h (extended_vm_exits bits) m = record m {
  exits = λ k. if k == h then bits else m.exits k;
}

abbrev pub executing : Platform
executing = record {
  Machine = State;
  create_partition = λ m. (done 1, m);
  set_property = λ h q m. (done tt, set_exits h q m);
  setup_partition = λ h m. (done tt, m);
  delete_partition = λ h m. m;
  create_processor = λ h i m. (done tt, m);
  delete_processor = λ h i m. m;
  read_registers = λ h i names m. done (map (m.registers h i) names);
  write_registers = λ h i names values m. (
    done tt,
    record m {
      registers = λ h' i'.
          if h' == h && i' == i then assign names values (m.registers h i) else m.registers h' i';
    },
  );
  map_range = λ h host gpa size flags m. (
    done tt,
    record m {
      mappings = λ h'. if h' == h then with_range host gpa size (m.mappings h) else m.mappings h';
    },
  );
  run_processor = λ h i m heap.
      (done (exit_for (m.exits h) (fetched (m.registers h i) (m.mappings h) heap)), m, heap);
  segment = λ s. record { reg64 = s.base; high = s.limit };
  has_room = λ heap size. true;
  overflow_checks = false;
}

abbrev pub registers_of : State → ℕ → ℕ → Registers
registers_of m = m.registers

pub executing-Serves : Serves executing registers_of
executing-Serves = record {
  creates = λ m. (1, refl);
  sets = λ h q m. refl;
  sets_up = λ h m. refl;
  creates_processor = λ h i m. refl;
  maps = λ h host gpa size flags m. refl;
  reads = λ h i names m. refl;
  writes = λ h i names values m. refl;
  written = λ h i names values m n. rw (==_refl h, ==_refl i) refl;
  kept = λ h host gpa size flags m h' i n. refl;
}

pub executing-Translates : (h : ℕ) → Translates executing h (λ m. m.mappings h)
executing-Translates h = record {
  mapped = λ host gpa size flags m a e low high.
      rw (==_refl h) (with_range-mapped host gpa size (m.mappings h) a low high);
  beside = λ host gpa size flags m a out.
      rw (==_refl h) (with_range-beside host gpa size (m.mappings h) a out);
  written = λ h' i names values m a. refl;
}

fetch-Stands :
    (bytes : Bytes) (heap : Heap) (at : Mappings) (a : ℕ)
    → Stands heap at a bytes
    → fetch (length bytes) heap at a ≡ bytes
unfolding fetch
fetch-Stands [] heap at a s = refl
fetch-Stands (b ∷ bytes) heap at a s =
    let here : host_byte heap (at a) ≡ some b =
      ap (λ x. host_byte heap (at x)) (omega arith) ∙ s 0 b refl in
    λ i.
      byte_or_0 (here i)
      ∷ fetch-Stands bytes heap at (a + 1)
          (λ k c e. ap (λ x. host_byte heap (at x)) (omega arith) ∙ s (suc k) c e) i

fetched-Fetches :
    (registers : Registers) (at : Mappings) (heap : Heap) (opcode : ℕ) (rest : Bytes)
    → Fetches registers at heap (opcode ∷ rest)
    → fetched registers at heap ≡ opcode
unfolding fetched
fetched-Fetches registers at heap opcode rest f =
    (λ i.
      opcode_at heap at (
        walk (fetch 12288 heap at (f.tables_at i).reg64) (f.tables_at i).reg64 (f.next_at i).reg64))
    ∙ ap (λ t. opcode_at heap at (walk t f.base f.next))
        (ap (λ n. fetch n heap at f.base) (sym f.sized)
          ∙ fetch-Stands f.table heap at f.base f.tables)
    ∙ ap (opcode_at heap at) f.walks
    ∙ ap byte_or_0 (ap (λ x. host_byte heap (at x)) (omega arith) ∙ f.code_stands 0 opcode refl)

pub executing-Configures : Configures executing (λ m. m.exits)
executing-Configures = record {
  configured = λ h bits m e. rw (==_refl h);
  created = λ h i m k. refl;
  mapped = λ h host gpa size flags m k. refl;
  written = λ h i names values m k. refl;
}

pub executing-Executes : Executes executing registers_of (λ h m. m.mappings h) (λ m. m.exits)
unfolding exit_for
executing-Executes = record {
  rdtsc = λ h i m heap set f.
      let same = fetched-Fetches (m.registers h i) (m.mappings h) heap 0x0F (0x31 ∷ []) f in
      (
        record {
          exit = exit_for 8 0x0F;
          after = m;
          run =
              ap (λ o. (done (exit_for (m.exits h) o), m, heap)) same
              ∙ ap (λ e. (done e, m, heap)) (exit_for-rdtsc (m.exits h) set);
          mapped = refl;
        },
        refl,
        refl,
        λ n. refl,
      );
  hlt = λ h i m heap f.
      let same = fetched-Fetches (m.registers h i) (m.mappings h) heap 0xF4 [] f in
      (
        record {
          exit = exit_for (m.exits h) 0xF4;
          after = m;
          run = ap (λ o. (done (exit_for (m.exits h) o), m, heap)) same;
          mapped = refl;
        },
        refl,
        refl,
      );
}
