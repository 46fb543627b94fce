-- ===== src/Scenarios/Execution.antt =====
-- How the processor executes the two instructions of the pipeline's guest, RDTSC and HLT.
use Prim.Native.Nat.{bit_and}
use vestigium.Common.{ℕ, ◌+◌, ◌≡◌, List, [], ◌∷◌, Option, some, get_elem?, length}
use vestigium.Platform.{
  Platform, Bytes, Heap, ExitContext, RegisterName, RegisterValue, extended_vm_exits, of_reg64,
  done, rip, rax, cr0, cr3, cr4, efer,
}
use vestigium.Platform.Registers.{Registers}
use vestigium.Vmm.Paging.Walk.{walk}
use vestigium.Engine.Replay.Translation.{host_byte}

-- Bytes in a guest's physical memory.
abbrev pub Stands : Heap → (ℕ → Option (ℕ × ℕ)) → ℕ → Bytes → Type 0
Stands heap at address bytes =
    (k b : ℕ) → get_elem? bytes k ≡ some b → host_byte heap (at (address + k)) ≡ some b

-- A processor in 64-bit long mode, whose tables, at CR3, lead from RIP to some code.
pub record Fetches (registers : Registers) (at : ℕ → Option (ℕ × ℕ)) (heap : Heap) (code : Bytes)
    : Type 0 where
  pub protected : registers cr0 ≡ of_reg64 0x80000031
  pub extended : registers cr4 ≡ of_reg64 0x620
  pub long : registers efer ≡ of_reg64 0x500
  pub base : ℕ
  pub tables_at : registers cr3 ≡ of_reg64 base
  pub table : Bytes
  pub sized : length table ≡ 12288
  pub tables : Stands heap at base table
  pub next : ℕ
  pub next_at : registers rip ≡ of_reg64 next
  pub physical : ℕ
  pub walks : walk table base next ≡ some physical
  pub code_stands : Stands heap at physical code

-- A run that leaves memory and mappings as they are.
pub record Leaves (p : Platform) (at : p.Machine → ℕ → Option (ℕ × ℕ)) (h i : ℕ) (m : p.Machine)
    (heap : Heap) : Type 0 where
  pub exit : ExitContext
  pub after : p.Machine
  pub run : p.run_processor h i m heap ≡ (done exit, after, heap)
  pub mapped : at after ≡ at m

-- The extended exits that are configured for a partition: those that the property was last set to,
-- which the making of a processor, the mappings and the registers leave alone.
pub record Configures (p : Platform) (exits : p.Machine → ℕ → ℕ) : Type 0 where
  pub configured :
      (h bits : ℕ) (m : p.Machine)
      → (p.set_property h (extended_vm_exits bits) m).0 ≡ done tt
      → exits (p.set_property h (extended_vm_exits bits) m).1 h ≡ bits
  pub created : (h i : ℕ) (m : p.Machine) (k : ℕ) → exits (p.create_processor h i m).1 k ≡ exits m k
  pub mapped :
      (h host gpa size flags : ℕ) (m : p.Machine) (k : ℕ)
      → exits (p.map_range h host gpa size flags m).1 k ≡ exits m k
  pub written :
      (h i : ℕ) (names : List RegisterName) (values : List RegisterValue) (m : p.Machine) (k : ℕ)
      → exits (p.write_registers h i names values m).1 k ≡ exits m k

-- RDTSC is intercepted in a partition that is configured for its exits (bit 3), and HLT in any: RDTSC before it is executed, with its length of two bytes, and
-- HLT with RAX as it is.
pub record Executes (p : Platform) (file : p.Machine → ℕ → ℕ → Registers)
    (at : ℕ → p.Machine → ℕ → Option (ℕ × ℕ)) (exits : p.Machine → ℕ → ℕ) : Type 0 where
  pub rdtsc :
      (h i : ℕ) (m : p.Machine) (heap : Heap)
      → bit_and (exits m h) 0x8 ≡ 0x8
      → Fetches (file m h i) (at h m) heap (0x0F ∷ 0x31 ∷ [])
      → (e : Leaves p (at h) h i m heap) × (e.exit.exit_reason ≡ 4099)
        × (bit_and e.exit.bitfield 0x0F ≡ 2)
        × ((n : RegisterName) → file e.after h i n ≡ file m h i n)
  pub hlt :
      (h i : ℕ) (m : p.Machine) (heap : Heap)
      → Fetches (file m h i) (at h m) heap (0xF4 ∷ [])
      → (e : Leaves p (at h) h i m heap) × (e.exit.exit_reason ≡ 8)
        × (file e.after h i rax ≡ file m h i rax)
