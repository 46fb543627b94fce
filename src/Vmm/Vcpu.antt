-- ===== src/Vmm/Vcpu.antt =====
-- crates/vmm/src/vcpu.rs: a virtual processor and its registers.
use vestigium.Common.{ℕ, List, [], ◌∷◌, length, ◌==◌}
use vestigium.Common.Exec.{Exec, pure, assert, ◌>>=◌, ◌>>◌}
use vestigium.Platform.{
  Platform, World, RegisterName, RegisterValue, SegmentRegister, of_reg64, zero_value, api, query,
  ignored, cr0, cr3, cr4, efer, cs, ds, es, fs, gs, ss, tr, ldtr, rflags,
}

pub record Vcpu : Type 0 where
  pub partition : ℕ
  pub index : ℕ

-- The values that the API has written over those of the caller's buffer.
abbrev pub overwrite : List RegisterValue → List RegisterValue → List RegisterValue
overwrite [] answers = []
overwrite (v ∷ vs) [] = v ∷ vs
overwrite (v ∷ vs) (a ∷ answers) = a ∷ overwrite vs answers

-- `values[0]` of a buffer of one value.
abbrev pub first : List RegisterValue → RegisterValue
first [] = zero_value
first (v ∷ vs) = v

-- Constants of the source.
abbrev pub msr_ia32_fixed_ctr0 : ℕ
msr_ia32_fixed_ctr0 = 0x309

abbrev pub msr_ia32_fixed_ctr_ctrl : ℕ
msr_ia32_fixed_ctr_ctrl = 0x38D

abbrev pub code_segment : SegmentRegister
code_segment = record { base = 0; limit = 0xFFFFFFFF; selector = 0x08; attributes = 0xA09B }

abbrev pub data_segment : SegmentRegister
data_segment = record { base = 0; limit = 0xFFFFFFFF; selector = 0x10; attributes = 0xC093 }

abbrev pub task_segment : SegmentRegister
task_segment = record { base = 0; limit = 0xFFFF; selector = 0x18; attributes = 0x008B }

abbrev pub local_table : SegmentRegister
local_table = record { base = 0; limit = 0; selector = 0; attributes = 0 }

abbrev pub long_mode_names : List RegisterName
long_mode_names = cr3 ∷ cr4 ∷ efer ∷ cr0 ∷ cs ∷ ds ∷ es ∷ fs ∷ gs ∷ ss ∷ tr ∷ ldtr ∷ rflags ∷ []

abbrev pub long_mode_values : Platform → ℕ → List RegisterValue
long_mode_values p pml4_gpa =
    of_reg64 pml4_gpa
    ∷ of_reg64 0x00000620
    ∷ of_reg64 0x00000500
    ∷ of_reg64 0x80000031
    ∷ p.segment code_segment
    ∷ p.segment data_segment
    ∷ p.segment data_segment
    ∷ p.segment data_segment
    ∷ p.segment data_segment
    ∷ p.segment data_segment
    ∷ p.segment task_segment
    ∷ p.segment local_table
    ∷ of_reg64 0x00000002
    ∷ []

module _ {p : Platform} where
  -- `Vcpu::new`.
  unfoldable pub new : ℕ → ℕ → Exec (World p) Vcpu
  new partition index = do
    api (p.create_processor partition index)
    pure (record { partition = partition; index = index })

  unfoldable pub get_registers :
      Vcpu → List RegisterName → List RegisterValue → Exec (World p) (List RegisterValue)
  get_registers vcpu names values = do
    assert (length names == length values)
    answers ← query (p.read_registers vcpu.partition vcpu.index names)
    pure (overwrite values answers)

  unfoldable pub set_registers :
      Vcpu → List RegisterName → List RegisterValue → Exec (World p) (Unit {0})
  set_registers vcpu names values = do
    assert (length names == length values)
    api (p.write_registers vcpu.partition vcpu.index names values)

  unfoldable pub setup_long_mode : Vcpu → ℕ → Exec (World p) (Unit {0})
  setup_long_mode vcpu pml4_gpa = set_registers vcpu long_mode_names (long_mode_values p pml4_gpa)

  -- `Drop for Vcpu`.
  unfoldable pub drop_vcpu : Vcpu → Exec (World p) (Unit {0})
  drop_vcpu vcpu = ignored (p.delete_processor vcpu.partition vcpu.index)
