-- ===== src/Platform/Types.antt =====
-- The types of the hypervisor's bindings that the program names.
use vestigium.Common.{ℕ}

-- `WHV_REGISTER_NAME`: the registers that the program names.
pub data RegisterName : Type 0 where
  rax rbx rcx rdx rip rsp rflags cr0 cr3 cr4 efer cs ds es fs gs ss tr ldtr : RegisterName

-- `WHV_REGISTER_VALUE`, a union of 16 bytes: its two halves. `Reg64` is the low one.
pub record RegisterValue : Type 0 where
  pub reg64 : ℕ
  pub high : ℕ

abbrev pub zero_value : RegisterValue
zero_value = record { reg64 = 0; high = 0 }

-- `WHV_REGISTER_VALUE { Reg64: x }`.
abbrev pub of_reg64 : ℕ → RegisterValue
of_reg64 x = record { reg64 = x; high = 0 }

-- `WHV_X64_SEGMENT_REGISTER`.
pub record SegmentRegister : Type 0 where
  pub base : ℕ
  pub limit : ℕ
  pub selector : ℕ
  pub attributes : ℕ

-- `WHV_PARTITION_PROPERTY`: the two members that the program writes.
pub data Property : Type 0 where
  processor_count : ℕ → Property
  extended_vm_exits : ℕ → Property

-- `WHV_RUN_VP_EXIT_CONTEXT`: the reason, the bit field of `VpContext`, and `MemoryAccess`.
pub record ExitContext : Type 0 where
  pub exit_reason : ℕ
  pub bitfield : ℕ
  pub gpa : ℕ
  pub gva : ℕ

-- What a call of the platform's API returns: a value, or the code of an error.
pub data Answer (A : Type 0) : Type 0 where
  done : A → Answer A
  failed : ℕ → Answer A
