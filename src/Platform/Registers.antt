-- ===== src/Platform/Registers.antt =====
-- A processor's registers as a function of their names.
use vestigium.Common.{ℕ, List, [], ◌∷◌, ◌==◌, if◌then◌else◌}
use vestigium.Platform.Types.{
  RegisterName, RegisterValue, rax, rbx, rcx, rdx, rip, rsp, rflags, cr0, cr3, cr4, efer, cs, ds,
  es, fs, gs, ss, tr, ldtr,
}

-- The registers, numbered, so that names can be compared.
abbrev pub number : RegisterName → ℕ
number rax = 0
number rbx = 1
number rcx = 2
number rdx = 3
number rip = 4
number rsp = 5
number rflags = 6
number cr0 = 7
number cr3 = 8
number cr4 = 9
number efer = 10
number cs = 11
number ds = 12
number es = 13
number fs = 14
number gs = 15
number ss = 16
number tr = 17
number ldtr = 18

abbrev pub Registers : Type 0
Registers = RegisterName → RegisterValue

-- The registers once values have been written to names, one after the other.
abbrev pub assign : List RegisterName → List RegisterValue → Registers → Registers
assign [] values file = file
assign (n ∷ names) [] file = file
assign (n ∷ names) (v ∷ values) file =
    assign names values (λ k. if number k == number n then v else file k)
