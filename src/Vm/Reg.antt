-- ===== src/Vm/Reg.antt =====
-- The places of the named registers in the bank: the union `VM_Registers` of kernel/vm/vm_types.h.
use xhopin.Base.{ℕ}

abbrev pub zero : ℕ
zero = 0

abbrev pub v0 : ℕ
v0 = 2

abbrev pub a0 : ℕ
a0 = 4

abbrev pub a1 : ℕ
a1 = 5

abbrev pub a2 : ℕ
a2 = 6

abbrev pub k0 : ℕ
k0 = 26

abbrev pub sp : ℕ
sp = 29

abbrev pub ra : ℕ
ra = 31
