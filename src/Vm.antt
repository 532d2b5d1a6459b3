-- ===== src/Vm.antt =====
-- The data of the virtual machine: kernel/vm/vm_types.h.
-- A pointer is a number, and `null` is 0. A buffer is the list of its bytes.
pub mod Opcode
pub mod Reg
pub mod Step
pub mod Invariant
pub mod Safety
pub mod Escape
use xhopin.Base.{ℕ, List}

-- `VMState`
pub data VmState : Type 0 where
  ready running halted error : VmState

-- `AppHeader`, its fields in the order of the file
pub record AppHeader : Type 0 where
  pub magic : ℕ
  pub name : List ℕ
  pub version : ℕ
  pub code_size : ℕ
  pub ram_size : ℕ
  pub entry_point : ℕ
  pub capabilities : ℕ
  pub checksum : ℕ

-- `VMContext`. `gp` is the register bank; `code` holds the bytes at `code_buffer`, of which
-- the machine may hold more than `code_size`; `ram_ptr` is the address of `ram_buffer`.
pub record Vm : Type 0 where
  pub pc : ℕ
  pub gp : List ℕ
  pub code : List ℕ
  pub code_size : ℕ
  pub ram : List ℕ
  pub ram_ptr : ℕ
  pub ram_size : ℕ
  pub state : VmState
  pub capabilities : ℕ
  pub name : List ℕ
  pub ref_count : ℕ
