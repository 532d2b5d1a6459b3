-- ===== src/Vm/Opcode.antt =====
-- The instructions: kernel/vm/opcodes.h.
use xhopin.Base.{ℕ, Option, none, some, ◌==◌, if◌then◌else◌}

pub data Opcode : Type 0 where
  add sub addi and or mov lui xor nor sll srl sra : Opcode
  load store loadb storeb : Opcode
  beq bne slt jmp call ret halt : Opcode

-- The labels of the switch in `vm_step`: an instruction of the machine, the system call, `default`.
pub data Label : Type 0 where
  plain : Opcode → Label
  vcall illegal : Label

-- The `OP_` constants of the arithmetic, logic and shift instructions.
unfoldable pub compute_opcode : ℕ → Option Opcode
compute_opcode c =
    if c == 0x01
    then some add
    else if c == 0x02
    then some sub
    else if c == 0x03
    then some addi
    else if c == 0x10
    then some and
    else if c == 0x11
    then some or
    else if c == 0x12
    then some mov
    else if c == 0x13
    then some lui
    else if c == 0x14
    then some xor
    else if c == 0x15
    then some nor
    else if c == 0x40
    then some sll
    else if c == 0x41
    then some srl
    else if c == 0x42
    then some sra
    else none

-- The `OP_` constants of the memory, control flow and system instructions.
unfoldable pub control_opcode : ℕ → Option Opcode
control_opcode c =
    if c == 0x20
    then some load
    else if c == 0x21
    then some store
    else if c == 0x22
    then some loadb
    else if c == 0x23
    then some storeb
    else if c == 0x30
    then some beq
    else if c == 0x31
    then some bne
    else if c == 0x32
    then some slt
    else if c == 0x33
    then some jmp
    else if c == 0x34
    then some call
    else if c == 0x35
    then some ret
    else if c == 0xFF
    then some halt
    else none

unfoldable pub label_of : ℕ → Label
unfolding compute_opcode control_opcode
label_of c = if c == 0x50 then vcall else elim (compute_opcode c) [
  | some op ↦ plain op
  | none ↦ elim (control_opcode c) [ some op ↦ plain op | none ↦ illegal ]
]
