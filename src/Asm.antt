-- ===== src/Asm.antt =====
-- The assembler, asm/vm_asm.c: the encoding of one statement, at the end of `assemble_line`. Its
-- operands are already numbers: what `reg_to_num` returned, as the eight bits that it is stored in,
-- and what `resolve_value` returned. `unknown` is a statement whose name no test knows.
pub mod Text
pub mod Operand
pub mod Line
pub mod Passes
pub mod First
pub mod Second
pub mod Labels
pub mod Registers
pub mod Immediate
pub mod Ready
pub mod Layout
pub mod Accepted
pub mod Fields
use Prim.Native.Nat.{bit_or}
use xhopin.Base.{ℕ, ◌+◌, ◌*◌, ◌/◌, ◌%◌, ◌^◌}
use xhopin.Word.{sub32}

pub data Statement : Type 0 where
  add sub : ℕ → ℕ → ℕ → Statement
  addi loadw loadb : ℕ → ℕ → ℕ → Statement
  storew storeb : ℕ → ℕ → ℕ → Statement
  lui : ℕ → ℕ → Statement
  mov : ℕ → ℕ → Statement
  beq bne : ℕ → ℕ → ℕ → Statement
  jmp call : ℕ → Statement
  ret vcall halt : Statement
  unknown : Statement

-- `(opcode << 24) | (rd << 16) | (rs << 8) | (rt & 0xFF)`: the fields do not meet.
abbrev pub word3 : ℕ → ℕ → ℕ → ℕ → ℕ
word3 opcode rd rs rt = opcode * 2 ^ 24 + rd * 2 ^ 16 + rs * 2 ^ 8 + rt

-- `(opcode << 24) | (rd << 16) | (rs << 8) | (uint16_t) imm`: the last two do meet.
abbrev pub word_imm : ℕ → ℕ → ℕ → ℕ → ℕ
word_imm opcode rd rs imm = opcode * 2 ^ 24 + rd * 2 ^ 16 + bit_or (rs * 2 ^ 8) (imm % 2 ^ 16)

-- `(int16_t) ((target - pc - 4) / 4)`, a division of a `uint32_t`
abbrev pub offset : ℕ → ℕ → ℕ
offset pc target = sub32 (sub32 target pc) 4 / 4

-- The value of ADDI is the one after `hi(...)` or `lo(...)` was applied.
unfoldable pub encode : ℕ → Statement → ℕ
encode pc (add rd rs rt) = word3 0x01 rd rs rt
encode pc (sub rd rs rt) = word3 0x02 rd rs rt
encode pc (addi rd rs val) = word_imm 0x03 rd rs val
encode pc (lui rd val) = word_imm 0x13 rd 0 (val / 2 ^ 16)
encode pc (mov rd rs) = word3 0x12 rd rs 0
encode pc (loadw rd rs imm) = word_imm 0x20 rd rs imm
encode pc (storew base imm source) = word_imm 0x21 source base imm
encode pc (loadb rd rs imm) = word_imm 0x22 rd rs imm
encode pc (storeb base imm source) = word_imm 0x23 source base imm
encode pc (beq rd rs target) = word_imm 0x30 rd rs (offset pc target)
encode pc (bne rd rs target) = word_imm 0x31 rd rs (offset pc target)
encode pc (jmp target) = 0x33 * 2 ^ 24 + target % 2 ^ 24
encode pc (call target) = 0x34 * 2 ^ 24 + target % 2 ^ 24
encode pc ret = 0x3500_0000
encode pc vcall = 0x5000_0000
encode pc halt = 0xFF00_0000
encode pc unknown = 0
