-- ===== src/Vm/Step.antt =====
-- One instruction: `vm_step` of kernel/vm/vm_core.c, and its loop.
-- The dispatcher of system calls is a parameter, since it lies behind this file in the program: it
-- takes the calling machine and the kernel's state, and may change both.
use Prim.Native.Nat.{bit_and, bit_or, bit_xor}
use xhopin.Base.{
  ℕ, zero, suc, ◌/◌, ◌%◌, ◌^◌, Bool, true, false, ◌&&◌, ltb, leb, ◌==◌, if◌then◌else◌, length,
  get_elem?, set, Run, ok, wild, spin, or_wild, ◌>>=◌,
}
use xhopin.Word.{
  add32, sub32, sign8, sign16, not32, shl32, shr32, sar32, read_byte, write_byte, read_word,
  write_word,
}
use xhopin.Vm.{Vm, VmState, running, halted, error}
use xhopin.Vm.Opcode.{
  Opcode, add, sub, addi, and, or, mov, lui, xor, nor, sll, srl, sra, load, store, loadb, storeb,
  beq, bne, slt, jmp, call, ret, halt, Label, plain, vcall, illegal, label_of,
}
use xhopin.Vm.Reg

-- `vm->regs.gp[i]` read and written. The bank has 32 places and an index has eight bits.
unfoldable pub reg : Vm → ℕ → Run ℕ
reg vm i = or_wild (get_elem? vm.gp i)

unfoldable pub set_reg : Vm → ℕ → ℕ → Run Vm
set_reg vm i v = if ltb i (length vm.gp) then ok (record vm { gp = set vm.gp i v }) else wild

-- The fields of an instruction word.
pub record Instr : Type 0 where
  pub rd : ℕ
  pub rs : ℕ
  pub rt : ℕ
  pub imm : ℕ
  pub shamt : ℕ
  pub target : ℕ

-- The immediate is kept sign-extended to 32 bits.
unfoldable pub decode : ℕ → Instr
decode instr = record {
  rd = (instr / 2 ^ 16) % 0x100;
  rs = (instr / 2 ^ 8) % 0x100;
  rt = instr % 0x100;
  imm = sign16 (instr % 2 ^ 16);
  shamt = instr % 0x20;
  target = instr % 2 ^ 24;
}

-- How the switch is left: by `break`, by `break` with `pc_jumped` set, or by `return`.
pub data Flow : Type 0 where
  next jumped leave : Vm → Flow

abbrev fail : Vm → Vm
fail vm = record vm { state = error }

-- `gp[rd] = f (gp[rs], gp[rt])`
unfoldable pub compute3 : (ℕ → ℕ → ℕ) → Instr → Vm → Run Flow
unfolding reg set_reg
compute3 f i vm = do a ← reg vm i.rs; b ← reg vm i.rt; vm' ← set_reg vm i.rd (f a b); ok (next vm')

-- `gp[rd] = f (gp[r])`
unfoldable pub compute2 : (ℕ → ℕ) → ℕ → Instr → Vm → Run Flow
unfolding reg set_reg
compute2 f r i vm = do a ← reg vm r; vm' ← set_reg vm i.rd (f a); ok (next vm')

-- The guard of the word accesses. `addr + 4` is a 32-bit sum.
abbrev pub word_ok : Vm → ℕ → Bool
word_ok vm addr = addr % 4 == 0 && leb (add32 addr 4) vm.ram_size

unfoldable pub load_word : Instr → Vm → Run Flow
unfolding reg set_reg
load_word i vm = do
  base ← reg vm i.rs
  let addr = add32 base i.imm
  if word_ok vm addr
      then (do w ← read_word vm.ram addr; vm' ← set_reg vm i.rd w; ok (next vm'))
      else ok (next (fail vm))

unfoldable pub store_word : Instr → Vm → Run Flow
unfolding reg set_reg
store_word i vm = do
  base ← reg vm i.rs
  let addr = add32 base i.imm
  if word_ok vm addr
      then (do w ← reg vm i.rd; m ← write_word vm.ram addr w; ok (next (record vm { ram = m })))
      else ok (next (fail vm))

unfoldable pub load_byte : Instr → Vm → Run Flow
unfolding reg set_reg
load_byte i vm = do
  a ← reg vm i.rs
  b ← reg vm i.rt
  let addr = add32 a b
  if ltb addr vm.ram_size
      then (do v ← read_byte vm.ram addr; vm' ← set_reg vm i.rd v; ok (next vm'))
      else ok (next (fail vm))

unfoldable pub store_byte : Instr → Vm → Run Flow
unfolding reg set_reg
store_byte i vm = do
  a ← reg vm i.rd
  b ← reg vm i.rs
  let addr = add32 a b
  if ltb addr vm.ram_size
      then (do v ← reg vm i.rt; m ← write_byte vm.ram addr v; ok (next (record vm { ram = m })))
      else ok (next (fail vm))

-- `pc += (imm << 2)` if the test of `gp[rd]` and `gp[rs]` says so.
unfoldable pub branch : (ℕ → ℕ → Bool) → Instr → Vm → Run Flow
unfolding reg
branch test i vm = do
  a ← reg vm i.rd
  b ← reg vm i.rs
  if test a b then ok (jumped (record vm { pc = add32 vm.pc (shl32 i.imm 2) })) else ok (next vm)

abbrev pub less_than : ℕ → ℕ → ℕ
less_than a b = if ltb a b then 1 else 0

abbrev pub differs : ℕ → ℕ → Bool
differs a b = if a == b then false else true

-- The cases of the switch, but for the system call.
unfoldable pub execute : Opcode → Instr → Vm → Run Flow
unfolding compute3 compute2 load_word store_word load_byte store_byte branch
execute add i vm = compute3 add32 i vm
execute sub i vm = compute3 sub32 i vm
execute addi i vm = compute2 (λ a. add32 a (sign8 i.rt)) i.rs i vm
execute and i vm = compute3 bit_and i vm
execute or i vm = compute3 bit_or i vm
execute mov i vm = compute2 (λ a. a) i.rs i vm
execute lui i vm = do vm' ← set_reg vm i.rd (shl32 i.imm 16); ok (next vm')
execute xor i vm = compute3 bit_xor i vm
execute nor i vm = compute3 (λ a b. not32 (bit_or a b)) i vm
execute sll i vm = compute2 (λ a. shl32 a i.shamt) i.rt i vm
execute srl i vm = compute2 (λ a. shr32 a i.shamt) i.rt i vm
execute sra i vm = compute2 (λ a. sar32 a i.shamt) i.rt i vm
execute load i vm = load_word i vm
execute store i vm = store_word i vm
execute loadb i vm = load_byte i vm
execute storeb i vm = store_byte i vm
execute slt i vm = compute3 less_than i vm
execute beq i vm = branch (λ a b. a == b) i vm
execute bne i vm = branch differs i vm
execute jmp i vm = ok (jumped (record vm { pc = i.target }))
execute call i vm = do
  vm' ← set_reg vm Reg.ra (add32 vm.pc 4)
  ok (jumped (record vm' { pc = i.target }))
execute ret i vm = do ra ← reg vm Reg.ra; ok (jumped (record vm { pc = ra }))
execute halt i vm = ok (leave (record vm { state = halted }))

abbrev pub is_running : VmState → Bool
is_running VmState.running = true
is_running _ = false

-- What follows the switch: the program counter, and register zero.
unfoldable pub finish : Flow → Run Vm
unfolding set_reg
finish (next vm) =
    set_reg (if is_running vm.state then record vm { pc = add32 vm.pc 4 } else vm) Reg.zero 0
finish (jumped vm) = set_reg vm Reg.zero 0
finish (leave vm) = ok vm

module _ {ℓ} {K : Type ℓ} (dispatch : Vm → K → Run (ℕ × Vm × K)) where
  -- The switch. The result of the dispatcher goes to `k0`.
  unfoldable pub perform : Label → Instr → Vm → K → Run (Vm × K)
  unfolding set_reg finish
  perform (plain op) i vm k = do f ← execute op i vm; vm' ← finish f; ok (vm', k)
  perform vcall i vm k = do
    (r, vm', k') ← dispatch vm k
    vm'' ← set_reg vm' Reg.k0 r
    vm''' ← finish (next vm'')
    ok (vm''', k')
  perform illegal i vm k = ok (fail vm, k)

  -- `vm_step` with the state RUNNING and the program counter let through.
  unfoldable pub fetch_execute : Vm → K → Run (Vm × K)
  unfolding perform label_of decode
  fetch_execute vm k = do
    instr ← read_word vm.code vm.pc
    perform (label_of (instr / 2 ^ 24)) (decode instr) vm k

  -- The guard on the program counter is a 32-bit sum.
  unfoldable pub step : Vm → K → Run (Vm × K)
  unfolding fetch_execute
  step vm k =
      if is_running vm.state
      then if ltb vm.code_size (add32 vm.pc 4) then ok (fail vm, k) else fetch_execute vm k
      else ok (vm, k)

  -- `while (vm->state == VM_STATE_RUNNING) vm_step(vm);` for a number of rounds
  unfoldable pub step_loop : ℕ → Vm → K → Run (Vm × K)
  step_loop zero vm k = spin
  step_loop (suc n) vm k = elim (is_running vm.state) [
    | true ↦ step vm k >>= λ (vm', k'). step_loop n vm' k'
    | false ↦ ok (vm, k)
  ]

  unfoldable pub interpreter_loop : ℕ → Vm → K → Run (Vm × K)
  unfolding step_loop
  interpreter_loop n vm k = step_loop n (record vm { state = running }) k
