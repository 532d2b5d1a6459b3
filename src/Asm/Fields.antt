-- ===== src/Asm/Fields.antt =====
-- What the machine (kernel/vm/vm_core.c) reads in a word of the assembler (asm/vm_asm.c).
use Prim.Native.Nat.{bit_or, bit_or-bitwise}
use xhopin.Base.{ℕ, ◌+◌, ◌*◌, ◌/◌, ◌%◌, ◌^◌, ◌≡◌, ◌∙◌, refl, ◌<◌, arith, ok, true, ltb}
use xhopin.Word.{add32, shl32}
use xhopin.Vm.Opcode.{Opcode}
use xhopin.Vm.Step.{decode, execute, branch, reg, jumped}
use xhopin.Vm.{Vm}
use xhopin.Asm.{encode, add, jmp, call, beq, offset, word_imm}

-- The registers of ADD, of eight bits each, come back when the machine decodes the word of the
-- assembler, with the opcode.
decode-encode_add :
    (pc rd rs rt : ℕ)
    → rd < 256
    → rs < 256
    → rt < 256
    → let w = encode pc (add rd rs rt) in
      (w / 2 ^ 24 ≡ 0x01) × ((decode w).rd ≡ rd) × ((decode w).rs ≡ rs) × ((decode w).rt ≡ rt)
unfolding encode decode
decode-encode_add pc rd rs rt a b c = omega arith

-- The target of JMP and CALL, of 24 bits, comes back when the machine decodes the word of the
-- assembler, with the opcodes.
decode-encode_jmp :
    (pc target : ℕ)
    → target < 2 ^ 24
    → let w = encode pc (jmp target) in
      let v = encode pc (call target) in
      (w / 2 ^ 24 ≡ 0x33)
      × ((decode w).target ≡ target)
      × (v / 2 ^ 24 ≡ 0x34)
      × ((decode v).target ≡ target)
unfolding encode decode
decode-encode_jmp pc target a = omega arith

zero_or : (b : ℕ) → bit_or 0 b ≡ b
zero_or b = rw bit_or-bitwise refl

-- The fields of a branch that compares with register zero and has a distance of eight bits.
decode_branch :
    (rd k : ℕ)
    → rd < 256
    → k < 256
    → let i = decode (word_imm 0x30 rd 0 k) in (i.rd ≡ rd) × (i.rs ≡ 0) × (i.imm ≡ k)
unfolding decode
decode_branch rd k small near =
    let low : bit_or 0 (k % 2 ^ 16) ≡ k = zero_or (k % 2 ^ 16) ∙ omega arith in
    let tail : (0x30 * 2 ^ 24 + rd * 2 ^ 16 + k) % 2 ^ 16 ≡ k = omega arith in
    let plus : ltb k 0x8000 ≡ true = ground arith in
    rw low (omega arith, omega arith, rw (tail, plus))

-- A branch forward over fewer than 256 instructions that compares with register zero, and is taken
-- because both registers are 0, lands one instruction before its label.
pub branch-short :
    (vm : Vm) (rd k : ℕ)
    → rd < 256
    → k < 256
    → vm.pc + 4 + 4 * k < 2 ^ 32
    → reg vm rd ≡ ok 0
    → reg vm 0 ≡ ok 0
    → execute Opcode.beq (decode (encode vm.pc (beq rd 0 (vm.pc + 4 + 4 * k)))) vm
      ≡ ok (jumped (record vm { pc = vm.pc + 4 * k }))
unfolding encode execute branch
branch-short vm rd k small near fits a b =
    let off : offset vm.pc (vm.pc + 4 + 4 * k) ≡ k = omega arith in
    let (frd, frs, fimm) = decode_branch rd k small near in
    let to : add32 vm.pc (shl32 k 2) ≡ vm.pc + 4 * k = omega arith in
    rw (off, frd, frs, fimm, a, b, to)
