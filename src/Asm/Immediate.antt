-- ===== src/Asm/Immediate.antt =====
-- Statements with an immediate (asm/vm_asm.c), and what the machine (kernel/vm/vm_core.c) reads in their
-- words: the register `rs` and the high byte of the immediate stand in the same eight bits.
use Prim.Native.Nat.{bit_or, bit_or-bitwise, digits, max}
use xhopin.Base.{
  ℕ, zero, suc, ◌+◌, ◌-◌, ◌*◌, ◌/◌, ◌%◌, ◌^◌, ◌<◌, ◌≤◌, ◌≡◌, refl, true, ◌==◌, ltb, arith, wild,
  length, get_elem?-none, ==_iff,
}
use xhopin.Base.Tests.{all_below, all_below_lem}
use xhopin.Base.Bits.{bit_or-lt}
use xhopin.Vm.{Vm}
use xhopin.Vm.Opcode.{Opcode}
use xhopin.Vm.Step.{decode, execute, reg, compute2}
use xhopin.Asm.{encode, addi, loadw, storew, word_imm}

digits-ge : (n a b : ℕ) → b ≤ digits (λ y. y) max n a b
digits-ge zero a b = omega arith
digits-ge (suc n) zero b = omega arith
digits-ge (suc n) (suc a) b = omega (arith, digits-ge n (suc a / 2) (b / 2))

le-bit_or : (a b : ℕ) → b ≤ bit_or a b
le-bit_or a b = rw bit_or-bitwise (digits-ge a a b)

-- `reg_field` is the eight bits, for an immediate of which all eight are set.
decode_negative :
    (opcode rd rs k : ℕ)
    → opcode < 256
    → rd < 256
    → rs < 256
    → 0 < k
    → k ≤ 256
    → (decode (word_imm opcode rd rs (2 ^ 32 - k))).rs ≡ 255
unfolding decode
decode_negative opcode rd rs k a b c pos small =
    let low : (2 ^ 32 - k) % 2 ^ 16 ≡ 2 ^ 16 - k = omega arith in
    let above : 2 ^ 16 - k ≤ bit_or (rs * 2 ^ 8) (2 ^ 16 - k) =
      le-bit_or (rs * 2 ^ 8) (2 ^ 16 - k) in
    let below : bit_or (rs * 2 ^ 8) (2 ^ 16 - k) < 2 ^ 16 =
      bit_or-lt 16 (rs * 2 ^ 8) (2 ^ 16 - k) (omega arith) (omega arith) in
    rw low (omega arith)

-- ADDI with a negative immediate of eight bits, from -1 to -256, makes a machine of 32 registers read
-- past its register bank, whatever its registers are.
pub addi-negative :
    (vm : Vm) (rd rs k : ℕ)
    → length vm.gp ≡ 32
    → rd < 256
    → rs < 256
    → 0 < k
    → k ≤ 256
    → execute Opcode.addi (decode (encode vm.pc (addi rd rs (2 ^ 32 - k)))) vm ≡ wild
unfolding encode execute compute2 reg
addi-negative vm rd rs k bank a b pos small =
    let source = decode_negative 0x03 rd rs k (omega arith) a b pos small in
    let past = get_elem?-none vm.gp 255 (omega arith) in rw (source, past)

-- The number of a register and an immediate of eight bits do not meet in the word.
apart : all_below (32 * 256) (λ x. bit_or (x / 256 * 2 ^ 8) (x % 256) == x) ≡ true
unfolding all_below
apart = refl

bit_or-eq-add : (rs k : ℕ) → rs < 32 → k < 256 → bit_or (rs * 2 ^ 8) k ≡ rs * 256 + k
bit_or-eq-add rs k a b =
    let x = rs * 256 + k in
    let high : x / 256 ≡ rs = omega arith in
    let low : x % 256 ≡ k = omega arith in
    let tested : (bit_or (x / 256 * 2 ^ 8) (x % 256) == x) ≡ true =
      all_below_lem (32 * 256) (λ y. bit_or (y / 256 * 2 ^ 8) (y % 256) == y) x apart
        (omega arith) in
    let whole : bit_or (x / 256 * 2 ^ 8) (x % 256) ≡ x = (==_iff _ x).0 tested in
    rw (high, low) at whole

-- What the machine reads in the word of a statement with an immediate of eight bits.
abbrev pub ReadsBack : ℕ → ℕ → ℕ → ℕ → ℕ → Type 0
ReadsBack opcode rd rs k w =
    (w / 2 ^ 24 ≡ opcode)
    × ((decode w).rd ≡ rd)
    × ((decode w).rs ≡ rs)
    × ((decode w).rt ≡ k)
    × ((decode w).imm ≡ rs * 256 + k)

word_imm-ReadsBack :
    (opcode rd rs k : ℕ)
    → rd < 256
    → rs < 32
    → k < 256
    → ReadsBack opcode rd rs k (word_imm opcode rd rs k)
unfolding decode
word_imm-ReadsBack opcode rd rs k a b c =
    let cut : k % 2 ^ 16 ≡ k = omega arith in
    let w = opcode * 2 ^ 24 + rd * 2 ^ 16 + (rs * 256 + k) in
    let low : w % 2 ^ 16 ≡ rs * 256 + k = omega arith in
    let plus : ltb (rs * 256 + k) 0x8000 ≡ true = ground arith in
    rw (cut, bit_or-eq-add rs k b c)
      (omega arith, omega arith, omega arith, omega arith, rw (low, plus))

-- The machine reads back the opcode, the registers and the byte of ADDI, LOAD and STORE with an
-- immediate of eight bits; but the offset that LOAD and STORE use is too large by 256 times the number
-- of the base register.
pub decode-encode_imm :
    (pc rd rs k : ℕ)
    → rd < 256
    → rs < 32
    → k < 256
    → ReadsBack 0x03 rd rs k (encode pc (addi rd rs k))
      × ReadsBack 0x20 rd rs k (encode pc (loadw rd rs k))
      × ReadsBack 0x21 rd rs k (encode pc (storew rs k rd))
unfolding encode
decode-encode_imm pc rd rs k a b c = (
  word_imm-ReadsBack 0x03 rd rs k a b c,
  word_imm-ReadsBack 0x20 rd rs k a b c,
  word_imm-ReadsBack 0x21 rd rs k a b c,
)
