-- ===== src/Vm/Invariant/Execute.antt =====
-- Every case of the switch in `vm_step` (kernel/vm/vm_core.c) keeps a machine well formed.
use Prim.Native.Nat.{bit_and, bit_or, bit_xor}
use xhopin.Base.{
  ℕ, ◌^◌, ◌<◌, ◌≡◌, refl, Bool, arith, ltb, ◌==◌, ok, ◌>>=◌, Post, Post-bind, Post-if,
}
use native.Mathlib.Nat.{div-le_self}
use xhopin.Base.Bits.{bit_and-lt, bit_or-lt, bit_xor-lt}
use xhopin.Word.{
  add32, sub32, sign8, not32, shl32, shr32, sar32, read_byte, write_byte, read_word, write_word,
}
use xhopin.Vm.{Vm}
use xhopin.Vm.Opcode.{
  Opcode, add, sub, addi, and, or, mov, lui, xor, nor, sll, srl, sra, load, store, loadb, storeb,
  beq, bne, slt, jmp, call, ret, halt,
}
use xhopin.Vm.Reg
use xhopin.Vm.Step.{
  Instr, Flow, next, jumped, leave, reg, set_reg, compute3, compute2, load_word, store_word,
  load_byte, store_byte, branch, execute, word_ok, less_than, differs, decode,
}
use xhopin.Vm.Invariant.{
  IsWord, IsByte, IsSound, SameObject-refl, Kept, reg-IsWord, set_reg-Kept, pc-Kept, fail-Kept,
  ram-Kept, read_byte-IsByte, read_word-IsWord, write_byte-SameLength, write_word-SameLength,
  SameLength,
}

-- Where the switch is left, the machine is well formed; a `return` has left the bank alone.
abbrev pub FlowKept : Vm → Flow → Type 0
FlowKept vm (next v) = Kept vm v
FlowKept vm (jumped v) = Kept vm v
FlowKept vm (leave v) = Kept vm v × (v.gp ≡ vm.gp)

-- The fields that the arithmetic needs to be small.
pub record IsSmall (i : Instr) : Type 0 where
  pub rt_byte : i.rt < 256
  pub imm_word : IsWord i.imm
  pub shamt_small : i.shamt < 32
  pub target_word : IsWord i.target

pub decode-IsSmall : (w : ℕ) → IsSmall (decode w)
unfolding decode
decode-IsSmall w = ground arith

shr32-IsWord : (x s : ℕ) → IsWord x → IsWord (shr32 x s)
shr32-IsWord x s h = omega (arith, div-le_self x (2 ^ s))

sar32-IsWord : (x s : ℕ) → IsWord x → IsWord (sar32 x s)
sar32-IsWord x s h = ground (arith, shr32-IsWord x s, shr32-IsWord (not32 x) s)

module _ (vm : Vm) (h : IsSound vm) (i : Instr) (small : IsSmall i) where
  write_result : (r w : ℕ) → IsWord w → Post (FlowKept vm) (set_reg vm r w >>= λ v. ok (next v))
  write_result r w hw =
      Post-bind (Kept vm) (FlowKept vm) (set_reg vm r w) _ (set_reg-Kept vm h r w hw) (λ v k. k)

  compute3-Kept :
      (f : ℕ → ℕ → ℕ)
      → ((a b : ℕ) → IsWord a → IsWord b → IsWord (f a b))
      → Post (FlowKept vm) (compute3 f i vm)
  unfolding compute3
  compute3-Kept f hf = Post-bind IsWord (FlowKept vm) (reg vm i.rs) _ (reg-IsWord vm h i.rs) λ a ha.
      Post-bind IsWord (FlowKept vm) (reg vm i.rt) _ (reg-IsWord vm h i.rt)
        λ b hb. write_result i.rd (f a b) (hf a b ha hb)

  compute2-Kept :
      (f : ℕ → ℕ) (r : ℕ)
      → ((a : ℕ) → IsWord a → IsWord (f a))
      → Post (FlowKept vm) (compute2 f r i vm)
  unfolding compute2
  compute2-Kept f r hf =
      Post-bind IsWord (FlowKept vm) (reg vm r) _ (reg-IsWord vm h r)
        λ a ha. write_result i.rd (f a) (hf a ha)

  branch-Kept : (test : ℕ → ℕ → Bool) → Post (FlowKept vm) (branch test i vm)
  unfolding branch
  branch-Kept test = Post-bind IsWord (FlowKept vm) (reg vm i.rd) _ (reg-IsWord vm h i.rd) λ a ha.
      Post-bind IsWord (FlowKept vm) (reg vm i.rs) _ (reg-IsWord vm h i.rs) λ b hb.
        Post-if (FlowKept vm) (test a b) _ _
          (λ e. pc-Kept vm h (add32 vm.pc (shl32 i.imm 2)) (omega arith))
          (λ e. (h, SameObject-refl vm))

  load_word-Kept : Post (FlowKept vm) (load_word i vm)
  unfolding load_word
  load_word-Kept = Post-bind IsWord (FlowKept vm) (reg vm i.rs) _ (reg-IsWord vm h i.rs) λ a ha.
      Post-if (FlowKept vm) (word_ok vm (add32 a i.imm)) _ _
        (λ e.
          Post-bind IsWord (FlowKept vm) (read_word vm.ram (add32 a i.imm)) _
            (read_word-IsWord vm.ram (add32 a i.imm) h.ram_bytes) λ w hw. write_result i.rd w hw)
        (λ e. fail-Kept vm h)

  store_word-Kept : Post (FlowKept vm) (store_word i vm)
  unfolding store_word
  store_word-Kept = Post-bind IsWord (FlowKept vm) (reg vm i.rs) _ (reg-IsWord vm h i.rs) λ a ha.
      Post-if (FlowKept vm) (word_ok vm (add32 a i.imm)) _ _
        (λ e. Post-bind IsWord (FlowKept vm) (reg vm i.rd) _ (reg-IsWord vm h i.rd) λ w hw.
          Post-bind (SameLength vm.ram) (FlowKept vm) (write_word vm.ram (add32 a i.imm) w) _
            (write_word-SameLength vm.ram (add32 a i.imm) w h.ram_bytes) λ m hm. ram-Kept vm h m hm)
        (λ e. fail-Kept vm h)

  load_byte-Kept : Post (FlowKept vm) (load_byte i vm)
  unfolding load_byte
  load_byte-Kept = Post-bind IsWord (FlowKept vm) (reg vm i.rs) _ (reg-IsWord vm h i.rs) λ a ha.
      Post-bind IsWord (FlowKept vm) (reg vm i.rt) _ (reg-IsWord vm h i.rt) λ b hb.
        Post-if (FlowKept vm) (ltb (add32 a b) vm.ram_size) _ _
          (λ e.
            Post-bind IsByte (FlowKept vm) (read_byte vm.ram (add32 a b)) _
              (read_byte-IsByte vm.ram (add32 a b) h.ram_bytes)
              λ w hw. write_result i.rd w (omega arith))
          (λ e. fail-Kept vm h)

  store_byte-Kept : Post (FlowKept vm) (store_byte i vm)
  unfolding store_byte
  store_byte-Kept = Post-bind IsWord (FlowKept vm) (reg vm i.rd) _ (reg-IsWord vm h i.rd) λ a ha.
      Post-bind IsWord (FlowKept vm) (reg vm i.rs) _ (reg-IsWord vm h i.rs) λ b hb.
        Post-if (FlowKept vm) (ltb (add32 a b) vm.ram_size) _ _
          (λ e. Post-bind IsWord (FlowKept vm) (reg vm i.rt) _ (reg-IsWord vm h i.rt) λ w hw.
            Post-bind (SameLength vm.ram) (FlowKept vm) (write_byte vm.ram (add32 a b) w) _
              (write_byte-SameLength vm.ram vm.ram (add32 a b) w (refl, h.ram_bytes))
              λ m hm. ram-Kept vm h m hm)
          (λ e. fail-Kept vm h)

  -- The operations on words return words.
  pub execute-Kept : (op : Opcode) → Post (FlowKept vm) (execute op i vm)
  unfolding execute
  execute-Kept add = compute3-Kept add32 (λ a b ha hb. omega arith)
  execute-Kept sub = compute3-Kept sub32 (λ a b ha hb. omega arith)
  execute-Kept addi = compute2-Kept (λ a. add32 a (sign8 i.rt)) i.rs (λ a ha. omega arith)
  execute-Kept and = compute3-Kept bit_and (λ a b ha hb. bit_and-lt 32 a b ha hb)
  execute-Kept or = compute3-Kept bit_or (λ a b ha hb. bit_or-lt 32 a b ha hb)
  execute-Kept mov = compute2-Kept (λ a. a) i.rs (λ a ha. ha)
  execute-Kept lui = write_result i.rd (shl32 i.imm 16) (omega arith)
  execute-Kept xor = compute3-Kept bit_xor (λ a b ha hb. bit_xor-lt 32 a b ha hb)
  execute-Kept nor = compute3-Kept (λ a b. not32 (bit_or a b)) (λ a b ha hb. omega arith)
  execute-Kept sll = compute2-Kept (λ a. shl32 a i.shamt) i.rt (λ a ha. omega arith)
  execute-Kept srl = compute2-Kept (λ a. shr32 a i.shamt) i.rt (λ a ha. shr32-IsWord a i.shamt ha)
  execute-Kept sra = compute2-Kept (λ a. sar32 a i.shamt) i.rt (λ a ha. sar32-IsWord a i.shamt ha)
  execute-Kept load = load_word-Kept
  execute-Kept store = store_word-Kept
  execute-Kept loadb = load_byte-Kept
  execute-Kept storeb = store_byte-Kept
  execute-Kept beq = branch-Kept (λ a b. a == b)
  execute-Kept bne = branch-Kept differs
  execute-Kept slt = compute3-Kept less_than (λ a b ha hb. ground arith)
  execute-Kept jmp = pc-Kept vm h i.target small.target_word
  execute-Kept call =
      Post-bind (Kept vm) (FlowKept vm) (set_reg vm Reg.ra (add32 vm.pc 4)) _
        (set_reg-Kept vm h Reg.ra (add32 vm.pc 4) (omega arith))
        λ v k. ((pc-Kept v k.0 i.target small.target_word).0, ground arith)
  execute-Kept ret =
      Post-bind IsWord (FlowKept vm) (reg vm Reg.ra) _ (reg-IsWord vm h Reg.ra)
        λ a ha. pc-Kept vm h a ha
  execute-Kept halt = (ground arith, refl)
