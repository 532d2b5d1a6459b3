-- ===== src/Vm/Safety.antt =====
-- When an instruction stays inside the machine's objects (kernel/vm/vm_core.c): each of its
-- register operands is below 32, and a word access does not reach the last word of the address space.
use xhopin.Base.{
  ℕ, ◌+◌, ◌-◌, ◌/◌, ◌%◌, ◌^◌, ◌<◌, ◌≤◌, ◌≡◌, Bool, true, false, arith, ltb, length, get_or,
  get_elem?-some, get_elem?-eq-get_or, length-set, List, Run, ok, ◌>>=◌, or_wild, Total, Total-bind,
  Total-if, Post-ok, if◌then◌else◌,
}
use xhopin.Word.{add32, read_byte, write_byte, read_word, write_word, byte_of}
use xhopin.Vm.{Vm}
use xhopin.Vm.Opcode.{
  Opcode, add, sub, addi, and, or, mov, lui, xor, nor, sll, srl, sra, load, store, loadb, storeb,
  beq, bne, slt, jmp, call, ret, halt, plain, label_of,
}
use xhopin.Vm.Reg
use xhopin.Vm.Step.{
  Instr, Flow, next, jumped, leave, reg, set_reg, compute3, compute2, load_word, store_word,
  load_byte, store_byte, branch, execute, finish, word_ok, is_running, decode, step, fetch_execute,
  perform,
}
use xhopin.Vm.Invariant.{IsSound, IsValid}
use xhopin.Vm.Invariant.Execute.{FlowKept, decode-IsSmall, execute-Kept}

-- The value that a register operand has.
abbrev pub operand : Vm → ℕ → ℕ
operand vm r = get_or vm.gp r 0

abbrev pub Three : Instr → Type 0
Three i = (i.rd < 32) × (i.rs < 32) × (i.rt < 32)

abbrev pub Two : Instr → Type 0
Two i = (i.rd < 32) × (i.rs < 32)

-- A word access that does not touch the last word of the address space.
abbrev pub NotLast : Instr → Vm → Type 0
NotLast i vm = add32 (operand vm i.rs) i.imm < 2 ^ 32 - 4

-- What the instruction needs in order to stay inside the machine.
abbrev pub IsTame : Opcode → Instr → Vm → Type 0
IsTame addi i vm = Two i
IsTame mov i vm = Two i
IsTame lui i vm = i.rd < 32
IsTame sll i vm = (i.rd < 32) × (i.rt < 32)
IsTame srl i vm = (i.rd < 32) × (i.rt < 32)
IsTame sra i vm = (i.rd < 32) × (i.rt < 32)
IsTame load i vm = (i.rd < 32) × (i.rs < 32) × NotLast i vm
IsTame store i vm = (i.rd < 32) × (i.rs < 32) × NotLast i vm
IsTame beq i vm = Two i
IsTame bne i vm = Two i
IsTame jmp i vm = Unit
IsTame call i vm = Unit
IsTame ret i vm = Unit
IsTame halt i vm = Unit
IsTame _ i vm = Three i

pub read_byte-Total : (buf : List ℕ) (a : ℕ) → a < length buf → Total (read_byte buf a)
unfolding read_byte
read_byte-Total buf a h = let (b, e) = get_elem?-some buf a h in rw (e, or_wild) tt

pub read_word-Total :
    (buf : List ℕ) (a : ℕ) → a % 4 ≡ 0 → a + 4 ≤ length buf → Total (read_word buf a)
unfolding read_word
read_word-Total buf a e h = rw e (
    Total-bind (read_byte buf a) _ (read_byte-Total buf a (omega arith)) λ b0 e0.
      Total-bind (read_byte buf (a + 1)) _ (read_byte-Total buf (a + 1) (omega arith)) λ b1 e1.
        Total-bind (read_byte buf (a + 2)) _ (read_byte-Total buf (a + 2) (omega arith)) λ b2 e2.
          Total-bind (read_byte buf (a + 3)) _ (read_byte-Total buf (a + 3) (omega arith))
            λ b3 e3. tt)

write_byte-Total : (buf : List ℕ) (a b : ℕ) → a < length buf → Total (write_byte buf a b)
unfolding write_byte
write_byte-Total buf a b h = Total-if (ltb a (length buf)) _ _ (λ e. tt) (λ e. ground arith)

length-write_byte : (buf m : List ℕ) (a b : ℕ) → write_byte buf a b ≡ ok m → length m ≡ length buf
unfolding write_byte
length-write_byte buf m a b e = ground (arith, length-set buf a (b % 256))

write_word-Total :
    (buf : List ℕ) (a w : ℕ) → a % 4 ≡ 0 → a + 4 ≤ length buf → Total (write_word buf a w)
unfolding write_word
write_word-Total buf a w e h = rw e (
    Total-bind (write_byte buf a (byte_of w 0)) _
      (write_byte-Total buf a (byte_of w 0) (omega arith))
      λ m0 e0.
        let l0 = length-write_byte buf m0 a (byte_of w 0) e0 in
        Total-bind (write_byte m0 (a + 1) (byte_of w 1)) _
          (write_byte-Total m0 (a + 1) (byte_of w 1) (omega arith))
          λ m1 e1.
            let l1 = length-write_byte m0 m1 (a + 1) (byte_of w 1) e1 in
            Total-bind (write_byte m1 (a + 2) (byte_of w 2)) _
              (write_byte-Total m1 (a + 2) (byte_of w 2) (omega arith))
              λ m2 e2.
                let l2 = length-write_byte m1 m2 (a + 2) (byte_of w 2) e2 in
                write_byte-Total m2 (a + 3) (byte_of w 3) (omega arith))

module _ (vm : Vm) (h : IsSound vm) where
  reg-operand : (r : ℕ) → r < 32 → reg vm r ≡ ok (operand vm r)
  unfolding reg
  reg-operand r lt = rw (get_elem?-eq-get_or vm.gp r 0 (omega arith))

  set_reg-Total : (r v : ℕ) → r < 32 → Total (set_reg vm r v)
  unfolding set_reg
  set_reg-Total r v lt = Total-if (ltb r (length vm.gp)) _ _ (λ e. tt) (λ e. ground arith)

  module _ (i : Instr) where
    written : (v : ℕ) → i.rd < 32 → Total (set_reg vm i.rd v >>= λ v'. ok (next v'))
    written v lt = Total-bind (set_reg vm i.rd v) _ (set_reg-Total i.rd v lt) (λ v' e. tt)

    compute3-Total : (f : ℕ → ℕ → ℕ) → Three i → Total (compute3 f i vm)
    unfolding compute3
    compute3-Total f (d, s, t) =
        rw (reg-operand i.rs s, reg-operand i.rt t)
          (written (f (operand vm i.rs) (operand vm i.rt)) d)

    compute2-Total : (f : ℕ → ℕ) (r : ℕ) → i.rd < 32 → r < 32 → Total (compute2 f r i vm)
    unfolding compute2
    compute2-Total f r d s = rw (reg-operand r s) (written (f (operand vm r)) d)

    branch-Total : (test : ℕ → ℕ → Bool) → Two i → Total (branch test i vm)
    unfolding branch
    branch-Total test (d, s) =
        rw (reg-operand i.rd d, reg-operand i.rs s)
          (Total-if (test (operand vm i.rd) (operand vm i.rs)) _ _ (λ e. tt) (λ e. tt))

    -- What the guard of a word access gives.
    word_ok-inside :
        (a : ℕ) → word_ok vm a ≡ true → a < 2 ^ 32 - 4 → (a % 4 ≡ 0) × (a + 4 ≤ length vm.ram)
    word_ok-inside a e lt = ground arith

    load_word-Total : IsTame load i vm → Total (load_word i vm)
    unfolding load_word
    load_word-Total (d, s, last) = rw (reg-operand i.rs s) (
        Total-if (word_ok vm (add32 (operand vm i.rs) i.imm)) _ _
          (λ e.
            let (al, le) = word_ok-inside (add32 (operand vm i.rs) i.imm) e last in
            Total-bind (read_word vm.ram (add32 (operand vm i.rs) i.imm)) _
              (read_word-Total vm.ram (add32 (operand vm i.rs) i.imm) al le) λ w e'. written w d)
          (λ e. tt))

    store_word-Total : IsTame store i vm → Total (store_word i vm)
    unfolding store_word
    store_word-Total (d, s, last) = rw (reg-operand i.rs s) (
        Total-if (word_ok vm (add32 (operand vm i.rs) i.imm)) _ _
          (λ e.
            let (al, le) = word_ok-inside (add32 (operand vm i.rs) i.imm) e last in
            rw (reg-operand i.rd d) (
              Total-bind (write_word vm.ram (add32 (operand vm i.rs) i.imm) (operand vm i.rd)) _
                (write_word-Total vm.ram (add32 (operand vm i.rs) i.imm) (operand vm i.rd) al le)
                λ m e'. tt))
          (λ e. tt))

    load_byte-Total : Three i → Total (load_byte i vm)
    unfolding load_byte
    load_byte-Total (d, s, t) =
        rw (reg-operand i.rs s, reg-operand i.rt t)
          (Total-if (ltb (add32 (operand vm i.rs) (operand vm i.rt)) vm.ram_size) _ _
            (λ e.
              Total-bind (read_byte vm.ram (add32 (operand vm i.rs) (operand vm i.rt))) _
                (read_byte-Total vm.ram (add32 (operand vm i.rs) (operand vm i.rt)) (ground arith))
                λ w e'. written w d)
            (λ e. tt))

    store_byte-Total : Three i → Total (store_byte i vm)
    unfolding store_byte
    store_byte-Total (d, s, t) =
        rw (reg-operand i.rd d, reg-operand i.rs s)
          (Total-if (ltb (add32 (operand vm i.rd) (operand vm i.rs)) vm.ram_size) _ _
            (λ e. rw (reg-operand i.rt t) (
              Total-bind
                (write_byte vm.ram (add32 (operand vm i.rd) (operand vm i.rs)) (operand vm i.rt)) _
                (write_byte-Total vm.ram (add32 (operand vm i.rd) (operand vm i.rs))
                  (operand vm i.rt) (ground arith))
                λ m e'. tt))
            (λ e. tt))

    execute-Total : (op : Opcode) → IsTame op i vm → Total (execute op i vm)
    unfolding execute
    execute-Total add t = compute3-Total _ t
    execute-Total sub t = compute3-Total _ t
    execute-Total addi (d, s) = compute2-Total _ i.rs d s
    execute-Total and t = compute3-Total _ t
    execute-Total or t = compute3-Total _ t
    execute-Total mov (d, s) = compute2-Total _ i.rs d s
    execute-Total lui d = written _ d
    execute-Total xor t = compute3-Total _ t
    execute-Total nor t = compute3-Total _ t
    execute-Total sll (d, s) = compute2-Total _ i.rt d s
    execute-Total srl (d, s) = compute2-Total _ i.rt d s
    execute-Total sra (d, s) = compute2-Total _ i.rt d s
    execute-Total load t = load_word-Total t
    execute-Total store t = store_word-Total t
    execute-Total loadb t = load_byte-Total t
    execute-Total storeb t = store_byte-Total t
    execute-Total beq t = branch-Total _ t
    execute-Total bne t = branch-Total _ t
    execute-Total slt t = compute3-Total _ t
    execute-Total jmp t = tt
    execute-Total call t =
        Total-bind (set_reg vm Reg.ra (add32 vm.pc 4)) _
          (set_reg-Total Reg.ra (add32 vm.pc 4) (omega arith)) (λ v e. tt)
    execute-Total ret t = rw (reg-operand Reg.ra (omega arith)) tt
    execute-Total halt t = tt

advanced-IsSound :
    (v : Vm) (b : Bool) → IsSound v → IsSound (if b then record v { pc = add32 v.pc 4 } else v)
advanced-IsSound v true h = ground arith
advanced-IsSound v false h = h

finish-Total : (vm : Vm) (f : Flow) → FlowKept vm f → Total (finish f)
unfolding finish
finish-Total vm (next v) (h, o) =
    set_reg-Total _ (advanced-IsSound v (is_running v.state) h) Reg.zero 0 (omega arith)
finish-Total vm (jumped v) (h, o) = set_reg-Total v h Reg.zero 0 (omega arith)
finish-Total vm (leave v) k = tt

-- A well-formed machine that can fetch its next instruction, an ordinary one with register operands
-- below 32 and no word access at the last word of the address space, executes it without an access
-- outside its objects.
pub step-Total {ℓ} :
    {K : Type ℓ} (dispatch : Vm → K → Run (ℕ × Vm × K)) (vm : Vm) (k : K) (w : ℕ) (op : Opcode)
    → IsValid vm
    → read_word vm.code vm.pc ≡ ok w
    → label_of (w / 2 ^ 24) ≡ plain op
    → IsTame op (decode w) vm
    → Total (step dispatch vm k)
unfolding step fetch_execute perform
step-Total dispatch vm k w op h fetched label tame =
    Total-if (is_running vm.state) _ _
      (λ e.
        Total-if (ltb vm.code_size (add32 vm.pc 4)) _ _ (λ t. tt)
          (λ t.
            rw (fetched, label)
              (Total-bind (execute op (decode w) vm) _ (execute-Total vm h.sound (decode w) op tame)
                λ f e'.
                  Total-bind (finish f) _
                    (finish-Total vm f (
                      Post-ok (FlowKept vm) (execute op (decode w) vm) f
                        (execute-Kept vm h.sound (decode w) (decode-IsSmall w) op) e'))
                    λ v e''. tt)))
      (λ e. tt)
