-- ===== src/Vm/Escape.antt =====
-- Machine code and the limits of a machine's objects (kernel/vm/vm_core.c).
use xhopin.Base.{ℕ, ◌-◌, ◌^◌, ◌≤◌, ◌≡◌, arith, length, get_elem?-none, List, Run, ok, wild}
use xhopin.Word.{add32, read_byte, read_word}
use xhopin.Vm.{Vm, running}
use xhopin.Vm.Opcode.{load, add}
use xhopin.Vm.Step.{Instr, execute, reg, set_reg, load_word, compute3, step, fetch_execute}
use xhopin.Vm.Invariant.{IsSound}

read_byte-wild : (buf : List ℕ) (a : ℕ) → length buf ≤ a → read_byte buf a ≡ wild
unfolding read_byte
read_byte-wild buf a h = rw (get_elem?-none buf a h)

read_word-wild : (buf : List ℕ) (a : ℕ) → length buf ≤ a → read_word buf a ≡ wild
unfolding read_word
read_word-wild buf a h = ground (arith, read_byte-wild buf a h)

-- A LOAD whose address is 2^32 - 4 reads outside the RAM of a machine that is well formed but for
-- register zero and whose RAM has at most 2^32 - 4 bytes.
pub load-wild :
    (vm : Vm) (i : Instr) (base : ℕ)
    → IsSound vm
    → vm.ram_size ≤ 2 ^ 32 - 4
    → reg vm i.rs ≡ ok base
    → add32 base i.imm ≡ 2 ^ 32 - 4
    → execute load i vm ≡ wild
unfolding execute load_word
load-wild vm i base h size e a =
    rw (e, a) (ground (arith, read_word-wild vm.ram (2 ^ 32 - 4) (omega arith)))

-- A RUNNING machine at pc 2^32 - 4 whose code has at most 2^32 - 4 bytes fetches from outside its
-- code.
step-wild {ℓ} :
    {K : Type ℓ} (dispatch : Vm → K → Run (ℕ × Vm × K)) (vm : Vm) (k : K)
    → vm.state ≡ running
    → vm.pc ≡ 2 ^ 32 - 4
    → length vm.code ≤ 2 ^ 32 - 4
    → step dispatch vm k ≡ wild
unfolding step fetch_execute
step-wild dispatch vm k r e h = rw (r, e) (ground (arith, read_word-wild vm.code (2 ^ 32 - 4) h))

reg-wild : (vm : Vm) (i : ℕ) → length vm.gp ≤ i → reg vm i ≡ wild
unfolding reg
reg-wild vm i h = rw (get_elem?-none vm.gp i h)

set_reg-wild : (vm : Vm) (i v : ℕ) → length vm.gp ≤ i → set_reg vm i v ≡ wild
unfolding set_reg
set_reg-wild vm i v h = ground arith

-- ADD and LOAD with a first source operand of 32 or more read past the register bank of a machine
-- that is well formed but for register zero.
compute-wild :
    (vm : Vm) (i : Instr)
    → IsSound vm
    → 32 ≤ i.rs
    → (execute add i vm ≡ wild) × (execute load i vm ≡ wild)
unfolding execute compute3 load_word
compute-wild vm i h s = (rw (reg-wild vm i.rs (omega arith)), rw (reg-wild vm i.rs (omega arith)))
