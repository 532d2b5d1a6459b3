-- ===== src/Tests/Machine.antt =====
-- A machine with eight bytes of RAM and a program of two instructions (kernel/vm/vm_core.c).
use xhopin.Base.{
  ℕ, ◌/◌, ◌^◌, ◌≡◌, refl, List, [], ◌∷◌, replicate, All-replicate, All-set, set, arith, Run, ok,
  wild, Post, Total,
}
use xhopin.Word.{read_word}
use xhopin.Vm.{Vm, VmState}
use xhopin.Vm.Opcode.{load, lui, label_of, plain}
use xhopin.Vm.Step.{Instr, decode, step, interpreter_loop, reg, execute}
use xhopin.Vm.Invariant.{IsValid, IsSound, IsWord, IsByte, SameObject-refl}
use xhopin.Vm.Invariant.Loop.{Answered, After, Stopped, step-IsValid, interpreter_loop-Stopped}
use xhopin.Vm.Safety.{step-Total}
use xhopin.Vm.Escape.{load-wild}

-- LUI t0, 1; HALT
abbrev program : List ℕ
program = 0x01 ∷ 0x00 ∷ 0x08 ∷ 0x13 ∷ 0x00 ∷ 0x00 ∷ 0x00 ∷ 0xFF ∷ []

abbrev machine : Vm
machine = record {
  pc = 0;
  gp = replicate 32 0;
  code = program;
  code_size = 8;
  ram = replicate 8 0;
  ram_ptr = 400;
  ram_size = 8;
  state = VmState.running;
  capabilities = 3;
  name = [];
  ref_count = 1;
}

-- Every system call returns the kernel's version.
abbrev answer : Vm → ℕ → Run (ℕ × Vm × ℕ)
answer vm k = ok (2026, vm, k)

answer-Answered : (vm : Vm) (k : ℕ) → IsValid vm → Post (Answered vm) (answer vm k)
answer-Answered vm k h = (omega arith, (h, SameObject-refl vm))

machine-IsSound : IsSound machine
machine-IsSound = record {
  bank = refl;
  words = All-replicate IsWord 32 0 (omega arith);
  pc_word = omega arith;
  ram_length = refl;
  ram_bytes = All-replicate IsByte 8 0 (omega arith);
  code_bytes = ground arith;
}

machine-IsValid : IsValid machine
machine-IsValid = record { sound = machine-IsSound; zero_reg = refl }

step-IsValid_example : Post (After answer answer-Answered machine) (step answer machine 7)
step-IsValid_example = step-IsValid answer answer-Answered machine 7 machine-IsValid

interpreter_loop-Stopped_example :
    Post (Stopped answer answer-Answered machine) (interpreter_loop answer 3 machine 7)
interpreter_loop-Stopped_example =
    interpreter_loop-Stopped answer answer-Answered 3 machine 7 machine-IsValid

-- The program ends, with 65536 in t0.
loaded_upper :
    interpreter_loop answer 3 machine 7
    ≡ ok
        (record machine { pc = 4; gp = set (replicate 32 0) 8 0x1_0000; state = VmState.halted }, 7)
unfolding interpreter_loop step read_word execute
loaded_upper = refl

fetched : read_word machine.code machine.pc ≡ ok 0x1308_0001
unfolding read_word
fetched = refl

labelled : label_of (0x1308_0001 / 2 ^ 24) ≡ plain lui
unfolding label_of
labelled = refl

step-Total_example : Total (step answer machine 7)
unfolding decode
step-Total_example =
    step-Total answer machine 7 0x1308_0001 lui machine-IsValid fetched labelled (omega arith)

-- LOAD t0, t0 with 2^32 - 4 in t0
abbrev far : Vm
far = record machine { gp = set (replicate 32 0) 8 0xFFFF_FFFC }

abbrev load_far : Instr
load_far = record { rd = 8; rs = 8; rt = 0; imm = 0; shamt = 0; target = 0 }

far-IsSound : IsSound far
far-IsSound = record {
  bank = refl;
  words =
      All-set IsWord (replicate 32 0) 8 0xFFFF_FFFC (All-replicate IsWord 32 0 (omega arith))
        (omega arith);
  pc_word = machine-IsSound.pc_word;
  ram_length = refl;
  ram_bytes = machine-IsSound.ram_bytes;
  code_bytes = machine-IsSound.code_bytes;
}

far_base : reg far 8 ≡ ok 0xFFFF_FFFC
unfolding reg
far_base = refl

load-wild_example : execute load load_far far ≡ wild
load-wild_example = load-wild far load_far 0xFFFF_FFFC far-IsSound (omega arith) far_base refl

abbrev past_bank : Instr
past_bank = record { rd = 1; rs = 200; rt = 0; imm = 0; shamt = 0; target = 0 }
