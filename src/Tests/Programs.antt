-- ===== src/Tests/Programs.antt =====
-- The assembler (asm/vm_asm.c) on a small program, and its file in the loader.
use xhopin.Base.{
  ℕ, ◌+◌, ◌-◌, ◌*◌, ◌^◌, ◌≡◌, ◌≤◌, refl, List, [], ◌∷◌, ◌++◌, length, replicate, none, arith, leb,
  ◌==◌, if◌then◌else◌, ok, wild,
}
use xhopin.Kernel.{Kernel, Allocator}
use xhopin.Loader.{start_app, kernel_load_app}
use xhopin.Vm.{Vm, VmState}
use xhopin.Vm.Opcode.{Opcode}
use xhopin.Vm.Step.{decode, execute}
use xhopin.Asm.{encode, addi, loadw, storew}
use xhopin.Asm.Text.{codes, has_char}
use xhopin.Asm.Operand.{Tables, lookup, clean_of, resolve_value, reg_to_num}
use xhopin.Asm.Line.{max_code, scan_load}
use xhopin.Asm.Passes.{fgets_all, pass1, pass2, start, binary, assemble}
use xhopin.Asm.First.{statements}
use xhopin.Asm.Labels.{DefinesLabel, pass2-pass1, resolve_value-label}
use xhopin.Asm.Accepted.{header, kernel_load_app-assemble}
use xhopin.Asm.Immediate.{ReadsBack, decode-encode_imm, addi-negative}

abbrev before : List (List ℕ)
before = codes ".ramsize 64\n" ∷ codes ".equ K, 5\n" ∷ codes "  ADDI a0, a1, K\n" ∷ []

abbrev label : List ℕ
label = codes " loop: \n"

abbrev after : List (List ℕ)
after = codes "JMP loop\n" ∷ codes "HALT\n" ∷ []

abbrev lines : List (List ℕ)
lines = before ++ (label ∷ after)

abbrev tables : Tables
tables = record start {
  labels = record { name = codes "loop"; value = 4 } ∷ [];
  constants = record { name = codes "K"; value = 5 } ∷ [];
  ram_size = 64;
  pc = 12;
}

abbrev code : List ℕ
code = 5 ∷ 5 ∷ 4 ∷ 3 ∷ 4 ∷ 0 ∷ 0 ∷ 51 ∷ 0 ∷ 0 ∷ 0 ∷ 255 ∷ []

first_run : pass1 lines start ≡ ok tables
unfolding assemble
first_run = refl

second_run : pass2 tables lines 0 [] ≡ ok code
unfolding assemble
second_run = refl

pass2-pass1_example :
    (tables.pc ≡ length code) × (length code ≡ 4 * statements lines) × (length code ≤ max_code)
pass2-pass1_example = pass2-pass1 lines tables code first_run second_run

abbrev tables_before : Tables
tables_before = record tables { labels = []; pc = 4 }

run_before : pass1 before start ≡ ok tables_before
unfolding assemble
run_before = refl

defines : DefinesLabel label (codes "loop")
unfolding assemble
defines = record { statement = refl; no_dot = refl; colon = refl; named = refl }

no_label : lookup tables_before.labels (codes "loop") ≡ none
unfolding lookup
no_label = refl

no_constant : lookup tables.constants (codes "loop") ≡ none
unfolding lookup
no_constant = refl

clean : clean_of (codes "loop") ≡ ok (codes "loop")
unfolding clean_of
clean = refl

resolve_value-label_example :
    (c1 more : List ℕ) × (pass2 tables before 0 [] ≡ ok c1)
    × (code ≡ c1 ++ more)
    × (resolve_value tables (codes "loop") ≡ ok (length c1))
resolve_value-label_example =
    resolve_value-label before after label (codes "loop") (codes "loop") tables_before tables code
      run_before first_run second_run defines no_label no_constant clean refl

abbrev text : List ℕ
text = codes ".ramsize 64\n.equ K, 5\n  ADDI a0, a1, K\n loop: \nJMP loop\nHALT\n"

assembled : assemble text ≡ ok (binary tables code)
unfolding assemble
assembled = refl

-- An allocator of three blocks, which counts its calls.
abbrev blocks : Allocator
blocks = record {
  Mem = ℕ;
  alloc =
      λ size n. if size == 0 then (0, n) else if leb 3 n then (0, n) else (400 + 100 * n, n + 1);
  free = λ p n. n;
  alloc_zero = λ n. refl;
}

abbrev kernel : Kernel ℕ
kernel = record {
  mem = 0;
  vms = λ p. none;
  tasks = λ p. none;
  ready_list = 0;
  current_task = 0;
  next_task_id = 0;
  entries = λ p. none;
  queue_head = 0;
  queue_tail = 0;
  handlers = λ e. [];
}

kernel_load_app-assemble_example :
    (t : Tables) × (c : List ℕ) × (pass1 (fgets_all 255 text) start ≡ ok t)
    × (pass2 t (fgets_all 255 text) 0 [] ≡ ok c)
    × (kernel_load_app blocks 9 77 800 (binary tables code) (length (binary tables code)) kernel
        ≡ start_app blocks 9 77 (header t c) c kernel)
kernel_load_app-assemble_example =
    kernel_load_app-assemble blocks 9 77 800 text (binary tables code) kernel (omega arith)
      assembled

-- LOAD t0, 8(sp)
base_lost : scan_load tables (codes "t0," ∷ codes "8(sp)" ∷ []) ≡ ok (loadw 8 0 8)
unfolding scan_load reg_to_num has_char
base_lost = refl

abbrev machine : Vm
machine = record {
  pc = 0;
  gp = replicate 32 0;
  code = [];
  code_size = 0;
  ram = [];
  ram_ptr = 0;
  ram_size = 0;
  state = VmState.running;
  capabilities = 0;
  name = [];
  ref_count = 1;
}

-- ADDI sp, sp, -4
addi-negative_example :
    execute Opcode.addi (decode (encode 0 (addi 29 29 (2 ^ 32 - 4)))) machine ≡ wild
addi-negative_example =
    addi-negative machine 29 29 4 refl (omega arith) (omega arith) (omega arith) (omega arith)

decode-encode_imm_example :
    ReadsBack 0x03 8 29 4 (encode 0 (addi 8 29 4))
    × ReadsBack 0x20 8 29 4 (encode 0 (loadw 8 29 4))
    × ReadsBack 0x21 8 29 4 (encode 0 (storew 29 4 8))
decode-encode_imm_example = decode-encode_imm 0 8 29 4 (omega arith) (omega arith) (omega arith)
