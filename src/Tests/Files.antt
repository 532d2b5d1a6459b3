-- ===== src/Tests/Files.antt =====
-- Files on a RAM disk of four blocks of eight bytes (kernel/fs/ramfs/ramfs.c,
-- drivers/storage/ram/storage_ram.c), and statements of the assembler (asm/vm_asm.c).
use xhopin.Base.{
  ℕ, ◌+◌, ◌*◌, ◌≡◌, refl, List, [], ◌∷◌, ◌++◌, replicate, arith, ok, success, ◌==◌, if◌then◌else◌,
}
use xhopin.Kernel.{Allocator}
use xhopin.RamDisk.{Disk}
use xhopin.Ramfs.{File, RamfsCtx, ramfs_create, ramfs_write, ramfs_read}
use xhopin.Ramfs.Names.{ramfs_create-same_block}
use xhopin.Vm.{Vm, VmState}
use xhopin.Vm.Opcode.{Opcode}
use xhopin.Vm.Step.{decode, execute, reg, jumped}
use xhopin.Asm.{encode, beq}
use xhopin.Asm.Fields.{branch-short}

-- An allocator that never runs out.
abbrev endless : Allocator
endless = record {
  Mem = ℕ;
  alloc = λ size n. if size == 0 then (0, n) else (400 + 100 * n, n + 1);
  free = λ p n. n;
  alloc_zero = λ n. refl;
}

abbrev empty : RamfsCtx
empty = record { files = []; next_free_block = 0 }

abbrev file : List ℕ → File
file name = record { name = name; size = 0; start_block = 0 }

abbrev name_a : List ℕ
name_a = 97 ∷ replicate 31 0

abbrev name_b : List ℕ
name_b = 98 ∷ replicate 31 0

abbrev one : RamfsCtx
one = record { files = (400, file name_a) ∷ []; next_free_block = 0 }

abbrev two : RamfsCtx
two = record { files = (500, file name_b) ∷ ((400, file name_a) ∷ []); next_free_block = 0 }

create_a : ramfs_create endless name_a empty 0 ≡ ok (success, one, 1)
unfolding ramfs_create
create_a = refl

create_b : ramfs_create endless name_b one 1 ≡ ok (success, two, 2)
unfolding ramfs_create
create_b = refl

ramfs_create-same_block_example :
    (p q : ℕ) × (f g : File) × (two.files ≡ (q, g) ∷ ((p, f) ∷ []))
    × (g.start_block ≡ f.start_block)
ramfs_create-same_block_example =
    ramfs_create-same_block endless name_a name_b empty one two 0 1 2 create_a create_b

abbrev disk : List ℕ → Disk
disk buffer = record { ctx = 800; buffer_ptr = 900; buffer = buffer }

-- Ten bytes take two blocks, and are read back.
written :
    ramfs_write 8 4 name_a (replicate 10 7) 0 10 one (disk (replicate 32 0))
    ≡ ok (
      success,
      record {
        files = (400, record { name = name_a; size = 10; start_block = 0 }) ∷ [];
        next_free_block = 2;
      },
      disk (replicate 10 7 ++ replicate 22 0),
    )
unfolding ramfs_write
written = refl

read_back :
    ramfs_read 8 4 name_a
      (replicate 12 0)
      0
      12
      (record {
        files = (400, record { name = name_a; size = 10; start_block = 0 }) ∷ [];
        next_free_block = 2;
      })
      (disk (replicate 10 7 ++ replicate 22 0))
    ≡ ok (success, replicate 10 7 ++ replicate 2 0)
unfolding ramfs_read
read_back = refl

abbrev machine : Vm
machine = record {
  pc = 8;
  gp = replicate 32 0;
  code = [];
  code_size = 0;
  ram = [];
  ram_ptr = 0;
  ram_size = 0;
  state = VmState.running;
  capabilities = 0;
  name = [];
  ref_count = 1;
}

zero_reads : reg machine 0 ≡ ok 0
unfolding reg
zero_reads = refl

-- BEQ zero, zero to the address 24 goes to 20.
branch-short_example :
    execute Opcode.beq (decode (encode 8 (beq 0 0 24))) machine
    ≡ ok (jumped (record machine { pc = 20 }))
branch-short_example =
    branch-short machine 0 3 (omega arith) (omega arith) (omega arith) zero_reads zero_reads

abbrev ram0 : List ℕ
ram0 = 114 ∷ 97 ∷ 109 ∷ 48 ∷ []
