-- ===== src/Ramfs.antt =====
-- The first file system: kernel/fs/ramfs/ramfs.c, over the RAM disk. The list of files is the list of
-- the nodes' addresses with their files, from `head` on. A string is what the memory holds from its
-- pointer on; a buffer is given with the offset `at` in it.
pub mod Names
use xhopin.Base.{
  ℕ, zero, suc, ◌+◌, ◌*◌, ◌/◌, ◌%◌, Bool, true, false, ◌==◌, ltb, if◌then◌else◌, List, [], ◌∷◌,
  ◌++◌, replicate, Option, none, some, Run, ok, wild, ◌>>=◌, Rc, success, failure,
}
use xhopin.Word.{w32, add32, sub32, byte_of}
use xhopin.Kernel.{Allocator}
use xhopin.RamDisk.{Disk, ram_read, ram_write}

-- `file_t`
pub record File : Type 0 where
  pub name : List ℕ
  pub size : ℕ
  pub start_block : ℕ

-- `ramfs_ctx_t`
pub record RamfsCtx : Type 0 where
  pub files : List (ℕ × File)
  pub next_free_block : ℕ

unfoldable pub str_eq : List ℕ → List ℕ → Run Bool
str_eq [] b = wild
str_eq (x ∷ a) [] = wild
str_eq (x ∷ a) (y ∷ b) = elim (x == y) [
  | false ↦ ok false
  | true ↦ elim (x == 0) [ true ↦ ok true | false ↦ str_eq a b ]
]

-- The `max` bytes that are written.
unfoldable pub str_copy : ℕ → List ℕ → Run (List ℕ)
str_copy zero src = ok []
str_copy (suc n) [] = wild
str_copy (suc n) (c ∷ src) = elim (c == 0) [
  | true ↦ ok (replicate (suc n) 0)
  | false ↦ str_copy n src >>= λ rest. ok (c ∷ rest)
]

abbrev pub four_bytes : ℕ → List ℕ
four_bytes w = byte_of w 0 ∷ byte_of w 1 ∷ byte_of w 2 ∷ byte_of w 3 ∷ []

-- The memory from `file.name` to the end of the file's structure.
abbrev pub stored_name : File → List ℕ
stored_name f = f.name ++ (four_bytes f.size ++ four_bytes f.start_block)

unfoldable pub find_file : List (ℕ × File) → List ℕ → Run (Option (ℕ × File))
unfolding str_eq
find_file [] name = ok none
find_file ((p, f) ∷ files) name = do
  same ← str_eq (stored_name f) name
  elim same [ true ↦ ok (some (p, f)) | false ↦ find_file files name ]

-- The node at `p` holds `f` now.
unfoldable pub set_file : ℕ → File → List (ℕ × File) → List (ℕ × File)
set_file p f [] = []
set_file p f ((q, g) ∷ files) = (if q == p then (q, f) else (q, g)) ∷ set_file p f files

-- The list without the first file of the name, and its address.
unfoldable pub unlink_file : List (ℕ × File) → List ℕ → Run (Option (ℕ × List (ℕ × File)))
unfolding str_eq
unlink_file [] name = ok none
unlink_file ((p, f) ∷ files) name = do
  same ← str_eq (stored_name f) name
  elim same [
    | true ↦ ok (some (p, files))
    | false ↦ unlink_file files name >>= λ r. elim r [
      | none ↦ ok none
      | some (q, rest) ↦ ok (some (q, (p, f) ∷ rest))
    ]
  ]

unfoldable pub ramfs_format : RamfsCtx → Rc × RamfsCtx
ramfs_format fs = (success, record { files = []; next_free_block = 0 })

module _ (A : Allocator) where
  open A use {Mem, alloc, free}

  -- The new context, if there is memory for it.
  unfoldable pub ramfs_mount : Mem → Rc × Option (ℕ × RamfsCtx) × Mem
  ramfs_mount m =
      let (p, m') = alloc 8 m in
      if p == 0
      then (failure, none, m')
      else (success, some (p, record { files = []; next_free_block = 0 }), m')

  unfoldable pub ramfs_create : List ℕ → RamfsCtx → Mem → Run (Rc × RamfsCtx × Mem)
  unfolding find_file str_copy
  ramfs_create name fs m = do
    found ← find_file fs.files name
    elim found [
      | some node ↦ ok (failure, fs, m)
      | none ↦
          let (p, m') = alloc 44 m in
          if p == 0 then ok (failure, fs, m') else (do
            copied ← str_copy 32 name
            ok (
              success,
              record fs {
                files =
                    (p, record { name = copied; size = 0; start_block = fs.next_free_block })
                    ∷ fs.files;
              },
              m',
            ))
    ]

  unfoldable pub ramfs_remove : List ℕ → RamfsCtx → Mem → Run (Rc × RamfsCtx × Mem)
  unfolding unlink_file
  ramfs_remove name fs m = do
    r ← unlink_file fs.files name
    elim r [
      | none ↦ ok (failure, fs, m)
      | some (p, files) ↦ ok (success, record fs { files = files }, free p m)
    ]

unfoldable pub ramfs_rename : List ℕ → List ℕ → RamfsCtx → Run (Rc × RamfsCtx)
unfolding find_file str_copy set_file
ramfs_rename old_name new_name fs = do
  found ← find_file fs.files old_name
  elim found [
    | none ↦ ok (failure, fs)
    | some (p, f) ↦ str_copy 32 new_name >>= λ copied.
        ok (success, record fs { files = set_file p (record f { name = copied }) fs.files })
  ]

module _ (block_size : ℕ) where
  -- `(len + block_size - 1) / block_size`
  abbrev pub blocks_for : ℕ → ℕ
  blocks_for len = sub32 (add32 len block_size) 1 / block_size

  -- What the round at `offset` copies.
  abbrev pub piece : ℕ → ℕ → ℕ
  piece len offset = if ltb (sub32 len offset) block_size then sub32 len offset else block_size

module _ (block_size block_count : ℕ) where
  -- The loop of `ramfs_write` from round `i` on. What the disk returns is not looked at.
  unfoldable pub write_blocks : ℕ → ℕ → ℕ → List ℕ → ℕ → ℕ → Disk → Run Disk
  unfolding ram_write
  write_blocks zero i start bytes at len disk = ok disk
  write_blocks (suc n) i start bytes at len disk = do
    (r, disk') ←
        ram_write block_size block_count disk (add32 start i) bytes (at + i * block_size % w32)
          (piece block_size len (i * block_size % w32))
    write_blocks n (i + 1) start bytes at len disk'

  unfoldable pub read_blocks : ℕ → ℕ → ℕ → List ℕ → ℕ → ℕ → Disk → Run (List ℕ)
  unfolding ram_read
  read_blocks zero i start bytes at len disk = ok bytes
  read_blocks (suc n) i start bytes at len disk = do
    (r, bytes') ←
        ram_read block_size block_count disk (add32 start i) bytes (at + i * block_size % w32)
          (piece block_size len (i * block_size % w32))
    read_blocks n (i + 1) start bytes' at len disk

  unfoldable pub ramfs_write :
      List ℕ → List ℕ → ℕ → ℕ → RamfsCtx → Disk → Run (Rc × RamfsCtx × Disk)
  unfolding find_file set_file write_blocks
  ramfs_write name bytes at len fs disk = do
    found ← find_file fs.files name
    elim found [
      | none ↦ ok (failure, fs, disk)
      | some (p, f) ↦
          write_blocks (blocks_for block_size len) 0 f.start_block bytes at len disk >>= λ disk'.
          ok (
            success,
            record {
              files = set_file p (record f { size = len }) fs.files;
              next_free_block = add32 fs.next_free_block (blocks_for block_size len);
            },
            disk',
          )
    ]

  unfoldable pub ramfs_read : List ℕ → List ℕ → ℕ → ℕ → RamfsCtx → Disk → Run (Rc × List ℕ)
  unfolding find_file read_blocks
  ramfs_read name bytes at len fs disk = do
    found ← find_file fs.files name
    elim found [
      | none ↦ ok (failure, bytes)
      | some (p, f) ↦
          let to_read = if ltb len f.size then len else f.size in
          read_blocks (blocks_for block_size to_read) 0 f.start_block bytes at to_read disk
          >>= λ bytes'. ok (success, bytes')
    ]
