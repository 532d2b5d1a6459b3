-- ===== src/FileSystem.antt =====
-- The interface of a file system: kernel/fs/fs.h and the calls through it, kernel/fs/fs.c. A table of
-- operations acts on a state that it chooses; `none` stands for a missing operation.
use xhopin.Base.{ℕ, List, Option, none, some, Run, ok, Rc, failure}
use xhopin.RamDisk.{Disk}

-- `fs_ops_t`. A buffer is what the memory holds, and an offset in it.
pub record FsOps (S : Type 0) : Type 0 where
  pub mount : Option (S → Run (Rc × S))
  pub format : Option (S → Run (Rc × S))
  pub create : Option (List ℕ → S → Run (Rc × S))
  pub read : Option (List ℕ → List ℕ → ℕ → ℕ → S → Run (Rc × List ℕ × S))
  pub write : Option (List ℕ → List ℕ → ℕ → ℕ → S → Run (Rc × S))
  pub remove : Option (List ℕ → S → Run (Rc × S))
  pub rename : Option (List ℕ → List ℕ → S → Run (Rc × S))

-- `fs->ctx`, if it is not NULL, the device behind `fs->storage`, and the heap.
pub record Volume (Ctx Mem : Type 0) : Type 0 where
  pub ctx : Option Ctx
  pub disk : Disk
  pub mem : Mem

-- A file system is NULL or without a table if it is `none`.
module _ {S : Type 0} where
  -- The call of an operation that only changes the state, if it is there.
  abbrev pub call : Option (S → Run (Rc × S)) → S → Run (Rc × S)
  call none s = ok (failure, s)
  call (some f) s = f s

  unfoldable pub fs_mount : Option (FsOps S) → S → Run (Rc × S)
  fs_mount none s = ok (failure, s)
  fs_mount (some ops) s = call ops.mount s

  unfoldable pub fs_format : Option (FsOps S) → S → Run (Rc × S)
  fs_format none s = ok (failure, s)
  fs_format (some ops) s = call ops.format s

  unfoldable pub fs_create : Option (FsOps S) → List ℕ → S → Run (Rc × S)
  fs_create none name s = ok (failure, s)
  fs_create (some ops) name s = elim ops.create [ none ↦ ok (failure, s) | some f ↦ f name s ]

  unfoldable pub fs_write : Option (FsOps S) → List ℕ → List ℕ → ℕ → ℕ → S → Run (Rc × S)
  fs_write none name bytes at len s = ok (failure, s)
  fs_write (some ops) name bytes at len s = elim ops.write [
    | none ↦ ok (failure, s)
    | some f ↦ f name bytes at len s
  ]

  unfoldable pub fs_read : Option (FsOps S) → List ℕ → List ℕ → ℕ → ℕ → S → Run (Rc × List ℕ × S)
  fs_read none name bytes at len s = ok (failure, bytes, s)
  fs_read (some ops) name bytes at len s = elim ops.read [
    | none ↦ ok (failure, bytes, s)
    | some f ↦ f name bytes at len s
  ]

  unfoldable pub fs_remove : Option (FsOps S) → List ℕ → S → Run (Rc × S)
  fs_remove none name s = ok (failure, s)
  fs_remove (some ops) name s = elim ops.remove [ none ↦ ok (failure, s) | some f ↦ f name s ]

  unfoldable pub fs_rename : Option (FsOps S) → List ℕ → List ℕ → S → Run (Rc × S)
  fs_rename none old_name new_name s = ok (failure, s)
  fs_rename (some ops) old_name new_name s = elim ops.rename [
    | none ↦ ok (failure, s)
    | some f ↦ f old_name new_name s
  ]
