-- ===== src/Ramfs2/Table.antt =====
-- The operation table of kernel/fs/ramfs2/ramfs2.c, as the calls of kernel/fs/fs.c use it. It has no
-- format and no rename.
use xhopin.Base.{ℕ, List, Option, none, some, Run, ok, wild, ◌>>=◌, Rc}
use xhopin.Kernel.{Allocator}
use xhopin.FileSystem.{FsOps, Volume}
use xhopin.Ramfs2.{BlockCtx, ramfs_mount, ramfs_create, ramfs_read, ramfs_write, ramfs_remove}

-- `ctx->head`, for a context that may be NULL.
abbrev pub context {ℓ} : {C : Type ℓ} → Option C → Run C
context none = wild
context (some c) = ok c

module _ (block_size block_count : ℕ) (A : Allocator) where
  open A use {Mem}

  abbrev pub BlockVolume : Type 0
  BlockVolume = Volume BlockCtx Mem

  -- What `fs->ctx` is after a mount: the old one, unless a new one was made.
  abbrev kept_ctx : Option BlockCtx → Option BlockCtx → Option BlockCtx
  kept_ctx old none = old
  kept_ctx old (some c) = some c

  unfoldable pub mount_volume : BlockVolume → Run (Rc × BlockVolume)
  unfolding ramfs_mount
  mount_volume v =
      let (r, made, m) = ramfs_mount block_size block_count A v.mem in
      ok (r, record v { ctx = kept_ctx v.ctx made; mem = m })

  unfoldable pub create_on : List ℕ → BlockVolume → Run (Rc × BlockVolume)
  unfolding ramfs_create
  create_on name v = do
    fs ← context v.ctx
    (r, fs', m) ← ramfs_create block_size block_count A name fs v.mem
    ok (r, record v { ctx = some fs'; mem = m })

  unfoldable pub read_on : List ℕ → List ℕ → ℕ → ℕ → BlockVolume → Run (Rc × List ℕ × BlockVolume)
  unfolding ramfs_read
  read_on name bytes at len v = do
    fs ← context v.ctx
    (r, bytes') ← ramfs_read block_size block_count name bytes at len fs v.disk
    ok (r, bytes', v)

  unfoldable pub write_on : List ℕ → List ℕ → ℕ → ℕ → BlockVolume → Run (Rc × BlockVolume)
  unfolding ramfs_write
  write_on name bytes at len v = do
    fs ← context v.ctx
    (r, fs', disk, m) ← ramfs_write block_size block_count A name bytes at len fs v.disk v.mem
    ok (r, record { ctx = some fs'; disk = disk; mem = m })

  unfoldable pub remove_on : List ℕ → BlockVolume → Run (Rc × BlockVolume)
  unfolding ramfs_remove
  remove_on name v = do
    fs ← context v.ctx
    (r, fs', m) ← ramfs_remove block_size block_count A name fs v.mem
    ok (r, record v { ctx = some fs'; mem = m })

  -- `ramfs_ops`
  abbrev pub ramfs_ops : FsOps BlockVolume
  ramfs_ops = record {
    mount = some mount_volume;
    format = none;
    create = some create_on;
    read = some read_on;
    write = some write_on;
    remove = some remove_on;
    rename = none;
  }
