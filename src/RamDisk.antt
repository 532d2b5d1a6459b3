-- ===== src/RamDisk.antt =====
-- The RAM disk: drivers/storage/ram/storage_ram.c. The numbers of its blocks depend on the processor
-- and are parameters. `buffer` is what the memory at `ctx->buffer` holds.
pub mod Copy
use xhopin.Base.{
  ℕ, zero, suc, ◌+◌, ◌*◌, ◌==◌, ltb, leb, if◌then◌else◌, List, [], replicate, Run, ok, ◌>>=◌, Rc,
  success, failure,
}
use xhopin.Word.{read_byte, write_byte}
use xhopin.Kernel.{Allocator}

-- `ram_ctx_t` and the pointer to it, NULL when the disk is not there.
pub record Disk : Type 0 where
  pub ctx : ℕ
  pub buffer_ptr : ℕ
  pub buffer : List ℕ

-- `mem_copy`, of `n` bytes, to the offset `d` of `dst` and from the offset `s` of `src`
unfoldable pub mem_copy : ℕ → List ℕ → ℕ → List ℕ → ℕ → Run (List ℕ)
unfolding read_byte write_byte
mem_copy zero dst d src s = ok dst
mem_copy (suc n) dst d src s = do
  b ← read_byte src s
  dst' ← write_byte dst d b
  mem_copy n dst' (d + 1) src (s + 1)

module _ (block_size block_count : ℕ) where
  module _ (A : Allocator) where
    open A use {Mem, alloc, free}

    unfoldable pub ram_init : Disk → Mem → Rc × Disk × Mem
    ram_init disk m =
        let (p, m') = alloc 4 m in
        let (b, m'') = alloc (block_size * block_count) m' in
        if p == 0 then (failure, disk, m') else if b == 0 then (failure, disk, free p m'') else (
          success,
          record { ctx = p; buffer_ptr = b; buffer = replicate (block_size * block_count) 0xfd },
          m'',
        )

    unfoldable pub ram_deinit : Disk → Mem → Rc × Disk × Mem
    ram_deinit disk m = if disk.ctx == 0 then (success, disk, m) else (
      success,
      record { ctx = 0; buffer_ptr = 0; buffer = [] },
      free disk.ctx (if disk.buffer_ptr == 0 then m else free disk.buffer_ptr m),
    )

  -- The caller's buffer is not NULL; `at` is the offset in it.
  unfoldable pub ram_read : Disk → ℕ → List ℕ → ℕ → ℕ → Run (Rc × List ℕ)
  unfolding mem_copy
  ram_read disk block bytes at len =
      if disk.ctx == 0
      then ok (failure, bytes)
      else if leb block_count block
      then ok (failure, bytes)
      else if ltb block_size len
      then ok (failure, bytes)
      else (do
        bytes' ← mem_copy len bytes at disk.buffer (block * block_size)
        ok (success, bytes'))

  unfoldable pub ram_write : Disk → ℕ → List ℕ → ℕ → ℕ → Run (Rc × Disk)
  unfolding mem_copy
  ram_write disk block bytes at len =
      if disk.ctx == 0
      then ok (failure, disk)
      else if leb block_count block
      then ok (failure, disk)
      else if ltb block_size len
      then ok (failure, disk)
      else (do
        buffer' ← mem_copy len disk.buffer (block * block_size) bytes at
        ok (success, record disk { buffer = buffer' }))
