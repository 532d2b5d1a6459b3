-- ===== src/Services/Ram.antt =====
-- What the services (kernel/vm/kernel_services.c) put into a buffer: reading a file and reading the console
-- leave a buffer of bytes, as long as it was.
use xhopin.Base.{
  ℕ, zero, suc, ◌+◌, ◌*◌, ◌%◌, ◌==◌, ◌≡◌, refl, ltb, leb, false, List, [], ◌∷◌, get_elem?, or_wild,
  Post, Post-bind, Post-if, Post-bind_any, Post-option, Rc, success, failure,
}
use xhopin.Word.{w32, read_byte, write_byte}
use xhopin.Vm.Invariant.{SameLength, write_byte-SameLength}
use xhopin.RamDisk.{Disk, mem_copy, ram_read}
use xhopin.Ramfs2.{BlockCtx, find_node, get_blocks, ramfs_read}
use xhopin.Serial.{Driver, Serial, arch_uart_read}
use xhopin.Console.{int_of, put_bytes, read_line, uart_read}

module _ (buf : List ℕ) where
  mem_copy-SameLength :
      (n : ℕ) (m : List ℕ) (d : ℕ) (src : List ℕ) (s : ℕ)
      → SameLength buf m
      → Post (SameLength buf) (mem_copy n m d src s)
  unfolding mem_copy
  mem_copy-SameLength zero m d src s h = h
  mem_copy-SameLength (suc n) m d src s h = Post-bind_any (SameLength buf) (read_byte src s) _ λ b.
      Post-bind (SameLength buf) (SameLength buf) (write_byte m d b) _
        (write_byte-SameLength buf m d b h) λ m' h'. mem_copy-SameLength n m' (d + 1) src (s + 1) h'

  put_bytes-SameLength :
      (m : List ℕ) (at : ℕ) (bytes : List ℕ)
      → SameLength buf m
      → Post (SameLength buf) (put_bytes m at bytes)
  unfolding put_bytes
  put_bytes-SameLength m at [] h = h
  put_bytes-SameLength m at (b ∷ bytes) h =
      Post-bind (SameLength buf) (SameLength buf) (write_byte m at b) _
        (write_byte-SameLength buf m at b h) λ m' h'. put_bytes-SameLength m' (at + 1) bytes h'

  module _ (block_size block_count : ℕ) where
    abbrev pub Filled : Rc × List ℕ → Type 0
    Filled (r, m) = SameLength buf m

    ram_read-Filled :
        (disk : Disk) (block : ℕ) (m : List ℕ) (at len : ℕ)
        → SameLength buf m
        → Post Filled (ram_read block_size block_count disk block m at len)
    unfolding ram_read
    ram_read-Filled disk block m at len h =
        Post-if Filled (disk.ctx == 0) _ _ (λ _. h)
          λ _.
            Post-if Filled (leb block_count block) _ _ (λ _. h)
              λ _.
                Post-if Filled (ltb block_size len) _ _ (λ _. h)
                  λ _.
                    Post-bind (SameLength buf) Filled
                      (mem_copy len m at disk.buffer (block * block_size)) _
                      (mem_copy-SameLength len m at disk.buffer (block * block_size) h) λ m' h'. h'

    get_blocks-SameLength :
        (n i : ℕ) (blocks m : List ℕ) (at : ℕ) (disk : Disk)
        → SameLength buf m
        → Post (SameLength buf) (get_blocks block_size block_count n i blocks m at disk)
    unfolding get_blocks
    get_blocks-SameLength zero i blocks m at disk h = h
    get_blocks-SameLength (suc n) i blocks m at disk h =
        Post-bind_any (SameLength buf) (or_wild (get_elem? blocks i)) _ λ b.
          Post-bind Filled (SameLength buf)
            (ram_read block_size block_count disk b m (at + i * block_size % w32) block_size) _
            (ram_read-Filled disk b m (at + i * block_size % w32) block_size h)
            λ (r, m') h'. get_blocks-SameLength n (i + 1) blocks m' at disk h'

    pub ramfs_read-Filled :
        (name m : List ℕ) (at len : ℕ) (fs : BlockCtx) (disk : Disk)
        → SameLength buf m
        → Post Filled (ramfs_read block_size block_count name m at len fs disk)
    unfolding ramfs_read
    ramfs_read-Filled name m at len fs disk h =
        Post-bind_any Filled (find_node 0 fs.files name) _ λ found.
          Post-option Filled found _ _ h λ (i, p, f).
            Post-bind (SameLength buf) Filled
              (get_blocks block_size block_count f.block_count 0 f.blocks m at disk) _
              (get_blocks-SameLength f.block_count 0 f.blocks m at disk h) λ m' h'. h'

  module _ (D : Driver) where
    -- The number of characters is 0, since a read returns 0 or -1 and never 1.
    abbrev pub NothingRead : ℕ × List ℕ × Serial D → Type 0
    NothingRead (n, m, s) = (n ≡ 0) × SameLength buf m

    int_of-no_one : (r : Rc) → (int_of r == 1) ≡ false
    int_of-no_one success = refl
    int_of-no_one failure = refl

    pub uart_read-NothingRead :
        (at max_len : ℕ) (m : List ℕ) (s : Serial D)
        → SameLength buf m
        → Post NothingRead (uart_read D m at max_len s)
    unfolding uart_read read_line
    uart_read-NothingRead at zero m s h = (refl, h)
    uart_read-NothingRead at (suc n) m s h =
        let (r, bytes, s') = arch_uart_read D 0 1 s in
        rw (int_of-no_one (arch_uart_read D 0 1 s).0) (
          Post-bind (SameLength buf) NothingRead (put_bytes m (at + 0) (arch_uart_read D 0 1 s).1) _
            (put_bytes-SameLength m (at + 0) (arch_uart_read D 0 1 s).1 h) λ m' h'. (refl, h'))
