-- ===== src/Chip/Memory.antt =====
-- The kernel's heap (kernel/memory/mem_alloc.c) of a processor, and whether the RAM disk
-- (drivers/storage/ram/storage_ram.c) fits into it.
use xhopin.Base.{
  ℕ, zero, suc, ◌+◌, ◌*◌, ◌≡◌, refl, ◌<◌, ◌≤◌, ◌≢◌, Bool, false, Option, none, some, arith, leb,
  ◌==◌, ap, [], if◌then◌else◌, Bool-cases, inl, inr, ok, failure, List,
}
use xhopin.Kernel.{Kernel, Allocator}
use xhopin.Alloc.{
  Heap, Scan, return, continue, scan_bits, scan_words, find_free_units, all_set, resume,
  bitmap_words, mem_alloc, mem_free, units_for,
}
use xhopin.Device.{Devices}
use xhopin.Storage.{storage_ram_init, sizeof_storage_dev}
use xhopin.RamDisk.{Disk, ram_init, ram_read, ram_write}
use xhopin.Chip.{Chip, num_units, pic32mz2048efm144}

-- A search for more units than there are: nothing is returned, or `count` is at most `end`.
abbrev Short : ℕ → Scan → Type 0
Short end (return r) = r ≡ none
Short end (continue count start) = count ≤ end

module _ (n : ℕ) (bits : ℕ → Bool) (needed : ℕ) (large : n < needed) where
  scan_bits-Short :
      (k index count : ℕ) (start : Option ℕ) (end : ℕ)
      → count ≤ index
      → index + k ≡ end
      → Short end (scan_bits n bits needed k index count start)
  unfolding scan_bits
  scan_bits-Short zero index count start end le e = omega arith
  scan_bits-Short (suc k) index count start end le e = elim (Bool-cases (leb n index)) [
    | inl past ↦ rw (past, Short) refl
    | inr inside ↦ elim (Bool-cases (bits index)) [
      | inl used ↦
          rw (inside, used, Short)
            (scan_bits-Short k (index + 1) 0 start end (omega arith) (omega arith))
      | inr free ↦
          let more : (count + 1 == needed) ≡ false = ground arith in
          rw (inside, free, more, Short)
            (scan_bits-Short k (index + 1) (count + 1) (if count == 0 then some index else start)
              end (omega arith) (omega arith))
    ]
  ]

  resume-none :
      (end : ℕ) (sc : Scan) (f : ℕ → Option ℕ → Option ℕ)
      → Short end sc
      → ((c : ℕ) (st : Option ℕ) → c ≤ end → f c st ≡ none)
      → resume sc f ≡ none
  unfolding resume
  resume-none end (return r) f h g = h
  resume-none end (continue c st) f h g = g c st h

  scan_words-none :
      (k w count : ℕ) (start : Option ℕ)
      → count ≤ w * 32
      → scan_words n bits needed k w count start ≡ none
  unfolding scan_words
  scan_words-none zero w count start le = refl
  scan_words-none (suc k) w count start le = elim (Bool-cases (all_set bits 32 (w * 32))) [
    | inl full ↦ rw (full, scan_words) (scan_words-none k (w + 1) count start (omega arith))
    | inr gap ↦
        rw (gap, scan_words)
          (resume-none ((w + 1) * 32) (scan_bits n bits needed 32 (w * 32) count start)
            (λ c st. scan_words n bits needed k (w + 1) c st)
            (scan_bits-Short 32 (w * 32) count start ((w + 1) * 32) le (omega arith))
            λ c st le'. scan_words-none k (w + 1) c st le')
  ]

  find_free_units-none : find_free_units n bits needed ≡ none
  unfolding find_free_units
  find_free_units-none = scan_words-none (bitmap_words n) 0 0 none (omega arith)

-- An allocation of more units than the heap has fails and changes nothing, whatever is in use, words
-- that are full included.
pub mem_alloc-too_large : (n size : ℕ) (h : Heap) → n < units_for size → mem_alloc n size h ≡ (0, h)
unfolding mem_alloc
mem_alloc-too_large n size h large =
    let nothing = find_free_units-none n h.bits (units_for size) large in
    elim (Bool-cases (size == 0)) [ inl z ↦ rw z | inr nz ↦ rw (nz, nothing) ]

pub heap_alloc_zero : (n : ℕ) (m : Heap) → (mem_alloc n 0 m).0 ≡ 0
unfolding mem_alloc
heap_alloc_zero n m = refl

-- The kernel's own allocator on a processor.
abbrev pub heap_of : Chip → Allocator
heap_of c = record {
  Mem = Heap;
  alloc = mem_alloc (num_units c);
  free = mem_free;
  alloc_zero = heap_alloc_zero (num_units c);
}

-- The RAM disk of a processor fits into no heap.
abbrev pub TooLarge : Chip → Type 0
TooLarge c = num_units c < units_for (c.ramdisk_block_size * c.ramdisk_block_count)

ram_init-TooLarge :
    (c : Chip) (disk : Disk) (m : Heap)
    → TooLarge c
    → ((ram_init c.ramdisk_block_size c.ramdisk_block_count (heap_of c) disk m).0 ≡ failure)
      × ((ram_init c.ramdisk_block_size c.ramdisk_block_count (heap_of c) disk m).1 ≡ disk)
unfolding ram_init
ram_init-TooLarge c disk m large =
    let no_buffer =
      mem_alloc-too_large (num_units c) (c.ramdisk_block_size * c.ramdisk_block_count)
        (mem_alloc (num_units c) 4 m).1 large in
    rw no_buffer (ground arith)

-- Every access to the disk fails.
abbrev pub NoDisk : Chip → Disk → Type 0
NoDisk c disk =
    (block at len : ℕ) (bytes : List ℕ)
    → (ram_read c.ramdisk_block_size c.ramdisk_block_count disk block bytes at len
        ≡ ok (failure, bytes))
      × (ram_write c.ramdisk_block_size c.ramdisk_block_count disk block bytes at len
          ≡ ok (failure, disk))

NoDisk-null : (c : Chip) (disk : Disk) → disk.ctx ≡ 0 → NoDisk c disk
unfolding ram_read ram_write
NoDisk-null c disk e block at len bytes = rw e (refl, refl)

-- `storage_ram_init` on a processor, with the kernel's own heap.
abbrev pub ram_device :
    Chip → ℕ → ℕ → List ℕ → Devices → Disk → Kernel Heap → ℕ × List ℕ × Devices × Disk × Kernel Heap
ram_device c max ram_ops devs d disk k =
    storage_ram_init max (heap_of c) c.ramdisk_block_size c.ramdisk_block_count ram_ops devs d disk
      k

ram_device-NoDisk :
    (c : Chip) (max ram_ops : ℕ) (devs : List ℕ) (d : Devices) (disk : Disk) (k : Kernel Heap)
    → TooLarge c
    → (mem_alloc (num_units c) sizeof_storage_dev k.mem).0 ≢ 0
    → NoDisk c (ram_device c max ram_ops devs d disk k).3
unfolding storage_ram_init
ram_device-NoDisk c max ram_ops devs d disk k large ne =
    let made : ((mem_alloc (num_units c) 24 k.mem).0 == 0) ≡ false = ground arith in
    let fresh : Disk = record { ctx = 0; buffer_ptr = 0; buffer = [] } in
    rw made (NoDisk-null c _ (ap (λ (x : Disk). x.ctx) (ram_init-TooLarge c fresh _ large).1))

-- On the PIC32MZ2048EFM144 the RAM disk is larger than the heap: whatever is in use, if there is memory
-- for its device, no block of the disk that storage_ram_init leaves can be read or written.
pub storage_ram_init-NoDisk :
    (max ram_ops : ℕ) (devs : List ℕ) (d : Devices) (disk : Disk) (k : Kernel Heap)
    → (mem_alloc (num_units pic32mz2048efm144) sizeof_storage_dev k.mem).0 ≢ 0
    → NoDisk pic32mz2048efm144 (ram_device pic32mz2048efm144 max ram_ops devs d disk k).3
storage_ram_init-NoDisk max ram_ops devs d disk k ne =
    ram_device-NoDisk pic32mz2048efm144 max ram_ops devs d disk k (omega arith) ne
