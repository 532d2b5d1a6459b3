-- ===== src/Alloc.antt =====
-- The kernel's heap: kernel/memory/mem_alloc.c.
-- A bit of the bitmap stands for one unit of eight bytes. `NUM_UNITS` depends on the processor and
-- is a parameter. A pointer is an offset into `heap`, and 0 is NULL: no block starts at 0.
pub mod Bitmap
pub mod Find
pub mod Blocks
pub mod Overlap
pub mod FirstFit
use xhopin.Base.{
  ℕ, zero, suc, ◌+◌, ◌-◌, ◌*◌, ◌/◌, ◌%◌, ◌^◌, Bool, true, false, Option, none, some, ltb, leb, ◌==◌,
  if◌then◌else◌, ◌&&◌,
}
use xhopin.Word.{w32, add32}

abbrev pub mem_unit_size : ℕ
mem_unit_size = 8

abbrev pub mem_magic : ℕ
mem_magic = 0xBEEF

abbrev pub sizeof_mem_header : ℕ
sizeof_mem_header = 4

-- `mem_header`
pub record MemHeader : Type 0 where
  pub magic : ℕ
  pub units : ℕ

-- The bitmap, and the headers by their offset in the heap.
pub record Heap : Type 0 where
  pub bits : ℕ → Bool
  pub header : ℕ → MemHeader

unfoldable pub bit_set : (ℕ → Bool) → ℕ → ℕ → Bool
bit_set bits index j = if j == index then true else bits j

unfoldable pub bit_clear : (ℕ → Bool) → ℕ → ℕ → Bool
bit_clear bits index j = if j == index then false else bits j

-- The bits of an empty word, for each of `BITMAP_WORDS` words.
unfoldable pub mem_init : Heap → Heap
mem_init h = record h { bits = λ _. false }

-- `for (i = 0; i < units; i++) bit_set(start + i);` and likewise for `bit_clear`
unfoldable pub set_units : ℕ → ℕ → (ℕ → Bool) → ℕ → Bool
set_units zero start bits = bits
set_units (suc n) start bits = set_units n (start + 1) (bit_set bits start)

unfoldable pub clear_units : ℕ → ℕ → (ℕ → Bool) → ℕ → Bool
clear_units zero start bits = bits
clear_units (suc n) start bits = clear_units n (start + 1) (bit_clear bits start)

-- `bitmap[w] == 0xFFFFFFFF`: the bits from `index` on, `k` of them, are all set.
unfoldable pub all_set : (ℕ → Bool) → ℕ → ℕ → Bool
all_set bits zero index = true
all_set bits (suc k) index = bits index && all_set bits k (index + 1)

-- How the scan of one word ends: by `return`, or with the loop's variables.
pub data Scan : Type 0 where
  return : Option ℕ → Scan
  continue : ℕ → Option ℕ → Scan

unfoldable pub resume : Scan → (ℕ → Option ℕ → Option ℕ) → Option ℕ
resume (return r) f = r
resume (continue count start) f = f count start

-- `for (i = 0; i < NUM_UNITS; i++) if (!bit_get(i)) free_units++;`
unfoldable pub count_free : (ℕ → Bool) → ℕ → ℕ → ℕ
count_free bits zero index = 0
count_free bits (suc k) index = (if bits index then 0 else 1) + count_free bits k (index + 1)

-- `size` is a 32-bit `size_t`.
abbrev pub units_for : ℕ → ℕ
units_for size = add32 (add32 size sizeof_mem_header) (mem_unit_size - 1) / mem_unit_size

abbrev pub place : Heap → ℕ → ℕ → ℕ × Heap
place h units start = (
  start * mem_unit_size + sizeof_mem_header,
  record {
    bits = set_units units start h.bits;
    header = λ a.
        if a == start * mem_unit_size
        then record { magic = mem_magic; units = units % 2 ^ 16 }
        else h.header a;
  },
)

-- `NUM_UNITS`
module _ (num_units : ℕ) where
  -- The inner loop over `k` more bits. `start` is -1 (`none`) until a free unit is met.
  unfoldable pub scan_bits : (ℕ → Bool) → ℕ → ℕ → ℕ → ℕ → Option ℕ → Scan
  scan_bits bits needed zero index count start = continue count start
  scan_bits bits needed (suc k) index count start = elim (leb num_units index) [
    | true ↦ return none
    | false ↦ elim (bits index) [
      | true ↦ scan_bits bits needed k (index + 1) 0 start
      | false ↦
          let start' = if count == 0 then some index else start in
          elim (count + 1 == needed) [
            | true ↦ return start'
            | false ↦ scan_bits bits needed k (index + 1) (count + 1) start'
          ]
    ]
  ]

  -- The outer loop over the words from `w` on. A full word is skipped, and `count` stays.
  unfoldable pub scan_words : (ℕ → Bool) → ℕ → ℕ → ℕ → ℕ → Option ℕ → Option ℕ
  scan_words bits needed zero w count start = none
  scan_words bits needed (suc k) w count start = elim (all_set bits 32 (w * 32)) [
    | true ↦ scan_words bits needed k (w + 1) count start
    | false ↦
        resume (scan_bits bits needed 32 (w * 32) count start)
          (λ count' start'. scan_words bits needed k (w + 1) count' start')
  ]

  -- `BITMAP_WORDS`
  abbrev pub bitmap_words : ℕ
  bitmap_words = (num_units + 31) / 32

  unfoldable pub find_free_units : (ℕ → Bool) → ℕ → Option ℕ
  unfolding scan_words scan_bits all_set resume
  find_free_units bits needed = scan_words bits needed bitmap_words 0 0 none

  unfoldable pub mem_alloc : ℕ → Heap → ℕ × Heap
  unfolding find_free_units
  mem_alloc size h = if size == 0 then (0, h) else elim (find_free_units h.bits (units_for size)) [
    | none ↦ (0, h)
    | some start ↦ place h (units_for size) start
  ]

  unfoldable pub mem_free_space : Heap → ℕ
  unfolding count_free
  mem_free_space h = count_free h.bits num_units 0 * mem_unit_size

abbrev pub release : Heap → ℕ → Heap
release h a = record {
  bits = clear_units (h.header a).units (a / mem_unit_size) h.bits;
  header = λ b. if b == a then record (h.header a) { magic = 0 } else h.header b;
}

-- `ptr` is NULL or a pointer that `mem_alloc` once returned, so that `ptr - 4` is in the heap.
unfoldable pub mem_free : ℕ → Heap → Heap
mem_free ptr h =
    if ptr == 0
    then h
    else if (h.header (ptr - sizeof_mem_header)).magic == mem_magic
    then release h (ptr - sizeof_mem_header)
    else h
