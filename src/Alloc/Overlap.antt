-- ===== src/Alloc/Overlap.antt =====
-- A heap on which `find_free_units` (kernel/memory/mem_alloc.c) joins two runs of free units across
-- a full word: skipping the word leaves `count` as it was.
use xhopin.Base.{
  ℕ, zero, suc, ◌+◌, ◌-◌, ◌*◌, ◌≡◌, refl, ◌<◌, ◌≤◌, Bool, true, false, Option, none, some, arith,
  leb, ◌==◌, Bool-cases, inl, inr, ap, ◌∙◌,
}
use xhopin.Alloc.{
  Heap, mem_alloc, scan_bits, scan_words, find_free_units, all_set, bitmap_words, continue, return,
  units_for,
}

all_set-used :
    (bits : ℕ → Bool) (k i : ℕ)
    → ((j : ℕ) → i ≤ j → j < i + k → bits j ≡ true)
    → all_set bits k i ≡ true
unfolding all_set
all_set-used bits zero i h = refl
all_set-used bits (suc k) i h = rw (
  h i (omega arith) (omega arith),
  all_set-used bits k (i + 1) (λ j p q. h j (omega arith) (omega arith)),
)

pub all_set-free :
    (bits : ℕ → Bool) (k i j : ℕ) → i ≤ j → j < i + k → bits j ≡ false → all_set bits k i ≡ false
unfolding all_set
all_set-free bits zero i j p q e = absurd (omega arith)
all_set-free bits (suc k) i j p q e = elim (Bool-cases (i == j)) [
  | inl t ↦ let same : i ≡ j = ground arith in rw (same, e)
  | inr t ↦ ground (arith, all_set-free bits k (i + 1) j)
]

-- `m` used units and then a free one, the last of the word, leave the loop with a count of one.
scan_bits-last :
    (n : ℕ) (bits : ℕ → Bool) (m i last : ℕ) (start : Option ℕ)
    → i + m ≡ last
    → last < n
    → ((j : ℕ) → i ≤ j → j < last → bits j ≡ true)
    → bits last ≡ false
    → scan_bits n bits 2 (suc m) i 0 start ≡ continue 1 (some last)
unfolding scan_bits
scan_bits-last n bits zero i last start e inside used free =
    let here : i ≡ last = omega arith in
    let in_heap : leb n i ≡ false = ground arith in
    let free_here : bits i ≡ false = ap bits here ∙ free in
    rw (in_heap, free_here, scan_bits) (ap (λ j. continue 1 (some j)) here)
scan_bits-last n bits (suc m) i last start e inside used free =
    let in_heap : leb n i ≡ false = ground arith in
    rw (in_heap, used i (omega arith) (omega arith), scan_bits)
      (scan_bits-last n bits m (i + 1) last start (omega arith) inside
        (λ j p q. used j (omega arith) q) free)

-- A free unit at the start of a word ends the search for two units, if one is counted already.
scan_bits-second :
    (n : ℕ) (bits : ℕ → Bool) (k i : ℕ) (start : Option ℕ)
    → i < n
    → bits i ≡ false
    → scan_bits n bits 2 (suc k) i 1 start ≡ return start
unfolding scan_bits
scan_bits-second n bits k i start inside free =
    let in_heap : leb n i ≡ false = ground arith in rw (in_heap, free, scan_bits)

-- Unit 31 is the only free one of its word, the next word is full, and unit 64 is free.
pub record Straddles (num_units : ℕ) (bits : ℕ → Bool) : Type 0 where
  pub size : 64 < num_units
  pub low : (j : ℕ) → j < 31 → bits j ≡ true
  pub unit_31 : bits 31 ≡ false
  pub middle : (j : ℕ) → 32 ≤ j → j < 64 → bits j ≡ true
  pub unit_64 : bits 64 ≡ false

pub find_free_units-Straddles :
    (num_units : ℕ) (bits : ℕ → Bool)
    → Straddles num_units bits
    → find_free_units num_units bits 2 ≡ some 31
unfolding find_free_units
find_free_units-Straddles n bits s =
    let words : bitmap_words n ≡ suc (suc (suc (bitmap_words n - 3))) = omega (arith, s.size) in
    rw (
      words,
      scan_words,
      all_set-free bits 32 0 31 (omega arith) (omega arith) s.unit_31,
      scan_bits-last n bits 31 0 31 none refl (omega (arith, s.size)) (λ j p q. s.low j q)
          s.unit_31,
      all_set-used bits 32 32 s.middle,
      all_set-free bits 32 64 64 (omega arith) (omega arith) s.unit_64,
      scan_bits-second n bits 31 64 (some 31) s.size s.unit_64,
    )

-- On a heap whose word 0 is free at unit 31 only, whose word 1 is full and whose unit 64 is free,
-- mem_alloc of 5 to 12 bytes returns the block at unit 31, whose second unit is in use.
pub mem_alloc-Straddles :
    (num_units size : ℕ) (h : Heap)
    → Straddles num_units h.bits
    → 4 < size
    → size ≤ 12
    → ((mem_alloc num_units size h).0 ≡ 31 * 8 + 4) × (h.bits 32 ≡ true)
unfolding mem_alloc
mem_alloc-Straddles n size h s lo hi =
    let nz : (size == 0) ≡ false = ground arith in
    let two : units_for size ≡ 2 = omega arith in
    (
      ground (arith, find_free_units-Straddles n h.bits s, ap (find_free_units n h.bits) two),
      s.middle 32 (omega arith) (omega arith),
    )
