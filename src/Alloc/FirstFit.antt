-- ===== src/Alloc/FirstFit.antt =====
-- That `mem_alloc` of kernel/memory/mem_alloc.c finds a block.
use xhopin.Base.{
  ℕ, zero, suc, ◌+◌, ◌-◌, ◌≡◌, ◌≢◌, ◌<◌, ◌≤◌, Bool, true, false, none, some, arith, leb, ◌==◌,
  Bool-cases, inl, inr, ap, ◌∙◌, subst, sym,
}
use xhopin.Alloc.{
  Heap, return, scan_bits, scan_words, find_free_units, bitmap_words, mem_alloc, units_for, place,
}
use xhopin.Alloc.Blocks.{Placed, place-Placed}
use xhopin.Alloc.Overlap.{all_set-free}

-- The units below `s` are used, and `needed` units from `s` on are free, in the first word.
pub record FitsAt (num_units : ℕ) (bits : ℕ → Bool) (needed s : ℕ) : Type 0 where
  pub some_needed : 0 < needed
  pub used : (j : ℕ) → j < s → bits j ≡ true
  pub free : (j : ℕ) → s ≤ j → j < s + needed → bits j ≡ false
  pub in_word : s + needed ≤ 32
  pub in_heap : s + needed ≤ num_units

module _ (n : ℕ) (bits : ℕ → Bool) (needed s : ℕ) (fits : FitsAt n bits needed s) where
  -- Within the free run, `count` units of it are behind.
  scan_bits-run :
      (k index count : ℕ)
      → s + count ≡ index
      → 0 < count
      → count < needed
      → s + needed ≤ index + k
      → scan_bits n bits needed k index count (some s) ≡ return (some s)
  unfolding scan_bits
  scan_bits-run zero index count at pos more room = absurd (omega arith)
  scan_bits-run (suc k) index count at pos more room =
      let inside : leb n index ≡ false = ground (arith, fits.in_heap) in
      let clear : bits index ≡ false = fits.free index (omega arith) (omega arith) in
      let begun : (count == 0) ≡ false = ground arith in
      elim (Bool-cases (count + 1 == needed)) [
        | inl last ↦ rw (inside, clear, last, begun, scan_bits)
        | inr on ↦
            rw (inside, clear, on, begun, scan_bits)
              (scan_bits-run k (index + 1) (count + 1) (omega arith) (omega arith) (ground arith)
                (omega arith))
      ]

  scan_bits-seek :
      (k index : ℕ)
      → index ≤ s
      → s + needed ≤ index + k
      → scan_bits n bits needed k index 0 none ≡ return (some s)
  unfolding scan_bits
  scan_bits-seek zero index le room = absurd (omega (arith, fits.some_needed))
  scan_bits-seek (suc k) index le room =
      let inside : leb n index ≡ false = ground (arith, fits.in_heap, fits.some_needed) in
      elim (Bool-cases (index == s)) [
        | inl at ↦
            let here : index ≡ s = ground arith in
            let clear : bits index ≡ false =
              fits.free index (omega arith) (omega (arith, fits.some_needed)) in
            elim (Bool-cases (1 == needed)) [
              | inl last ↦ rw (inside, clear, last, scan_bits) (ap (λ j. return (some j)) here)
              | inr more ↦
                  rw (inside, clear, more, scan_bits)
                    (ap (λ j. scan_bits n bits needed k (index + 1) 1 (some j)) here
                      ∙ scan_bits-run k (index + 1) 1 (omega arith) (omega arith)
                          (ground (arith, fits.some_needed)) (omega arith))
            ]
        | inr before ↦
            let taken : bits index ≡ true = fits.used index (ground arith) in
            rw (inside, taken, scan_bits)
              (scan_bits-seek k (index + 1) (ground arith) (omega arith))
      ]

  find_free_units-first : find_free_units n bits needed ≡ some s
  unfolding find_free_units
  find_free_units-first =
      let words : bitmap_words n ≡ suc (bitmap_words n - 1) =
        omega (arith, fits.in_heap, fits.some_needed) in
      rw (
        words,
        scan_words,
        all_set-free bits 32 0 s (omega arith) (omega (arith, fits.in_word, fits.some_needed))
            (fits.free s (omega arith) (omega (arith, fits.some_needed))),
        scan_bits-seek 32 0 (omega arith) (omega (arith, fits.in_word)),
      )

mem_alloc-place :
    (num_units size s : ℕ) (h : Heap)
    → size ≢ 0
    → FitsAt num_units h.bits (units_for size) s
    → mem_alloc num_units size h ≡ place h (units_for size) s
unfolding mem_alloc
mem_alloc-place num_units size s h ne fits =
    let nz : (size == 0) ≡ false = ground arith in
    rw (nz, find_free_units-first num_units h.bits (units_for size) s fits)

-- If the first free units of the heap form a run in the first word of the bitmap that is long
-- enough, mem_alloc of a size other than 0 does not fail: it returns the pointer behind the header of
-- the block at the first of them, sets the bits of exactly its units, and writes its header and no
-- other.
pub mem_alloc-first_fit :
    (num_units size s : ℕ) (h : Heap)
    → size ≢ 0
    → FitsAt num_units h.bits (units_for size) s
    → let (p, g) = mem_alloc num_units size h in (p ≢ 0) × Placed h (units_for size) s p g
mem_alloc-first_fit num_units size s h ne fits =
    subst (λ (x : ℕ × Heap). (x.0 ≢ 0) × Placed h (units_for size) s x.0 x.1)
      (sym (mem_alloc-place num_units size s h ne fits))
      ((λ e. absurd (omega arith)), place-Placed h (units_for size) s)
