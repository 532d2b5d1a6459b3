-- ===== src/Alloc/Find.antt =====
-- The search for free units: `find_free_units` of kernel/memory/mem_alloc.c.
use xhopin.Base.{
  ℕ, zero, suc, ◌+◌, ◌-◌, ◌*◌, ◌≡◌, refl, ◌<◌, ◌≤◌, Bool, true, false, Option, none, some, arith,
  leb, ◌==◌, if◌then◌else◌, Bool-cases, ◌⊎◌, inl, inr,
}
use xhopin.Alloc.{
  Scan, return, continue, scan_bits, scan_words, find_free_units, all_set, resume, bitmap_words,
}
use xhopin.Alloc.Bitmap.{IsFree}

-- What the search returns is a run of free units of the bitmap.
abbrev pub Found : ℕ → (ℕ → Bool) → ℕ → Option ℕ → Type 0
Found num_units bits needed none = Unit
Found num_units bits needed (some s) = IsFree bits s needed × (s + needed ≤ num_units)

module _ (num_units : ℕ) (bits : ℕ → Bool) (needed : ℕ) where
  -- The loop's variables at `index`: `count` free units lie just below it, the first at `start`.
  record Counting (index count : ℕ) (start : Option ℕ) : Type 0 where
    short : count < needed
    room : count ≤ index
    below : IsFree bits (index - count) count
    first : (count ≡ 0) ⊎ (start ≡ some (index - count))

  abbrev ScanPost : ℕ → Scan → Type 0
  ScanPost end (return r) = Found num_units bits needed r
  ScanPost end (continue count start) = Counting end count start

  abbrev begin : ℕ → ℕ → Option ℕ → Option ℕ
  begin index count start = if count == 0 then some index else start

  begin-some :
      (index count : ℕ) (start : Option ℕ)
      → Counting index count start
      → begin index count start ≡ some (index - count)
  begin-some index count start h = ground arith

  extended :
      (index count : ℕ) {start : Option ℕ}
      → Counting index count start
      → bits index ≡ false
      → IsFree bits (index - count) (count + 1)
  extended index count h e j p q = elim (Bool-cases (j == index)) [
    | inl t ↦ ground arith
    | inr t ↦ h.below j p (ground arith)
  ]

  positive : {index count : ℕ} {start : Option ℕ} → Counting index count start → 0 < needed
  positive h = omega arith

  reset : (index : ℕ) (start : Option ℕ) → 0 < needed → Counting (index + 1) 0 start
  reset index start lt = record {
    short = lt;
    room = omega arith;
    below = λ j p q. absurd (omega arith);
    first = inl refl;
  }

  full :
      (index count : ℕ) (start : Option ℕ)
      → Counting index count start
      → bits index ≡ false
      → leb num_units index ≡ false
      → (count + 1 == needed) ≡ true
      → Found num_units bits needed (begin index count start)
  full index count start h free inside last =
      let e : count + 1 ≡ needed = ground arith in
      rw (begin-some index count start h, Found)
        (λ j p q. extended index count h free j p (omega arith), ground arith)

  grown :
      (index count : ℕ) (start : Option ℕ)
      → Counting index count start
      → bits index ≡ false
      → (count + 1 == needed) ≡ false
      → Counting (index + 1) (count + 1) (begin index count start)
  grown index count start h free more =
      let e : index + 1 - (count + 1) ≡ index - count = omega arith in
      record {
        short = ground arith;
        room = omega arith;
        below = rw e (extended index count h free);
        first = inr (rw e (begin-some index count start h));
      }

  scan_bits-post :
      (k index count : ℕ) (start : Option ℕ) (end : ℕ)
      → index + k ≡ end
      → Counting index count start
      → ScanPost end (scan_bits num_units bits needed k index count start)
  unfolding scan_bits
  scan_bits-post zero index count start end e h = let e' : index ≡ end = omega arith in rw (← e') h
  scan_bits-post (suc k) index count start end e h = elim (Bool-cases (leb num_units index)) [
    | inl past ↦ rw (past, ScanPost) tt
    | inr inside ↦
        rw (inside, ScanPost)
          (elim (Bool-cases (bits index)) [
            | inl used ↦
                rw (used, ScanPost)
                  (scan_bits-post k (index + 1) 0 start end (omega arith)
                    (reset index start (positive h)))
            | inr free ↦
                rw (free, ScanPost)
                  (elim (Bool-cases (count + 1 == needed)) [
                    | inl last ↦ rw (last, ScanPost) (full index count start h free inside last)
                    | inr more ↦
                        rw (more, ScanPost)
                          (scan_bits-post k (index + 1) (count + 1) (begin index count start) end
                            (omega arith) (grown index count start h free more))
                  ])
          ])
  ]

  resume-Found :
      (end : ℕ) (sc : Scan) (f : ℕ → Option ℕ → Option ℕ)
      → ScanPost end sc
      → ((c : ℕ) (st : Option ℕ) → Counting end c st → Found num_units bits needed (f c st))
      → Found num_units bits needed (resume sc f)
  unfolding resume
  resume-Found end (return r) f h g = h
  resume-Found end (continue c st) f h g = g c st h

  -- The words that are scanned, when none of them is full.
  scan_words-post :
      (k w count : ℕ) (start : Option ℕ)
      → ((v : ℕ) → all_set bits 32 (v * 32) ≡ false)
      → Counting (w * 32) count start
      → Found num_units bits needed (scan_words num_units bits needed k w count start)
  unfolding scan_words
  scan_words-post zero w count start gaps h = tt
  scan_words-post (suc k) w count start gaps h =
      rw (gaps w, Found)
        (resume-Found ((w + 1) * 32) (scan_bits num_units bits needed 32 (w * 32) count start)
          (λ c st. scan_words num_units bits needed k (w + 1) c st)
          (scan_bits-post 32 (w * 32) count start ((w + 1) * 32) (omega arith) h)
          (λ c st g. scan_words-post k (w + 1) c st gaps g))

  -- If no word of the bitmap is full, the search for at least one unit returns only runs of free
  -- units inside the heap.
  pub find_free_units-Found :
      0 < needed
      → ((v : ℕ) → all_set bits 32 (v * 32) ≡ false)
      → Found num_units bits needed (find_free_units num_units bits needed)
  unfolding find_free_units
  find_free_units-Found lt gaps = scan_words-post (bitmap_words num_units) 0 0 none gaps (record {
    short = lt;
    room = omega arith;
    below = λ j p q. absurd (omega arith);
    first = inl refl;
  })
