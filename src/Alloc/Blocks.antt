-- ===== src/Alloc/Blocks.antt =====
-- What `mem_alloc` and `mem_free` do to the heap's units (kernel/memory/mem_alloc.c).
use xhopin.Base.{
  ℕ, ◌+◌, ◌-◌, ◌*◌, ◌/◌, ◌%◌, ◌^◌, ◌≡◌, refl, ◌<◌, ◌≤◌, false, some, arith, true, ◌==◌, Bool-cases,
  Option-cases, ==_self, ap, ◌⊎◌, inl, inr, ◌≢◌,
}
use xhopin.Alloc.{
  Heap, mem_alloc, mem_free, mem_free_space, find_free_units, all_set, units_for, place, release,
  mem_magic,
}
use xhopin.Alloc.Bitmap.{IsFree, clear-set, count_free-set, set_units_lem}
use xhopin.Alloc.Find.{find_free_units-Found}

-- No word of the bitmap is full.
abbrev pub HasGaps : Heap → Type 0
HasGaps h = (v : ℕ) → all_set h.bits 32 (v * 32) ≡ false

mem_free-live :
    (h : Heap) (a : ℕ) → (h.header a).magic ≡ mem_magic → mem_free (a + 4) h ≡ release h a
unfolding mem_free
mem_free-live h a e =
    let t : a + 4 - 4 ≡ a = omega arith in
    let nz : (a + 4 == 0) ≡ false = ground arith in rw (nz, t, e)

mem_free-dead : (h : Heap) (a : ℕ) → (h.header a).magic ≢ mem_magic → mem_free (a + 4) h ≡ h
unfolding mem_free
mem_free-dead h a ne =
    let t : a + 4 - 4 ≡ a = omega arith in
    let nz : (a + 4 == 0) ≡ false = ground arith in
    let bad : ((h.header a).magic == mem_magic) ≡ false = ground arith in rw (nz, t, bad)

-- `mem_free` of a block that was just placed.
free_placed :
    (h : Heap) (units start p : ℕ) (g : Heap)
    → p ≡ start * 8 + 4
    → g ≡ (place h units start).1
    → IsFree h.bits start units
    → units < 2 ^ 16
    → ((j : ℕ) → (mem_free p g).bits j ≡ h.bits j) × (mem_free p (mem_free p g) ≡ mem_free p g)
free_placed h units start p g ep eg free small =
    let head : ((place h units start).1.header (start * 8))
        ≡ record { magic = mem_magic; units = units % 2 ^ 16 } =
      rw (==_self (start * 8)) in
    let live : mem_free (start * 8 + 4) (place h units start).1
        ≡ release (place h units start).1 (start * 8) =
      mem_free-live (place h units start).1 (start * 8) (ap (λ m. m.magic) head) in
    let dead : ((release (place h units start).1 (start * 8)).header (start * 8)).magic
        ≢ mem_magic =
      rw (==_self (start * 8)) (λ e. absurd (omega arith)) in
    let whole : units % 65536 ≡ units = omega arith in
    let same : start * 8 / 8 ≡ start = omega arith in
    rw (ep, eg, live)
      (
        λ j. rw (head, whole, same) (clear-set units start h.bits j free),
        mem_free-dead (release (place h units start).1 (start * 8)) (start * 8) dead,
      )

-- The block of `units` units from `start` on is marked, and nothing else: `p` points behind its header,
-- the bits of its units are set, and its header has the magic number and the count, in 16 bits.
pub record Placed (h : Heap) (units start p : ℕ) (g : Heap) : Type 0 where
  pub ptr : p ≡ start * 8 + 4
  pub marked : (j : ℕ) → start ≤ j → j < start + units → g.bits j ≡ true
  pub others : (j : ℕ) → (j < start) ⊎ (start + units ≤ j) → g.bits j ≡ h.bits j
  pub magic : (g.header (start * 8)).magic ≡ 0xBEEF
  pub count : (g.header (start * 8)).units ≡ units % 2 ^ 16
  pub headers : (a : ℕ) → a ≢ start * 8 → g.header a ≡ h.header a

pub place-Placed :
    (h : Heap) (units start : ℕ)
    → Placed h units start (place h units start).0 (place h units start).1
place-Placed h units start = record {
  ptr = refl;
  marked = λ j le lt. ground (arith, set_units_lem units start h.bits j);
  others = others;
  magic = ap (λ m. m.magic) head;
  count = ap (λ m. m.units) head;
  headers = λ a ne. let miss : (a == start * 8) ≡ false = ground arith in rw miss refl;
}
  where
    head :
        (place h units start).1.header (start * 8)
        ≡ record { magic = mem_magic; units = units % 2 ^ 16 }
    head = rw (==_self (start * 8))

    others : (j : ℕ) → (j < start) ⊎ (start + units ≤ j) → (place h units start).1.bits j ≡ h.bits j
    others j (inl lt) = ground (arith, set_units_lem units start h.bits j)
    others j (inr le) = ground (arith, set_units_lem units start h.bits j)

module _ (num_units size : ℕ) (h : Heap) where
  -- What a successful allocation did: the block's units were free and are inside the heap.
  pub record Allocated (p : ℕ) (g : Heap) : Type 0 where
    pub start : ℕ
    pub placed : Placed h (units_for size) start p g
    pub free : IsFree h.bits start (units_for size)
    pub inside : start + units_for size ≤ num_units
    pub done : g ≡ (place h (units_for size) start).1

  abbrev pub AllocPost : ℕ × Heap → Type 0
  AllocPost (p, g) = ((p ≡ 0) × (g ≡ h)) ⊎ Allocated p g

  -- On a heap with no full word in its bitmap, for a size whose units are not 0, mem_alloc either
  -- returns NULL and changes nothing, or returns the pointer behind the header of a block of units that
  -- were all free and inside the heap, sets the bits of exactly these, and writes the block's header
  -- and no other.
  pub mem_alloc-Allocated : HasGaps h → 0 < units_for size → AllocPost (mem_alloc num_units size h)
  unfolding mem_alloc
  mem_alloc-Allocated gaps pos = elim (Bool-cases (size == 0)) [
    | inl z ↦ rw (z, AllocPost) (inl (refl, refl))
    | inr nz ↦
        rw (nz, AllocPost)
          (elim (Option-cases (find_free_units num_units h.bits (units_for size))) [
            | inl e ↦ rw (e, AllocPost) (inl (refl, refl))
            | inr (s, e) ↦ rw (e, AllocPost) (inr (found s e))
          ])
  ]
    where
      found :
          (s : ℕ)
          → find_free_units num_units h.bits (units_for size) ≡ some s
          → Allocated (s * 8 + 4) (place h (units_for size) s).1
      found s e =
          let f = rw e at (find_free_units-Found num_units h.bits (units_for size) pos gaps) in
          record {
            start = s;
            placed = place-Placed h (units_for size) s;
            free = f.0;
            inside = f.1;
            done = refl;
          }

-- On a heap of fewer than 2^16 units with no full word, for a size whose units are not 0, freeing
-- the block that was just allocated gives every bit of the bitmap back, and a second mem_free of it
-- does nothing.
pub mem_free-mem_alloc :
    (num_units size : ℕ) (h : Heap) (p : ℕ) (g : Heap)
    → HasGaps h
    → 0 < units_for size
    → num_units < 2 ^ 16
    → mem_alloc num_units size h ≡ (p, g)
    → p ≢ 0
    → ((j : ℕ) → (mem_free p g).bits j ≡ h.bits j) × (mem_free p (mem_free p g) ≡ mem_free p g)
mem_free-mem_alloc num_units size h p g gaps pos small e ne =
    freed (rw e at (mem_alloc-Allocated num_units size h gaps pos))
  where
    freed :
        AllocPost num_units size h (p, g)
        → ((j : ℕ) → (mem_free p g).bits j ≡ h.bits j) × (mem_free p (mem_free p g) ≡ mem_free p g)
    freed (inl z) = absurd (ne z.0)
    freed (inr a) =
        free_placed h (units_for size) a.start p g a.placed.ptr a.done a.free
          (omega (arith, a.inside))

-- On a heap with no full word, for a size whose units are not 0, mem_free_space falls by eight
-- bytes for each unit of an allocated block.
mem_free_space-mem_alloc :
    (num_units size : ℕ) (h : Heap) (p : ℕ) (g : Heap)
    → HasGaps h
    → 0 < units_for size
    → mem_alloc num_units size h ≡ (p, g)
    → p ≢ 0
    → mem_free_space num_units g + units_for size * 8 ≡ mem_free_space num_units h
unfolding mem_free_space
mem_free_space-mem_alloc num_units size h p g gaps pos e ne =
    counted (rw e at (mem_alloc-Allocated num_units size h gaps pos))
  where
    counted :
        AllocPost num_units size h (p, g)
        → mem_free_space num_units g + units_for size * 8 ≡ mem_free_space num_units h
    counted (inl z) = absurd (ne z.0)
    counted (inr a) = rw a.done (
        omega (
          arith,
          count_free-set (units_for size) a.start h.bits num_units 0 a.free (omega arith)
              (omega (arith, a.inside)),
        ))
