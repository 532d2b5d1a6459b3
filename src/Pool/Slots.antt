-- ===== src/Pool/Slots.antt =====
-- The objects of a pool (kernel/memory/mem_pool.c) are handed out one at a time.
use native.Mathlib.Nat.{mul-le-mul_right, div-eq_of_eq-mul_left}
use xhopin.Base.{
  ℕ, zero, suc, ◌+◌, ◌*◌, ◌/◌, ◌^◌, ◌≡◌, ◌≢◌, ◌<◌, ◌≤◌, refl, sym, ap, subst, Bool, true, false,
  ◌||◌, ltb, leb, ◌==◌, Bool-cases, ◌⊎◌, inl, inr, arith, ok,
}
use xhopin.Word.{w32, sub32}
use xhopin.Alloc.{bit_set, bit_clear}
use xhopin.Pool.{
  MemPool, first_free, free_count, mem_pool_alloc, mem_pool_free, mem_pool_free_count,
}

-- Either the object is free, in bounds and all before it are taken, or all are taken.
pub first_free-Found :
    (n i : ℕ) (bits : ℕ → Bool)
    → ((first_free n i bits < i + n)
        × (i ≤ first_free n i bits)
        × (bits (first_free n i bits) ≡ false))
      ⊎ ((first_free n i bits ≡ i + n) × (free_count n i bits ≡ 0))
unfolding first_free free_count
first_free-Found zero i bits = inr (ground arith, refl)
first_free-Found (suc n) i bits = elim (Bool-cases (bits i)) [
  | inl e ↦ rw e (elim (first_free-Found n (i + 1) bits) [
    | inl (a, b, c) ↦ inl (omega arith, omega arith, c)
    | inr (a, b) ↦ inr (omega arith, ground arith)
  ])
  | inr e ↦ rw e (inl (omega arith, omega arith, e))
]

free_count-bit_set_before :
    (n i j : ℕ) (bits : ℕ → Bool) → j < i → free_count n i (bit_set bits j) ≡ free_count n i bits
unfolding free_count bit_set
free_count-bit_set_before zero i j bits lt = refl
free_count-bit_set_before (suc n) i j bits lt =
    let other : (i == j) ≡ false = ground arith in
    rw (other, free_count-bit_set_before n (i + 1) j bits (omega arith))

free_count-bit_set :
    (n i j : ℕ) (bits : ℕ → Bool)
    → i ≤ j
    → j < i + n
    → bits j ≡ false
    → free_count n i (bit_set bits j) + 1 ≡ free_count n i bits
unfolding free_count bit_set
free_count-bit_set zero i j bits le lt e = absurd (omega arith)
free_count-bit_set (suc n) i j bits le lt e = elim (Bool-cases (i == j)) [
  | inl same ↦
      let eq : i ≡ j = ground arith in
      let clear : bits i ≡ false = subst (λ x. bits x ≡ false) (sym eq) e in
      rw (same, clear, free_count-bit_set_before n (i + 1) j bits (omega arith)) (omega arith)
  | inr other ↦ rw other (
      let rest = free_count-bit_set n (i + 1) j bits (ground arith) (ground arith) e in
      ground arith)
]

-- mem_pool_alloc returns NULL and changes nothing if no object is free; else the address of an
-- object that was free, which is taken then, with one free object less.
mem_pool_alloc_lem :
    (pool : MemPool)
    → ((mem_pool_free_count pool ≡ 0) × (mem_pool_alloc pool ≡ (0, pool)))
      ⊎ ((i : ℕ) × (i < pool.capacity)
          × (pool.bitmap i ≡ false)
          × ((mem_pool_alloc pool).0 ≡ pool.memory + i * pool.object_size)
          × ((mem_pool_alloc pool).1.bitmap i ≡ true)
          × (mem_pool_free_count (mem_pool_alloc pool).1 + 1 ≡ mem_pool_free_count pool))
unfolding mem_pool_alloc mem_pool_free_count
mem_pool_alloc_lem pool =
    let i = first_free pool.capacity 0 pool.bitmap in
    elim (first_free-Found pool.capacity 0 pool.bitmap) [
      | inl (lt, _, e) ↦
          let in_pool : ltb i pool.capacity ≡ true = ground arith in
          inr (
            i,
            omega arith,
            e,
            rw in_pool,
            rw (in_pool, bit_set) (ground arith),
            rw in_pool
                (free_count-bit_set pool.capacity 0 i pool.bitmap (omega arith) (omega arith) e),
          )
      | inr (eq, none_free) ↦
          let out : ltb i pool.capacity ≡ false = ground arith in inl (none_free, rw out)
    ]

-- The address of object `i` is taken apart again.
index_lem :
    (memory i size capacity : ℕ)
    → 0 < size
    → i < capacity
    → memory + capacity * size < w32
    → sub32 (memory + i * size) memory / size ≡ i
index_lem memory i size capacity pos lt bound =
    let below : i * size ≤ capacity * size = mul-le-mul_right size (ground arith) in
    let offset : sub32 (memory + i * size) memory ≡ i * size = omega arith in
    rw offset (div-eq_of_eq-mul_left pos refl)

-- Freeing the object that was just handed out gives back the pool as it was, for a pool at a
-- non-NULL address inside the address space, with objects of at least one byte, fewer than 2^31 of
-- them, and a free one.
pub mem_pool_free-mem_pool_alloc :
    (pool : MemPool)
    → pool.memory ≢ 0
    → 0 < pool.object_size
    → pool.capacity < 2 ^ 31
    → pool.memory + pool.capacity * pool.object_size < w32
    → mem_pool_free_count pool ≢ 0
    → let (p, taken) = mem_pool_alloc pool in mem_pool_free taken p ≡ ok pool
unfolding mem_pool_alloc mem_pool_free mem_pool_free_count bit_set bit_clear
mem_pool_free-mem_pool_alloc pool base pos small bound some_free =
    let i = first_free pool.capacity 0 pool.bitmap in
    elim (first_free-Found pool.capacity 0 pool.bitmap) [
      | inl (lt, _, e) ↦
          let in_pool : ltb i pool.capacity ≡ true = ground arith in
          let there : (pool.memory + i * pool.object_size == 0) ≡ false = ground arith in
          let sized : (pool.object_size == 0) ≡ false = ground arith in
          let index =
            index_lem pool.memory i pool.object_size pool.capacity pos (omega arith) bound in
          let in_range : (leb (2 ^ 31) i || leb pool.capacity i) ≡ false = ground arith in
          let same : (j : ℕ) → bit_clear (bit_set pool.bitmap i) i j ≡ pool.bitmap j =
            λ j. ground (arith, e) in
          rw (in_pool, there, sized, index, in_range)
            (ap (λ b. ok (record pool { bitmap = b })) (λ t j. same j t))
      | inr (eq, none_free) ↦ absurd (some_free none_free)
    ]
