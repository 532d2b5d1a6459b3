-- ===== src/Tests/Heap.antt =====
-- A heap of 1024 units (kernel/memory/mem_alloc.c) and a pool (kernel/memory/mem_pool.c).
use xhopin.Base.{ℕ, ◌≢◌, ◌+◌, ◌*◌, ◌≡◌, refl, true, false, arith, ltb, ◌==◌, ok, ◌&&◌, not}
use xhopin.Alloc.{Heap, mem_alloc, mem_free, all_set, units_for, place}
use xhopin.Alloc.Blocks.{HasGaps, AllocPost, mem_alloc-Allocated, mem_free-mem_alloc}
use xhopin.Alloc.Blocks.{Placed}
use xhopin.Alloc.FirstFit.{FitsAt, mem_alloc-first_fit}
use xhopin.Alloc.Overlap.{Straddles, mem_alloc-Straddles}
use xhopin.Pool.{MemPool, mem_pool_alloc, mem_pool_free, mem_pool_free_count}
use xhopin.Pool.Slots.{mem_pool_free-mem_pool_alloc}

abbrev pub empty_heap : Heap
empty_heap = record { bits = λ _. false; header = λ _. record { magic = 0; units = 0 } }

empty_heap-HasGaps : HasGaps empty_heap
unfolding all_set
empty_heap-HasGaps v = refl

mem_alloc-Allocated_example : AllocPost 1024 12 empty_heap (mem_alloc 1024 12 empty_heap)
mem_alloc-Allocated_example =
    mem_alloc-Allocated 1024 12 empty_heap empty_heap-HasGaps (omega arith)

-- Twelve bytes and the header take two units, from unit 0 on.
first_block : mem_alloc 1024 12 empty_heap ≡ (4, (place empty_heap 2 0).1)
unfolding mem_alloc
first_block = refl

mem_free-mem_alloc_example :
    ((j : ℕ) → (mem_free 4 (place empty_heap 2 0).1).bits j ≡ empty_heap.bits j)
    × (mem_free 4 (mem_free 4 (place empty_heap 2 0).1) ≡ mem_free 4 (place empty_heap 2 0).1)
mem_free-mem_alloc_example =
    mem_free-mem_alloc 1024 12 empty_heap 4 (place empty_heap 2 0).1 empty_heap-HasGaps
      (omega arith) (omega arith) first_block (omega arith)

abbrev fragmented : Heap
fragmented = record empty_heap { bits = λ j. ltb j 64 && not (j == 31) }

fragmented-Straddles : Straddles 1024 fragmented.bits
fragmented-Straddles = record {
  size = omega arith;
  low = λ j p. ground arith;
  unit_31 = refl;
  middle = λ j p q. ground arith;
  unit_64 = refl;
}

mem_alloc-Straddles_example :
    ((mem_alloc 1024 12 fragmented).0 ≡ 31 * 8 + 4) × (fragmented.bits 32 ≡ true)
mem_alloc-Straddles_example =
    mem_alloc-Straddles 1024 12 fragmented fragmented-Straddles (omega arith) (omega arith)

-- Three objects of 20 bytes, of which the first is taken
abbrev pool : MemPool
pool = record { memory = 400; object_size = 20; capacity = 3; bitmap = λ j. j == 0 }

two_free : mem_pool_free_count pool ≡ 2
unfolding mem_pool_free_count
two_free = refl

second_object : (mem_pool_alloc pool).0 ≡ 420
unfolding mem_pool_alloc
second_object = refl

mem_pool_free-mem_pool_alloc_example :
    mem_pool_free (mem_pool_alloc pool).1 (mem_pool_alloc pool).0 ≡ ok pool
mem_pool_free-mem_pool_alloc_example =
    mem_pool_free-mem_pool_alloc pool (omega arith) (omega arith) (omega arith) (omega arith)
      (omega (arith, two_free))

-- The first three units are used.
abbrev started : Heap
started = record empty_heap { bits = λ j. ltb j 3 }

started-FitsAt : FitsAt 1024 started.bits (units_for 12) 3
started-FitsAt = record {
  some_needed = omega arith;
  used = λ j p. ground arith;
  free = λ j p q. ground arith;
  in_word = omega arith;
  in_heap = omega arith;
}

mem_alloc-first_fit_example :
    let (p, g) = mem_alloc 1024 12 started in (p ≢ 0) × Placed started (units_for 12) 3 p g
mem_alloc-first_fit_example = mem_alloc-first_fit 1024 12 3 started (omega arith) started-FitsAt
