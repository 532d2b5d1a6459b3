-- ===== src/Pool.antt =====
-- Pools of equal objects: kernel/memory/mem_pool.c. A bit of the bitmap is set for a taken object.
pub mod Slots
use xhopin.Base.{
  ℕ, zero, suc, ◌+◌, ◌-◌, ◌*◌, ◌/◌, ◌%◌, ◌^◌, Bool, true, false, ◌||◌, ltb, leb, ◌==◌,
  if◌then◌else◌, Run, ok, wild, Rc, success, failure,
}
use xhopin.Word.{w32, sub32}
use xhopin.Alloc.{bit_set, bit_clear}
use xhopin.Kernel.{Allocator}

-- `mem_pool`. `memory` is an address, and `capacity` an `int` that is not negative.
pub record MemPool : Type 0 where
  pub memory : ℕ
  pub object_size : ℕ
  pub capacity : ℕ
  pub bitmap : ℕ → Bool

module _ (A : Allocator) where
  open A use {Mem, alloc, free}

  -- The blocks of the objects and of the bitmap come from the heap. `pool` is the structure as it
  -- stood; a failure leaves what was stored until then.
  unfoldable pub mem_pool_init : MemPool → ℕ → ℕ → Mem → Rc × MemPool × Mem
  mem_pool_init pool capacity object_size m =
      if capacity == 0
      then (failure, pool, m)
      else let (p, m') = alloc (capacity * object_size % w32) m in
        let made = record pool { object_size = object_size; capacity = capacity; memory = p } in
        if p == 0
        then (failure, made, m')
        else let (b, m'') = alloc ((capacity + 31) / 32 * 4) m' in
          if b == 0
          then (failure, made, m'')
          else (success, record made { bitmap = λ _. false }, m'')

-- The loop of `mem_pool_alloc`, from `i` on with `n` objects to come: the object it takes, or the
-- capacity.
unfoldable pub first_free : ℕ → ℕ → (ℕ → Bool) → ℕ
first_free zero i bits = i
first_free (suc n) i bits = if bits i then first_free n (i + 1) bits else i

-- The address of the object that is taken, or NULL.
unfoldable pub mem_pool_alloc : MemPool → ℕ × MemPool
unfolding first_free bit_set
mem_pool_alloc pool =
    let i = first_free pool.capacity 0 pool.bitmap in
    if ltb i pool.capacity
    then (pool.memory + i * pool.object_size, record pool { bitmap = bit_set pool.bitmap i })
    else (0, pool)

-- The difference of the pointers is divided as a `size_t`; the quotient is an `int`.
unfoldable pub mem_pool_free : MemPool → ℕ → Run MemPool
unfolding bit_clear
mem_pool_free pool ptr =
    if ptr == 0
    then ok pool
    else if pool.object_size == 0
    then wild
    else let index = sub32 ptr pool.memory / pool.object_size in
      if leb (2 ^ 31) index || leb pool.capacity index
      then ok pool
      else ok (record pool { bitmap = bit_clear pool.bitmap index })

unfoldable pub free_count : ℕ → ℕ → (ℕ → Bool) → ℕ
free_count zero i bits = 0
free_count (suc n) i bits = (if bits i then 0 else 1) + free_count n (i + 1) bits

unfoldable pub mem_pool_free_count : MemPool → ℕ
unfolding free_count
mem_pool_free_count pool = free_count pool.capacity 0 pool.bitmap
