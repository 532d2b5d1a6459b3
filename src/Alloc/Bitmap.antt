-- ===== src/Alloc/Bitmap.antt =====
-- Runs of bits of the heap's bitmap (kernel/memory/mem_alloc.c).
use xhopin.Base.{
  ℕ, zero, suc, ◌+◌, ◌≡◌, refl, ◌<◌, ◌≤◌, Bool, true, false, arith, ltb, leb, ◌==◌, ◌&&◌,
  if◌then◌else◌, Bool-cases, inl, inr,
}
use xhopin.Alloc.{bit_set, bit_clear, set_units, clear_units, count_free}

-- `j` is one of the `n` places from `start` on.
abbrev pub in_run : ℕ → ℕ → ℕ → Bool
in_run start n j = leb start j && ltb j (start + n)

pub set_units_lem :
    (n start : ℕ) (bits : ℕ → Bool) (j : ℕ)
    → set_units n start bits j ≡ (if in_run start n j then true else bits j)
unfolding set_units bit_set
set_units_lem zero start bits j = ground arith
set_units_lem (suc n) start bits j =
    ground (arith, set_units_lem n (start + 1) (bit_set bits start) j)

pub clear_units_lem :
    (n start : ℕ) (bits : ℕ → Bool) (j : ℕ)
    → clear_units n start bits j ≡ (if in_run start n j then false else bits j)
unfolding clear_units bit_clear
clear_units_lem zero start bits j = ground arith
clear_units_lem (suc n) start bits j =
    ground (arith, clear_units_lem n (start + 1) (bit_clear bits start) j)

-- The `n` units from `start` on are free.
abbrev pub IsFree : (ℕ → Bool) → ℕ → ℕ → Type 0
IsFree bits start n = (j : ℕ) → start ≤ j → j < start + n → bits j ≡ false

-- Clearing the units that were just set gives the old bitmap back, if they were free.
pub clear-set :
    (n start : ℕ) (bits : ℕ → Bool) (j : ℕ)
    → IsFree bits start n
    → clear_units n start (set_units n start bits) j ≡ bits j
clear-set n start bits j free = ground (
  arith,
  clear_units_lem n start (set_units n start bits) j,
  set_units_lem n start bits j,
  free j,
)

later :
    (n start : ℕ) (bits : ℕ → Bool)
    → IsFree bits start (suc n)
    → IsFree (bit_set bits start) (start + 1) n
unfolding bit_set
later n start bits free j p q = ground (arith, free j)

pub count_free_cong :
    (a b : ℕ → Bool) (k i : ℕ)
    → ((j : ℕ) → i ≤ j → j < i + k → a j ≡ b j)
    → count_free a k i ≡ count_free b k i
unfolding count_free
count_free_cong a b zero i h = refl
count_free_cong a b (suc k) i h = rw (
  h i (omega arith) (omega arith),
  count_free_cong a b k (i + 1) (λ j p q. h j (omega arith) (omega arith)),
)

count_free-bit_set :
    (bits : ℕ → Bool) (start k i : ℕ)
    → bits start ≡ false
    → i ≤ start
    → start < i + k
    → count_free (bit_set bits start) k i + 1 ≡ count_free bits k i
unfolding count_free bit_set
count_free-bit_set bits start zero i f lo hi = absurd (omega arith)
count_free-bit_set bits start (suc k) i f lo hi = elim (Bool-cases (i == start)) [
  | inl e ↦
      ground (arith, count_free_cong (bit_set bits start) bits k (i + 1) (λ j p q. ground arith))
  | inr e ↦ ground (arith, count_free-bit_set bits start k (i + 1) f)
]

-- Setting `n` free units inside the range that is counted leaves `n` fewer.
pub count_free-set :
    (n start : ℕ) (bits : ℕ → Bool) (k i : ℕ)
    → IsFree bits start n
    → i ≤ start
    → start + n ≤ i + k
    → count_free (set_units n start bits) k i + n ≡ count_free bits k i
unfolding set_units
count_free-set zero start bits k i free lo hi = omega arith
count_free-set (suc n) start bits k i free lo hi = omega (
  arith,
  count_free-bit_set bits start k i (free start (omega arith) (omega arith)) lo (omega arith),
  count_free-set n (start + 1) (bit_set bits start) k i (later n start bits free) (omega arith)
      (omega arith),
)
