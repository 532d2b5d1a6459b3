-- ===== src/RamDisk/Copy.antt =====
-- What the loop `mem_copy` of drivers/storage/ram/storage_ram.c copies, and what it leaves, and so what
-- a block of the disk holds.
use native.Mathlib.Nat.{mul-le-mul_left, mul_comm, mul-suc}
use xhopin.Base.{
  ℕ, zero, suc, ◌+◌, ◌*◌, ◌%◌, ◌≡◌, ◌≢◌, ◌≤◌, ◌<◌, ◌⊎◌, inl, inr, refl, sym, ◌∙◌, ap, subst, arith,
  List, set, length, length-set, get_elem?, get_elem?-set_self, get_elem?-set_ne,
  get_elem?-eq-get_or, get_or, some, ok, success, ltb, leb, ◌==◌, false, true,
}
use xhopin.Word.{read_byte, write_byte}
use xhopin.RamDisk.{Disk, mem_copy, ram_read, ram_write}

-- The byte that a copy takes from a place of the source.
abbrev pub byte_at : List ℕ → ℕ → ℕ
byte_at src i = get_or src i 0 % 256

-- `out` is `dst` with `n` bytes of `src` from `s` on in the places from `d` on.
pub record Copied (n : ℕ) (dst : List ℕ) (d : ℕ) (src : List ℕ) (s : ℕ) (out : List ℕ)
    : Type 0 where
  pub size : length out ≡ length dst
  pub inside : (j : ℕ) → j < n → get_elem? out (d + j) ≡ some (byte_at src (s + j))
  pub outside : (j : ℕ) → (j < d) ⊎ (d + n ≤ j) → get_elem? out j ≡ get_elem? dst j

one_byte :
    (dst : List ℕ) (d : ℕ) (src : List ℕ) (s : ℕ)
    → s < length src
    → d < length dst
    → (read_byte src s ≡ ok (get_or src s 0))
      × (write_byte dst d (get_or src s 0) ≡ ok (set dst d (byte_at src s)))
unfolding read_byte write_byte
one_byte dst d src s lt lt' =
    let there : ltb d (length dst) ≡ true = ground arith in
    (rw (get_elem?-eq-get_or src s 0 lt) refl, rw there refl)

-- The first byte, and then the others.
Copied-suc :
    (n : ℕ) (dst : List ℕ) (d : ℕ) (src : List ℕ) (s : ℕ) (out : List ℕ)
    → d < length dst
    → Copied n (set dst d (byte_at src s)) (d + 1) src (s + 1) out
    → Copied (suc n) dst d src s out
Copied-suc n dst d src s out lt h = record {
  size = h.size ∙ length-set dst d (byte_at src s);
  inside = inside;
  outside = λ j e. h.outside j (further j e) ∙ get_elem?-set_ne dst d j (byte_at src s) (apart j e);
}
  where
    inside : (j : ℕ) → j < suc n → get_elem? out (d + j) ≡ some (byte_at src (s + j))
    inside zero _ =
        ap (get_elem? out) (omega arith)
        ∙ h.outside d (inl (omega arith))
        ∙ get_elem?-set_self dst d (byte_at src s) lt
        ∙ ap (λ i. some (byte_at src i)) (omega arith)
    inside (suc j) lt' =
        ap (get_elem? out) (omega arith)
        ∙ h.inside j (omega arith)
        ∙ ap (λ i. some (byte_at src i)) (omega arith)

    further : (j : ℕ) → (j < d) ⊎ (d + suc n ≤ j) → (j < d + 1) ⊎ (d + 1 + n ≤ j)
    further j (inl lt') = inl (omega arith)
    further j (inr le) = inr (omega arith)

    apart : (j : ℕ) → (j < d) ⊎ (d + suc n ≤ j) → d ≢ j
    apart j (inl lt') = λ e. absurd (omega arith)
    apart j (inr le) = λ e. absurd (omega arith)

pub mem_copy-Copied :
    (n : ℕ) (dst : List ℕ) (d : ℕ) (src : List ℕ) (s : ℕ)
    → s + n ≤ length src
    → d + n ≤ length dst
    → (out : List ℕ) × (mem_copy n dst d src s ≡ ok out) × Copied n dst d src s out
unfolding mem_copy
mem_copy-Copied zero dst d src s fit fit' = (
  dst,
  refl,
  record { size = refl; inside = λ j lt. absurd (omega arith); outside = λ j h. refl },
)
mem_copy-Copied (suc n) dst d src s fit fit' =
    let (get, set_it) = one_byte dst d src s (omega arith) (omega arith) in
    let same : length (set dst d (byte_at src s)) ≡ length dst = length-set dst d (byte_at src s) in
    let (out, ran, h) =
      mem_copy-Copied n (set dst d (byte_at src s)) (d + 1) src (s + 1) (omega arith)
        (omega arith) in
    (out, rw (get, set_it) ran, Copied-suc n dst d src s out (omega arith) h)

module _ (block_size block_count : ℕ) where
  -- The disk is there, with all its blocks.
  pub record IsWhole (disk : Disk) : Type 0 where
    pub there : disk.ctx ≢ 0
    pub full : length disk.buffer ≡ block_count * block_size

  pub block_fits :
      (b : ℕ) → b < block_count → b * block_size + block_size ≤ block_count * block_size
  block_fits b lt =
      let le : block_size * suc b ≤ block_size * block_count =
        mul-le-mul_left block_size (omega arith) in
      omega (arith, mul_comm block_size block_count, mul-suc block_size b, mul_comm block_size b)

  pub ram_write-Copied :
      (disk : Disk) (b : ℕ) (bytes : List ℕ) (at : ℕ)
      → IsWhole disk
      → b < block_count
      → at + block_size ≤ length bytes
      → (out : List ℕ) × (ram_write block_size block_count disk b bytes at block_size
          ≡ ok (success, record disk { buffer = out }))
        × Copied block_size disk.buffer (b * block_size) bytes at out
  unfolding ram_write
  ram_write-Copied disk b bytes at whole lt fit =
      let (out, ran, h) =
        mem_copy-Copied block_size disk.buffer (b * block_size) bytes at fit
          (subst (λ l. b * block_size + block_size ≤ l) (sym whole.full) (block_fits b lt)) in
      let there : (disk.ctx == 0) ≡ false = ground (arith, whole.there) in
      let inside : leb block_count b ≡ false = ground arith in
      let short : ltb block_size block_size ≡ false = ground arith in
      (out, rw (there, inside, short, ran), h)

  pub ram_read-Copied :
      (disk : Disk) (b : ℕ) (bytes : List ℕ) (at : ℕ)
      → IsWhole disk
      → b < block_count
      → at + block_size ≤ length bytes
      → (out : List ℕ) × (ram_read block_size block_count disk b bytes at block_size
          ≡ ok (success, out))
        × Copied block_size bytes at disk.buffer (b * block_size) out
  unfolding ram_read
  ram_read-Copied disk b bytes at whole lt fit =
      let (out, ran, h) =
        mem_copy-Copied block_size bytes at disk.buffer (b * block_size)
          (subst (λ l. b * block_size + block_size ≤ l) (sym whole.full) (block_fits b lt)) fit in
      let there : (disk.ctx == 0) ≡ false = ground (arith, whole.there) in
      let inside : leb block_count b ≡ false = ground arith in
      let short : ltb block_size block_size ≡ false = ground arith in
      (out, rw (there, inside, short, ran), h)
