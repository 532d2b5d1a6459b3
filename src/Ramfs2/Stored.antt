-- ===== src/Ramfs2/Stored.antt =====
-- What the blocks of a file of the second file system hold (kernel/fs/ramfs2/ramfs2.c): the loop of
-- `ramfs_write` stores the bytes, and the loop of `ramfs_read` gives them back.
use mathlib.Core.Option.{some-injective}
use native.Mathlib.Nat.{suc-mul}
use xhopin.Base.{
  ℕ, zero, suc, ◌+◌, ◌*◌, ◌%◌, ◌≡◌, ◌≢◌, ◌≤◌, ◌<◌, ◌⊎◌, inl, inr, refl, sym, ◌∙◌, ap, subst, Bool,
  true, false, ◌==◌, if◌then◌else◌, Bool-cases, arith, List, [], ◌∷◌, ◌++◌, length, length-append,
  get_elem?, get_elem?-some, get_or, some, ok, Rc, success, Post,
}
use xhopin.Word.{w32}
use xhopin.RamDisk.{Disk, ram_read}
use xhopin.RamDisk.Copy.{byte_at, Copied, IsWhole, block_fits, ram_write-Copied, ram_read-Copied}
use xhopin.Ramfs2.{put_blocks, get_blocks}
use xhopin.Ramfs2.Owned.{alloc_block-cases}

get_elem?-snoc :
    (xs : List ℕ) (x i v : ℕ)
    → get_elem? (xs ++ (x ∷ [])) i ≡ some v
    → (get_elem? xs i ≡ some v) ⊎ ((i ≡ length xs) × (x ≡ v))
get_elem?-snoc [] x zero v e = inr (refl, some-injective x v e)
get_elem?-snoc [] x (suc i) v e = absurd (ground arith)
get_elem?-snoc (y ∷ xs) x zero v e = inl e
get_elem?-snoc (y ∷ xs) x (suc i) v e = elim (get_elem?-snoc xs x i v e) [
  | inl h ↦ inl h
  | inr (h, h') ↦ inr (ap suc h, h')
]

get_or-some : (xs : List ℕ) (i v : ℕ) → get_elem? xs i ≡ some v → get_or xs i 0 ≡ v
get_or-some [] i v e = absurd (ground arith)
get_or-some (x ∷ xs) zero v e = some-injective x v e
get_or-some (x ∷ xs) (suc i) v e = get_or-some xs i v e

module _ (block_size block_count : ℕ) where
  -- Two blocks have no byte in common.
  apart :
      (b b' j : ℕ)
      → b' ≢ b
      → j < block_size
      → (b' * block_size + j < b * block_size) ⊎ (b * block_size + block_size ≤ b' * block_size + j)
  apart b b' j ne lt = elim (below b' b ne) [
    | inl less ↦ let fit = block_fits block_size b b' less in inl (omega arith)
    | inr more ↦ let fit = block_fits block_size b' b more in inr (omega arith)
  ]
    where
      below : (x y : ℕ) → x ≢ y → (x < y) ⊎ (y < x)
      below x y ne' = ground arith

  -- One round of the read.
  get_blocks-round :
      (n i to b : ℕ) (blocks : List ℕ) (disk : Disk) (before mid : List ℕ)
      → get_elem? blocks i ≡ some b
      → i * block_size % w32 ≡ i * block_size
      → ram_read block_size block_count disk b before (to + i * block_size) block_size
        ≡ ok (success, mid)
      → get_blocks block_size block_count (suc n) i blocks before to disk
        ≡ get_blocks block_size block_count n (i + 1) blocks mid to disk
  unfolding get_blocks
  get_blocks-round n i to b blocks disk before mid found exact ran = rw (found, exact, ran)

  module _ (bytes : List ℕ) (at : ℕ) where
    -- The block `b` is in the disk, set in the map, and holds the bytes of place `i`.
    pub record Holds (map : ℕ → Bool) (disk : Disk) (i b : ℕ) : Type 0 where
      pub inside : b < block_count
      pub taken : map b ≡ true
      pub content :
          (j : ℕ)
          → j < block_size
          → get_elem? disk.buffer (b * block_size + j)
            ≡ some (byte_at bytes (at + i * block_size + j))

    -- The blocks that are noted hold the bytes, each those of its place.
    abbrev pub Stored : List ℕ → (ℕ → Bool) → Disk → Type 0
    Stored blocks map disk = (i b : ℕ) → get_elem? blocks i ≡ some b → Holds map disk i b

    Stored-next :
        (blocks : List ℕ) (map : ℕ → Bool) (disk : Disk) (b : ℕ) (out : List ℕ)
        → b < block_count
        → map b ≡ false
        → Copied block_size disk.buffer (b * block_size) bytes (at + length blocks * block_size) out
        → Stored blocks map disk
        → Stored
            (blocks ++ (b ∷ []))
            (λ j. if j == b then true else map j)
            (record disk { buffer = out })
    Stored-next blocks map disk b out lt free copy h i b' e =
        elim (get_elem?-snoc blocks b i b' e) [
          | inl before ↦
              let old = h i b' before in
              let other : b' ≢ b = λ same. absurd (ground (arith, old.taken, ap map same, free)) in
              let miss : (b' == b) ≡ false = ground arith in
              record {
                inside = old.inside;
                taken = rw miss old.taken;
                content = λ j lt'.
                    copy.outside (b' * block_size + j) (apart b b' j other lt') ∙ old.content j lt';
              }
          | inr (place, same) ↦
              subst
                (λ x.
                  Holds (λ j. if j == b then true else map j) (record disk { buffer = out }) i x)
                same
                (record {
                  inside = lt;
                  taken = ground arith;
                  content = λ j lt'.
                      copy.inside j lt'
                      ∙ ap (λ n. some (byte_at bytes (at + n * block_size + j))) (sym place);
                })
        ]

    -- What a loop that comes to its end leaves.
    abbrev pub AllStored : ℕ → Rc × List ℕ × (ℕ → Bool) × Disk → Type 0
    AllStored total (r, blocks, map, disk) =
        r ≡ success
        → (length blocks ≡ total) × IsWhole block_size block_count disk × Stored blocks map disk

    module _ (total limit : ℕ) (enough : limit ≤ block_count)
        (fit : at + total * block_size ≤ length bytes) (small : total * block_size < w32) where
      offset_small :
          (i : ℕ)
          → i < total
          → (i * block_size % w32 ≡ i * block_size)
            × (at + i * block_size + block_size ≤ length bytes)
      offset_small i lt = let le = block_fits block_size total i lt in (omega arith, omega arith)

      pub put_blocks-AllStored :
          (n i : ℕ) (blocks : List ℕ) (map : ℕ → Bool) (disk : Disk)
          → i + n ≡ total
          → length blocks ≡ i
          → IsWhole block_size block_count disk
          → Stored blocks map disk
          → Post
              (AllStored total)
              (put_blocks block_size block_count n i bytes at limit blocks map disk)
      unfolding put_blocks
      put_blocks-AllStored zero i blocks map disk sum len whole h = λ _. (omega arith, whole, h)
      put_blocks-AllStored (suc n) i blocks map disk sum len whole h =
          elim (alloc_block-cases limit map) [
            | inl e ↦ rw (e, Post, AllStored) λ bad. absurd (ground arith)
            | inr (b, lt, free, e) ↦
                let (exact, inside) = offset_small i (omega arith) in
                let (out, ran, copy) =
                  ram_write-Copied block_size block_count disk b bytes (at + i * block_size) whole
                    (omega arith) inside in
                let whole' : IsWhole block_size block_count (record disk { buffer = out }) =
                  record { there = whole.there; full = copy.size ∙ whole.full } in
                rw (e, exact, ran, Post, e)
                  (put_blocks-AllStored n (i + 1) (blocks ++ (b ∷ []))
                    (λ j. if j == b then true else map j) (record disk { buffer = out })
                    (omega arith) (length-append blocks (b ∷ []) ∙ omega arith) whole'
                    (Stored-next blocks map disk b out (omega arith) free
                      (subst
                        (λ k.
                          Copied block_size disk.buffer (b * block_size) bytes (at + k * block_size)
                            out)
                        (sym len) copy)
                      h))
          ]

      -- The rounds of the read from place `i` on have their bytes, and nothing before is touched.
      pub record ReadFrom (i to : ℕ) (before after : List ℕ) : Type 0 where
        pub size : length after ≡ length before
        pub read :
            (k j : ℕ)
            → i ≤ k
            → k < total
            → j < block_size
            → get_elem? after (to + k * block_size + j)
              ≡ some (byte_at bytes (at + k * block_size + j))
        pub earlier : (p : ℕ) → p < to + i * block_size → get_elem? after p ≡ get_elem? before p

      ReadFrom-next :
          (i to : ℕ) (blocks : List ℕ) (map : ℕ → Bool) (disk : Disk) (b : ℕ)
          (before mid after : List ℕ)
          → Holds map disk i b
          → Copied block_size before (to + i * block_size) disk.buffer (b * block_size) mid
          → ReadFrom (i + 1) to mid after
          → ReadFrom i to before after
      ReadFrom-next i to blocks map disk b before mid after h copy rest = record {
        size = rest.size ∙ copy.size;
        read = λ k j le lt lt'. elim (Bool-cases (k == i)) [
          | inl here ↦
              let eq : k ≡ i = ground arith in
              subst
                (λ x.
                  get_elem? after (to + x * block_size + j)
                  ≡ some (byte_at bytes (at + x * block_size + j)))
                (sym eq) (this j lt')
          | inr later ↦ rest.read k j (ground arith) lt lt'
        ];
        earlier = λ p lt. rest.earlier p (omega (arith, step)) ∙ copy.outside p (inl lt);
      }
        where
          step : (i + 1) * block_size ≡ i * block_size + block_size
          step = ap (λ n. n * block_size) (omega arith) ∙ suc-mul i block_size

          byte :
              (j : ℕ)
              → j < block_size
              → byte_at disk.buffer (b * block_size + j) ≡ byte_at bytes (at + i * block_size + j)
          byte j lt =
              let v = get_or-some disk.buffer (b * block_size + j) _ (h.content j lt) in
              omega (arith, v)

          this :
              (j : ℕ)
              → j < block_size
              → get_elem? after (to + i * block_size + j)
                ≡ some (byte_at bytes (at + i * block_size + j))
          this j lt =
              rest.earlier (to + i * block_size + j) (omega (arith, step))
              ∙ copy.inside j lt
              ∙ ap some (byte j lt)

      pub get_blocks-ReadFrom :
          (n i to : ℕ) (blocks : List ℕ) (map : ℕ → Bool) (disk : Disk) (before : List ℕ)
          → i + n ≡ total
          → length blocks ≡ total
          → IsWhole block_size block_count disk
          → Stored blocks map disk
          → to + total * block_size ≤ length before
          → (after : List ℕ) × (get_blocks block_size block_count n i blocks before to disk
              ≡ ok after)
            × ReadFrom i to before after
      unfolding get_blocks
      get_blocks-ReadFrom zero i to blocks map disk before sum len whole h room = (
        before,
        refl,
        record {
          size = refl;
          read = λ k j le lt lt'. absurd (omega arith);
          earlier = λ p lt. refl;
        },
      )
      get_blocks-ReadFrom (suc n) i to blocks map disk before sum len whole h room =
          let (b, found) = get_elem?-some blocks i (omega arith) in
          let held = h i b found in
          let le = block_fits block_size total i (omega arith) in
          let (exact, _) = offset_small i (omega arith) in
          let (mid, ran, copy) =
            ram_read-Copied block_size block_count disk b before (to + i * block_size) whole
              held.inside (omega arith) in
          let (after, ran', rest) =
            get_blocks-ReadFrom n (i + 1) to blocks map disk mid (omega arith) len whole h
              (omega (arith, copy.size)) in
          (
            after,
            get_blocks-round n i to b blocks disk before mid found exact ran ∙ ran',
            ReadFrom-next i to blocks map disk b before mid after held copy rest,
          )
