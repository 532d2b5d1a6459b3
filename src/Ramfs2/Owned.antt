-- ===== src/Ramfs2/Owned.antt =====
-- The blocks of the second file system (kernel/fs/ramfs2/ramfs2.c): no block is noted for two places of
-- the files, and a noted block is set in the map.
use xhopin.Base.{
  ℕ, zero, suc, ◌+◌, ◌*◌, ◌%◌, ◌≤◌, ◌<◌, ◌≡◌, refl, sym, ◌∙◌, ap, subst, Bool, true, false, ◌==◌,
  ltb, if◌then◌else◌, Bool-cases, ◌⊎◌, inl, inr, arith, List, [], ◌∷◌, ◌++◌, set, get_elem?, Option,
  none, some, or_wild, Rc, Post, Post-bind, Post-bind_any, Post-or_wild, Post-mono, Post-case,
  Post-bind_option, Post-if,
}
use mathlib.Core.Option.{some-injective}
use xhopin.Word.{w32}
use xhopin.RamDisk.{Disk, ram_write}
use xhopin.Pool.{first_free}
use xhopin.Pool.Slots.{first_free-Found}
use xhopin.Kernel.{Allocator}
use xhopin.Ramfs.{str_eq, blocks_for}
use xhopin.Ramfs2.{
  BlockFile, BlockCtx, name_bytes, find_node, remove_at, alloc_block, free_blocks, put_blocks,
  ramfs_create, ramfs_write, ramfs_remove, copy_name,
}

-- How often a block stands in a list.
abbrev pub count : ℕ → List ℕ → ℕ
count b [] = 0
count b (x ∷ xs) = (if x == b then 1 else 0) + count b xs

-- How often a block is noted for a file.
abbrev pub uses : ℕ → List (ℕ × BlockFile) → ℕ
uses b [] = 0
uses b ((p, f) ∷ files) = count b f.blocks + uses b files

abbrev bit : Bool → ℕ
bit true = 1
bit false = 0

-- A block is used once at most, only if it is set in the map, and only below `total`.
abbrev pub Covers : ℕ → (ℕ → Bool) → (ℕ → ℕ) → Type 0
Covers total map n = (b : ℕ) → (n b ≤ bit (map b)) × (total ≤ b → n b ≡ 0)

abbrev pub IsOwned : BlockCtx → Type 0
IsOwned fs = Covers fs.total_blocks fs.block_map (λ b. uses b fs.files)

bit_le : (t : Bool) → bit t ≤ 1
bit_le true = omega arith
bit_le false = omega arith

count-snoc :
    (b x : ℕ) (xs : List ℕ) → count b (xs ++ (x ∷ [])) ≡ count b xs + (if x == b then 1 else 0)
count-snoc b x [] = omega arith
count-snoc b x (y ∷ xs) = let rest = count-snoc b x xs in omega arith

count-get_elem? : (xs : List ℕ) (i b : ℕ) → get_elem? xs i ≡ some b → 1 ≤ count b xs
count-get_elem? [] i b e = ground arith
count-get_elem? (x ∷ xs) zero b e = ground arith
count-get_elem? (x ∷ xs) (suc i) b e = let rest = count-get_elem? xs i b e in omega arith

uses-set :
    (b i : ℕ) (files : List (ℕ × BlockFile)) (p q : ℕ) (f g : BlockFile)
    → get_elem? files i ≡ some (p, f)
    → uses b (set files i (q, g)) ≡ uses b (remove_at i files) + count b g.blocks
unfolding remove_at
uses-set b i [] p q f g e = ground arith
uses-set b zero (x ∷ files) p q f g e = omega arith
uses-set b (suc i) (x ∷ files) p q f g e = let rest = uses-set b i files p q f g e in omega arith

uses-remove_at :
    (b i : ℕ) (files : List (ℕ × BlockFile)) (p : ℕ) (f : BlockFile)
    → get_elem? files i ≡ some (p, f)
    → uses b (remove_at i files) + count b f.blocks ≡ uses b files
unfolding remove_at
uses-remove_at b i [] p f e = ground arith
uses-remove_at b zero (x ∷ files) p f e =
    let same : count b x.1.blocks ≡ count b f.blocks =
      ap (λ y. count b y.1.blocks) (some-injective x (p, f) e) in
    omega arith
uses-remove_at b (suc i) (x ∷ files) p f e =
    let rest = uses-remove_at b i files p f e in omega arith

-- A block that is taken was free.
pub alloc_block-cases :
    (total : ℕ) (map : ℕ → Bool)
    → (alloc_block total map ≡ (none, map))
      ⊎ ((b : ℕ) × (b < total)
          × (map b ≡ false)
          × (alloc_block total map ≡ (some b, λ j. if j == b then true else map j)))
unfolding alloc_block
alloc_block-cases total map = elim (first_free-Found total 0 map) [
  | inl (lt, _, e) ↦
      let there : ltb (first_free total 0 map) total ≡ true = ground arith in
      inr (first_free total 0 map, omega arith, e, rw there refl)
  | inr (eq, _) ↦
      let full : ltb (first_free total 0 map) total ≡ false = ground arith in inl (rw full refl)
]

Covers-taken :
    (total b : ℕ) (map : ℕ → Bool) (n m : ℕ → ℕ)
    → b < total
    → map b ≡ false
    → ((j : ℕ) → m j ≡ n j + (if b == j then 1 else 0))
    → Covers total map n
    → Covers total (λ j. if j == b then true else map j) m
Covers-taken total b map n m lt free eq h j =
    let (at_most, below) = h j in
    let eq_j = eq j in
    elim (Bool-cases (j == b)) [
      | inl same ↦
          let at : j ≡ b = ground arith in
          let clear : map j ≡ false = ap map at ∙ free in
          let at_most' : n j ≤ 0 = subst (λ t. n j ≤ bit t) clear at_most in
          rw same (ground arith, λ out. absurd (omega arith))
      | inr other ↦
          let apart : (b == j) ≡ false = ground arith in
          let eq' : m j ≡ n j + 0 = eq_j ∙ rw apart refl in
          rw other (omega arith, λ out. let z = below out in omega arith)
    ]

free_blocks-kept :
    (n i : ℕ) (blocks : List ℕ) (map : ℕ → Bool)
    → Post (λ map'. (b : ℕ) → count b blocks ≡ 0 → map' b ≡ map b) (free_blocks n i blocks map)
unfolding free_blocks
free_blocks-kept zero i blocks map = λ b e. refl
free_blocks-kept (suc n) i blocks map =
    Post-bind (λ x. get_elem? blocks i ≡ some x) P (or_wild (get_elem? blocks i)) _
      (Post-or_wild (λ x. get_elem? blocks i ≡ some x) (get_elem? blocks i) λ x e. e)
      λ x at.
        Post-mono
          (λ map'. (b : ℕ) → count b blocks ≡ 0 → map' b ≡ (if b == x then false else map b)) P
          (free_blocks n (i + 1) blocks (λ j. if j == x then false else map j))
          (free_blocks-kept n (i + 1) blocks (λ j. if j == x then false else map j))
          λ map' h b none_there. h b none_there ∙ apart b x at none_there
  where
    P : (ℕ → Bool) → Type 0
    P map' = (b : ℕ) → count b blocks ≡ 0 → map' b ≡ map b

    apart :
        (b x : ℕ)
        → get_elem? blocks i ≡ some x
        → count b blocks ≡ 0
        → (if b == x then false else map b) ≡ map b
    apart b x at none_there = elim (Bool-cases (b == x)) [
      | inl same ↦
          let eq : b ≡ x = ground arith in
          let there : 1 ≤ count b blocks =
            subst (λ y. 1 ≤ count y blocks) (sym eq) (count-get_elem? blocks i x at) in
          absurd (omega arith)
      | inr other ↦ rw other refl
    ]

-- The place that is found holds the file.
abbrev IsFound : List (ℕ × BlockFile) → Option (ℕ × ℕ × BlockFile) → Type 0
IsFound files none = Unit
IsFound files (some (i, p, f)) = get_elem? files i ≡ some (p, f)

find_node-IsFound :
    (i : ℕ) (files all : List (ℕ × BlockFile)) (name : List ℕ)
    → ((k : ℕ) → get_elem? all (i + k) ≡ get_elem? files k)
    → Post (IsFound all) (find_node i files name)
unfolding find_node
find_node-IsFound i [] all name h = tt
find_node-IsFound i ((q, g) ∷ files) all name h =
    Post-bind_any (IsFound all) (str_eq (name_bytes g) name) _ λ same.
      Post-case (IsFound all) same _ _
        (subst (λ j. get_elem? all j ≡ some (q, g)) (omega arith) (h 0))
        (find_node-IsFound (i + 1) files all name
          λ k. subst (λ j. get_elem? all j ≡ get_elem? files k) (omega arith) (h (suc k)))

Covers-less :
    (total : ℕ) (map : ℕ → Bool) (n m : ℕ → ℕ)
    → ((b : ℕ) → m b ≤ n b)
    → Covers total map n
    → Covers total map m
Covers-less total map n m le h b =
    let (at_most, below) = h b in
    let le_b = le b in (omega arith, λ out. let z = below out in omega arith)

module _ (block_size block_count : ℕ) where
  abbrev Noted : ℕ → (ℕ → ℕ) → Rc × List ℕ × (ℕ → Bool) × Disk → Type 0
  Noted total others (r, blocks, map, disk) = Covers total map (λ b. others b + count b blocks)

  put_blocks-Noted :
      (n i : ℕ) (bytes : List ℕ) (at total : ℕ) (blocks : List ℕ) (map : ℕ → Bool) (disk : Disk)
      (others : ℕ → ℕ)
      → Covers total map (λ b. others b + count b blocks)
      → Post
          (Noted total others)
          (put_blocks block_size block_count n i bytes at total blocks map disk)
  unfolding put_blocks
  put_blocks-Noted zero i bytes at total blocks map disk others h = h
  put_blocks-Noted (suc n) i bytes at total blocks map disk others h =
      elim (alloc_block-cases total map) [
        | inl e ↦ rw (e, Post, Noted, e) h
        | inr (b, lt, free, e) ↦
            rw (e, Post, e)
              (Post-bind_any (Noted total others)
                (ram_write block_size block_count disk b bytes (at + i * block_size % w32)
                  block_size)
                _
                λ (r, disk').
                  put_blocks-Noted n (i + 1) bytes at total (blocks ++ (b ∷ []))
                    (λ j. if j == b then true else map j) disk' others
                    (Covers-taken total b map (λ j. others j + count j blocks)
                      (λ j. others j + count j (blocks ++ (b ∷ []))) lt free
                      (λ j. omega (arith, count-snoc j b blocks)) h))
      ]

  module _ (A : Allocator) where
    open A use {Mem, alloc}

    module _ (fs : BlockCtx) (owned : IsOwned fs) where
      -- The place `i` holds the file, and its blocks are the only ones that may change.
      others-Covers :
          (i p : ℕ) (f : BlockFile) (map : ℕ → Bool)
          → get_elem? fs.files i ≡ some (p, f)
          → ((b : ℕ) → count b f.blocks ≡ 0 → map b ≡ fs.block_map b)
          → Covers fs.total_blocks map (λ b. uses b (remove_at i fs.files))
      others-Covers i p f map at same b =
          let (at_most, below) = owned b in
          let all : uses b (remove_at i fs.files) + count b f.blocks ≡ uses b fs.files =
            uses-remove_at b i fs.files p f at in
          let none_out : fs.total_blocks ≤ b → uses b (remove_at i fs.files) ≡ 0 =
            λ out. let z = below out in omega arith in
          elim (Bool-cases (count b f.blocks == 0)) [
            | inl absent ↦
                let eq : map b ≡ fs.block_map b = same b (ground arith) in
                (
                  subst (λ t. uses b (remove_at i fs.files) ≤ bit t) (sym eq) (omega arith),
                  none_out,
                )
            | inr noted ↦
                let one : bit (fs.block_map b) ≤ 1 = bit_le (fs.block_map b) in
                let zero_left : uses b (remove_at i fs.files) ≡ 0 = ground arith in
                (omega arith, none_out)
          ]

      -- The blocks of the file system that a call leaves are owned, and as many as before.
      abbrev pub KeptBy : Rc × BlockCtx × Mem → Type 0
      KeptBy (r, fs', m) = (fs'.total_blocks ≡ fs.total_blocks) × IsOwned fs'

      abbrev pub Written : Rc × BlockCtx × Disk × Mem → Type 0
      Written (r, fs', disk, m) = (fs'.total_blocks ≡ fs.total_blocks) × IsOwned fs'

      search : (name : List ℕ) → Post (IsFound fs.files) (find_node 0 fs.files name)
      search name =
          find_node-IsFound 0 fs.files fs.files name
            λ k. ap (λ j. get_elem? fs.files j) (omega arith)

      pub ramfs_remove-IsOwned :
          (name : List ℕ) (m : Mem) → Post KeptBy (ramfs_remove block_size block_count A name fs m)
      unfolding ramfs_remove
      ramfs_remove-IsOwned name m =
          Post-bind_option (IsFound fs.files) KeptBy (find_node 0 fs.files name) _ _ (search name)
            (refl, owned)
            λ (i, p, f) at.
              Post-bind (λ map. (b : ℕ) → count b f.blocks ≡ 0 → map b ≡ fs.block_map b) KeptBy
                (free_blocks f.block_count 0 f.blocks fs.block_map) _
                (free_blocks-kept f.block_count 0 f.blocks fs.block_map)
                λ map same. (refl, others-Covers i p f map at same)

      pub ramfs_create-IsOwned :
          (name : List ℕ) (m : Mem) → Post KeptBy (ramfs_create block_size block_count A name fs m)
      unfolding ramfs_create
      ramfs_create-IsOwned name m =
          Post-bind_option (IsFound fs.files) KeptBy (find_node 0 fs.files name) _ _ (search name)
            (Post-if KeptBy ((alloc 48 m).0 == 0) _ _ (λ _. (refl, owned))
              λ _. Post-bind_any KeptBy (copy_name 32 name) _ λ copied.
                (refl, Covers-less fs.total_blocks fs.block_map _ _ (λ b. omega arith) owned))
            λ node at. (refl, owned)

      pub ramfs_write-IsOwned :
          (name bytes : List ℕ) (at len : ℕ) (disk : Disk) (m : Mem)
          → Post Written (ramfs_write block_size block_count A name bytes at len fs disk m)
      unfolding ramfs_write
      ramfs_write-IsOwned name bytes at len disk m =
          let needed = blocks_for block_size len in
          Post-bind_option (IsFound fs.files) Written (find_node 0 fs.files name) _ _ (search name)
            (refl, owned)
            λ (i, p, f) here.
              let others : ℕ → ℕ = λ b. uses b (remove_at i fs.files) in
              let start : Covers fs.total_blocks fs.block_map others =
                others-Covers i p f fs.block_map here λ b e. refl in
              Post-if Written ((alloc (4 * needed % w32) m).0 == 0) _ _
                (λ _. (
                  refl,
                  Covers-less fs.total_blocks fs.block_map others _
                      (λ b. omega (
                        arith,
                        uses-set b i fs.files p p f (record f { blocks_ptr = 0; blocks = [] }) here,
                      ))
                      start,
                ))
                λ _.
                  Post-bind (Noted fs.total_blocks others) Written
                    (put_blocks block_size block_count needed 0 bytes at fs.total_blocks []
                      fs.block_map disk)
                    _
                    (put_blocks-Noted needed 0 bytes at fs.total_blocks [] fs.block_map disk others
                      (Covers-less fs.total_blocks fs.block_map others _ (λ b. omega arith) start))
                    λ (r, blocks, map, disk') h. (
                      refl,
                      Covers-less fs.total_blocks map (λ b. others b + count b blocks) _
                          (λ b. omega (arith, uses-set b i fs.files p p f _ here)) h,
                    )
