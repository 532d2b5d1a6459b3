-- ===== src/Ramfs2/ReadBack.antt =====
-- What is written to a file of the second file system is read back (kernel/fs/ramfs2/ramfs2.c).
use native.Mathlib.Nat.{lt-div-mul-add, div-add-mod', mod-lt, div-lt_iff_lt-mul}
use xhopin.Base.{
  ℕ, suc, ◌+◌, ◌-◌, ◌*◌, ◌/◌, ◌%◌, ◌≡◌, ◌≤◌, ◌<◌, refl, sym, ◌∙◌, ap, subst, Bool, true, false,
  ◌==◌, ◌||◌, Bool-cases, inl, inr, arith, List, [], ◌∷◌, ◌++◌, All, length, set, get_elem?, Option,
  some, none, ok, Rc, success, failure, Post, Post-bind, Post-bind_eq, Post-bind_option, Post-if,
  Post-mono, Post-ok,
}
use xhopin.Word.{w32}
use xhopin.Kernel.{Allocator}
use xhopin.Ramfs.{str_eq, four_bytes, blocks_for}
use xhopin.RamDisk.{Disk}
use xhopin.RamDisk.Copy.{byte_at, IsWhole}
use xhopin.Ramfs2.{
  BlockFile, BlockCtx, name_bytes, find_node, put_blocks, get_blocks, ramfs_write, ramfs_read,
}
use xhopin.Ramfs2.Stored.{Stored, AllStored, put_blocks-AllStored, get_blocks-ReadFrom}

-- The string ends within the list.
unfoldable pub has_end : List ℕ → Bool
has_end [] = false
has_end (c ∷ cs) = c == 0 || has_end cs

-- What lies behind the end of a string is not compared.
str_eq-has_end :
    (xs ys zs b : List ℕ) → has_end xs ≡ true → str_eq (xs ++ ys) b ≡ str_eq (xs ++ zs) b
unfolding str_eq has_end
str_eq-has_end [] ys zs b e = absurd (ground arith)
str_eq-has_end (x ∷ xs) ys zs [] e = refl
str_eq-has_end (x ∷ xs) ys zs (y ∷ b) e = elim (Bool-cases (x == y)) [
  | inl same ↦ elim (Bool-cases (x == 0)) [
    | inl last ↦ rw (same, last, str_eq) refl
    | inr more ↦ rw (same, more, str_eq) (str_eq-has_end xs ys zs b (ground arith))
  ]
  | inr other ↦ rw (other, str_eq) refl
]

-- The bytes behind the name.
abbrev behind : BlockFile → List ℕ
behind f = four_bytes f.size ++ (four_bytes f.blocks_ptr ++ four_bytes f.block_count)

-- A file that is found is found again when it keeps its name.
abbrev StillFound : ℕ → List (ℕ × BlockFile) → List ℕ → Option (ℕ × ℕ × BlockFile) → Type 0
StillFound i files name none = Unit
StillFound i files name (some (at, p, f)) =
    (k : ℕ) × (at ≡ i + k)
    × ((g : BlockFile)
        → g.name ≡ f.name
        → find_node i (set files k (p, g)) name ≡ ok (some (at, p, g)))

abbrev pub Ended : List (ℕ × BlockFile) → Type 0
Ended files = All (λ (x : ℕ × BlockFile). has_end x.1.name ≡ true) files

find_node-hit :
    (i p : ℕ) (g : BlockFile) (files : List (ℕ × BlockFile)) (name : List ℕ)
    → str_eq (name_bytes g) name ≡ ok true
    → find_node i ((p, g) ∷ files) name ≡ ok (some (i, p, g))
unfolding find_node
find_node-hit i p g files name e = rw e refl

find_node-miss :
    (i p : ℕ) (g : BlockFile) (files : List (ℕ × BlockFile)) (name : List ℕ)
    → str_eq (name_bytes g) name ≡ ok false
    → find_node i ((p, g) ∷ files) name ≡ find_node (i + 1) files name
unfolding find_node
find_node-miss i p g files name e = rw e refl

find_node-StillFound :
    (i : ℕ) (files : List (ℕ × BlockFile)) (name : List ℕ)
    → Ended files
    → Post (StillFound i files name) (find_node i files name)
unfolding find_node
find_node-StillFound i [] name ends = tt
find_node-StillFound i ((p, f) ∷ files) name (end, ends) =
    Post-bind_eq (StillFound i ((p, f) ∷ files) name) (str_eq (name_bytes f) name) _
      (step (find_node-StillFound (i + 1) files name ends))
  where
    later :
        str_eq (name_bytes f) name ≡ ok false
        → (r : Option (ℕ × ℕ × BlockFile)) → StillFound (i + 1) files name r
        → StillFound i ((p, f) ∷ files) name r
    later e none h = tt
    later e (some (at, q, g)) (k, place, h) = (
      suc k,
      omega arith,
      λ g' same_name. find_node-miss i p f (set files k (q, g')) name e ∙ h g' same_name,
    )

    step :
        Post (StillFound (i + 1) files name) (find_node (i + 1) files name)
        → (same : Bool) → str_eq (name_bytes f) name ≡ ok same
        → Post
            (StillFound i ((p, f) ∷ files) name)
            (elim same [ true ↦ ok (some (i, p, f)) | false ↦ find_node (i + 1) files name ])
    step rest true e = (
      0,
      omega arith,
      λ g same_name. find_node-hit i p g files name (
          ap (λ xs. str_eq (xs ++ behind g) name) same_name
          ∙ str_eq-has_end f.name (behind g) (behind f) name end
          ∙ e),
    )
    step rest false e =
        Post-mono (StillFound (i + 1) files name) (StillFound i ((p, f) ∷ files) name)
          (find_node (i + 1) files name) rest (later e)

module _ (block_size block_count : ℕ) (A : Allocator) where
  open A use {Mem, alloc}

  -- After a write that succeeds, the file is found, with blocks that hold what was written.
  abbrev Readable : List ℕ → List ℕ → ℕ → ℕ → Rc × BlockCtx × Disk × Mem → Type 0
  Readable name bytes at total (r, fs, disk, m) =
      r ≡ success
      → (i p : ℕ) × (f : BlockFile) × (find_node 0 fs.files name ≡ ok (some (i, p, f)))
        × (f.block_count ≡ total)
        × (length f.blocks ≡ total)
        × IsWhole block_size block_count disk
        × Stored block_size block_count bytes at f.blocks fs.block_map disk

  -- The caller's buffer, from `at` on, and the disk have room for the blocks.
  pub record Fits (bytes : List ℕ) (at len : ℕ) (fs : BlockCtx) (disk : Disk) : Type 0 where
    pub some_size : 0 < block_size
    pub small : len + block_size < w32
    pub source : at + blocks_for block_size len * block_size ≤ length bytes
    pub disk_whole : IsWhole block_size block_count disk
    pub in_disk : fs.total_blocks ≤ block_count
    pub names : Ended fs.files

  blocks_for-enough :
      (len : ℕ)
      → 0 < block_size
      → len + block_size < w32
      → (len ≤ blocks_for block_size len * block_size)
        × (blocks_for block_size len * block_size < w32)
  blocks_for-enough len pos small =
      let x = len + block_size - 1 in
      let more = lt-div-mul-add {a = x} {b = block_size} pos in
      let less = div-add-mod' x block_size in
      let same : blocks_for block_size len ≡ x / block_size =
        ap (λ y. y / block_size) (omega arith) in
      subst (λ q. (len ≤ q * block_size) × (q * block_size < w32)) (sym same)
        (omega arith, omega arith)

  ramfs_write-Readable :
      (name bytes : List ℕ) (at len : ℕ) (fs : BlockCtx) (disk : Disk) (m : Mem)
      → Fits bytes at len fs disk
      → Post
          (Readable name bytes at (blocks_for block_size len))
          (ramfs_write block_size block_count A name bytes at len fs disk m)
  unfolding ramfs_write
  ramfs_write-Readable name bytes at len fs disk m room =
      let total = blocks_for block_size len in
      let P = Readable name bytes at total in
      Post-bind_option (StillFound 0 fs.files name) P (find_node 0 fs.files name) _ _
        (find_node-StillFound 0 fs.files name room.names) (λ bad. absurd (ground arith))
        λ (i, p, f) (k, place, again).
          Post-if P ((alloc (4 * total % w32) m).0 == 0) _ _ (λ _ bad. absurd (ground arith))
            λ _.
              Post-bind (AllStored block_size block_count bytes at total) P
                (put_blocks block_size block_count total 0 bytes at fs.total_blocks [] fs.block_map
                  disk)
                _
                (put_blocks-AllStored block_size block_count bytes at total fs.total_blocks
                  room.in_disk room.source (blocks_for-enough len room.some_size room.small).1 total
                  0 [] fs.block_map disk (omega arith) refl room.disk_whole
                  (λ i b e. absurd (ground arith)))
                λ (r, blocks, map, disk') h done.
                  let (len_eq, whole, stored) = h done in
                  let g : BlockFile = record f {
                    size = elim r [ success ↦ len | failure ↦ f.size ];
                    blocks_ptr = (alloc (4 * total % w32) m).0;
                    blocks = blocks;
                    block_count = total;
                  } in
                  (
                    i,
                    p,
                    g,
                    subst (λ x. find_node 0 (set fs.files x (p, g)) name ≡ ok (some (i, p, g)))
                        (omega (arith, place)) (again g refl),
                    refl,
                    len_eq,
                    whole,
                    stored,
                  )

  ramfs_read-found :
      (name buffer after : List ℕ) (to len total i p : ℕ) (fs : BlockCtx) (disk : Disk)
      (f : BlockFile)
      → find_node 0 fs.files name ≡ ok (some (i, p, f))
      → f.block_count ≡ total
      → get_blocks block_size block_count total 0 f.blocks buffer to disk ≡ ok after
      → ramfs_read block_size block_count name buffer to len fs disk ≡ ok (success, after)
  unfolding ramfs_read
  ramfs_read-found name buffer after to len total i p fs disk f found count read =
      rw (found, count, read)

  -- After a write of `len` bytes that succeeds, on a whole disk with at least as many blocks as the map,
  -- with names that end and a buffer that has room for whole blocks, a read into any buffer with such
  -- room succeeds, and gives back at each of the `len` places the byte that was written.
  pub ramfs_read-ramfs_write :
      (name bytes : List ℕ) (at len : ℕ) (fs fs' : BlockCtx) (disk disk' : Disk) (m m' : Mem)
      (buffer : List ℕ) (to len' : ℕ)
      → Fits bytes at len fs disk
      → ramfs_write block_size block_count A name bytes at len fs disk m
        ≡ ok (success, fs', disk', m')
      → to + blocks_for block_size len * block_size ≤ length buffer
      → (after : List ℕ) × (ramfs_read block_size block_count name buffer to len' fs' disk'
          ≡ ok (success, after))
        × (length after ≡ length buffer)
        × ((i : ℕ) → i < len → get_elem? after (to + i) ≡ some (byte_at bytes (at + i)))
  ramfs_read-ramfs_write name bytes at len fs fs' disk disk' m m' buffer to len' room ran fit =
      let total = blocks_for block_size len in
      let (enough, small) = blocks_for-enough len room.some_size room.small in
      let (i, p, f, found, count, size, whole, stored) =
        Post-ok (Readable name bytes at total)
          (ramfs_write block_size block_count A name bytes at len fs disk m)
          (success, fs', disk', m') (ramfs_write-Readable name bytes at len fs disk m room) ran
          refl in
      let (after, read, h) =
        get_blocks-ReadFrom block_size block_count bytes at total fs.total_blocks room.in_disk
          room.source small total 0 to f.blocks fs'.block_map disk' buffer (omega arith) size whole
          stored fit in
      (
        after,
        ramfs_read-found name buffer after to len' total i p fs' disk' f found count read,
        h.size,
        λ j lt.
            let row = div-add-mod' j block_size in
            subst (λ x. get_elem? after x ≡ some (byte_at bytes (at + j))) (omega (arith, row))
              (h.read (j / block_size) (j % block_size) (omega arith)
                  ((div-lt_iff_lt-mul {x = j} {y = total} room.some_size).1 (omega arith))
                  (mod-lt j room.some_size)
                ∙ ap (λ x. some (byte_at bytes x)) (omega (arith, row))),
      )
