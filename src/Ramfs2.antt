-- ===== src/Ramfs2.antt =====
-- The second file system, which the kernel mounts: kernel/fs/ramfs2/ramfs2.c, over the RAM disk. The
-- list of files holds each node's address and its file, from `head` on.
pub mod Table
pub mod Owned
pub mod Reached
pub mod Stored
pub mod ReadBack
use xhopin.Base.{
  ℕ, zero, suc, ◌+◌, ◌*◌, ◌%◌, Bool, true, false, ◌==◌, ltb, if◌then◌else◌, List, [], ◌∷◌, ◌++◌,
  set, get_elem?, length, Option, none, some, Run, ok, wild, or_wild, ◌>>=◌, Rc, success, failure,
}
use xhopin.Word.{w32}
use xhopin.Kernel.{Allocator}
use xhopin.RamDisk.{Disk, ram_read, ram_write}
use xhopin.Ramfs.{str_eq, four_bytes, blocks_for}
use xhopin.Pool.{first_free}
use xhopin.FileSystem.{FsOps, Volume}

-- `file_t`. `name` and `blocks` hold what was written to the two arrays since they were made; an
-- array of blocks has `block_count` places.
pub record BlockFile : Type 0 where
  pub name : List ℕ
  pub size : ℕ
  pub blocks_ptr : ℕ
  pub blocks : List ℕ
  pub block_count : ℕ

-- `ramfs_ctx_t`, and its address. A block is set in the map if its byte is not 0.
pub record BlockCtx : Type 0 where
  pub files : List (ℕ × BlockFile)
  pub block_map : ℕ → Bool
  pub total_blocks : ℕ

-- The memory of a file's structure from its name on.
abbrev pub name_bytes : BlockFile → List ℕ
name_bytes f =
    f.name ++ (four_bytes f.size ++ (four_bytes f.blocks_ptr ++ four_bytes f.block_count))

-- The loop that copies a name, up to its end.
unfoldable pub copy_name : ℕ → List ℕ → Run (List ℕ)
copy_name zero src = ok []
copy_name (suc n) [] = wild
copy_name (suc n) (c ∷ src) = elim (c == 0) [
  | true ↦ ok (0 ∷ [])
  | false ↦ copy_name n src >>= λ rest. ok (c ∷ rest)
]

-- The place of the first file of the name in the list, counted from `i`, and the file.
unfoldable pub find_node : ℕ → List (ℕ × BlockFile) → List ℕ → Run (Option (ℕ × ℕ × BlockFile))
unfolding str_eq
find_node i [] name = ok none
find_node i ((p, f) ∷ files) name = do
  same ← str_eq (name_bytes f) name
  elim same [ true ↦ ok (some (i, p, f)) | false ↦ find_node (i + 1) files name ]

-- The list without the node at a place.
unfoldable pub remove_at : ℕ → List (ℕ × BlockFile) → List (ℕ × BlockFile)
remove_at i [] = []
remove_at zero (f ∷ files) = files
remove_at (suc i) (f ∷ files) = f ∷ remove_at i files

unfoldable pub alloc_block : ℕ → (ℕ → Bool) → Option ℕ × (ℕ → Bool)
unfolding first_free
alloc_block total map =
    let i = first_free total 0 map in
    if ltb i total then (some i, λ j. if j == i then true else map j) else (none, map)

-- The loop of `ramfs_remove` over the blocks from place `i` on, `n` of them.
unfoldable pub free_blocks : ℕ → ℕ → List ℕ → (ℕ → Bool) → Run (ℕ → Bool)
free_blocks zero i blocks map = ok map
free_blocks (suc n) i blocks map = do
  b ← or_wild (get_elem? blocks i)
  free_blocks n (i + 1) blocks (λ j. if j == b then false else map j)

module _ (block_size block_count : ℕ) where
  -- The loop of `ramfs_write` from round `i` on: whether it came to its end, the blocks that were
  -- noted down, the map and the disk.
  unfoldable pub put_blocks :
      ℕ → ℕ → List ℕ → ℕ → ℕ → List ℕ → (ℕ → Bool) → Disk → Run (Rc × List ℕ × (ℕ → Bool) × Disk)
  unfolding alloc_block ram_write
  put_blocks zero i bytes at total blocks map disk = ok (success, blocks, map, disk)
  put_blocks (suc n) i bytes at total blocks map disk =
      let (blk, map') = alloc_block total map in
      elim blk [
        | none ↦ ok (failure, blocks, map', disk)
        | some b ↦
            ram_write block_size block_count disk b bytes (at + i * block_size % w32) block_size
            >>= λ (r, disk'). put_blocks n (i + 1) bytes at total (blocks ++ (b ∷ [])) map' disk'
      ]

  -- The loop of `ramfs_read`.
  unfoldable pub get_blocks : ℕ → ℕ → List ℕ → List ℕ → ℕ → Disk → Run (List ℕ)
  unfolding ram_read
  get_blocks zero i blocks bytes at disk = ok bytes
  get_blocks (suc n) i blocks bytes at disk = do
    b ← or_wild (get_elem? blocks i)
    (r, bytes') ←
        ram_read block_size block_count disk b bytes (at + i * block_size % w32) block_size
    get_blocks n (i + 1) blocks bytes' at disk

  unfoldable pub ramfs_read : List ℕ → List ℕ → ℕ → ℕ → BlockCtx → Disk → Run (Rc × List ℕ)
  unfolding find_node get_blocks
  ramfs_read name bytes at len fs disk = do
    found ← find_node 0 fs.files name
    elim found [
      | none ↦ ok (failure, bytes)
      | some (i, p, f) ↦
          get_blocks f.block_count 0 f.blocks bytes at disk >>= λ bytes'. ok (success, bytes')
    ]

  module _ (A : Allocator) where
    open A use {Mem, alloc, free}

    -- The new context, if there is memory for it and for its map.
    unfoldable pub ramfs_mount : Mem → Rc × Option BlockCtx × Mem
    ramfs_mount m =
        let (p, m') = alloc 12 m in
        let (q, m'') = alloc block_count m' in
        if p == 0 then (failure, none, m') else if q == 0 then (failure, none, m'') else (
          success,
          some (record { files = []; block_map = λ b. false; total_blocks = block_count }),
          m'',
        )

    unfoldable pub ramfs_create : List ℕ → BlockCtx → Mem → Run (Rc × BlockCtx × Mem)
    unfolding find_node copy_name
    ramfs_create name fs m = do
      found ← find_node 0 fs.files name
      elim found [
        | some node ↦ ok (failure, fs, m)
        | none ↦
            let (p, m') = alloc 48 m in
            if p == 0 then ok (failure, fs, m') else (do
              copied ← copy_name 32 name
              ok (
                success,
                record fs {
                  files =
                      (
                        p,
                        record {
                          name = copied;
                          size = 0;
                          blocks_ptr = 0;
                          blocks = [];
                          block_count = 0;
                        },
                      )
                      ∷ fs.files;
                },
                m',
              ))
      ]

    -- What the write leaves of the file: the new array at `q`, with the blocks noted down so far.
    unfoldable pub ramfs_write :
        List ℕ → List ℕ → ℕ → ℕ → BlockCtx → Disk → Mem → Run (Rc × BlockCtx × Disk × Mem)
    unfolding find_node put_blocks
    ramfs_write name bytes at len fs disk m = do
      found ← find_node 0 fs.files name
      elim found [
        | none ↦ ok (failure, fs, disk, m)
        | some (i, p, f) ↦
            let needed = blocks_for block_size len in
            let (q, m') = alloc (4 * needed % w32) m in
            if q == 0
            then ok (
              failure,
              record fs { files = set fs.files i (p, record f { blocks_ptr = 0; blocks = [] }) },
              disk,
              m',
            )
            else put_blocks needed 0 bytes at fs.total_blocks [] fs.block_map disk
              >>= λ (r, blocks, map, disk').
                  let size : ℕ = elim r [ success ↦ len | failure ↦ f.size ] in
                  ok (
                    r,
                    record fs {
                      files = set fs.files i (
                        p,
                        record f {
                          size = size;
                          blocks_ptr = q;
                          blocks = blocks;
                          block_count = needed;
                        },
                      );
                      block_map = map;
                    },
                    disk',
                    m',
                  )
      ]

    unfoldable pub ramfs_remove : List ℕ → BlockCtx → Mem → Run (Rc × BlockCtx × Mem)
    unfolding find_node free_blocks remove_at
    ramfs_remove name fs m = do
      found ← find_node 0 fs.files name
      elim found [
        | none ↦ ok (failure, fs, m)
        | some (i, p, f) ↦ free_blocks f.block_count 0 f.blocks fs.block_map >>= λ map. ok (
          success,
          record fs { files = remove_at i fs.files; block_map = map },
          free p (free f.blocks_ptr m),
        )
      ]
