-- ===== src/Ramfs2/Reached.antt =====
-- The contexts of the second file system (kernel/fs/ramfs2/ramfs2.c) that its operations lead to.
use xhopin.Base.{
  ℕ, ◌≡◌, refl, subst, ◌==◌, Bool-cases, inl, inr, List, Option, none, some, arith, ok, Post-ok, Rc,
}
use xhopin.RamDisk.{Disk}
use xhopin.Kernel.{Allocator}
use xhopin.Ramfs2.{BlockCtx, ramfs_mount, ramfs_create, ramfs_write, ramfs_remove}
use xhopin.Ramfs2.Owned.{
  IsOwned, KeptBy, Written, ramfs_create-IsOwned, ramfs_write-IsOwned, ramfs_remove-IsOwned,
}

module _ (block_size block_count : ℕ) (A : Allocator) where
  open A use {Mem}

  -- A mount that succeeds, then any calls that return, whatever their results.
  pub data Reached : BlockCtx → Type 0 where
    mounted :
        {fs : BlockCtx} (m : Mem)
        → (ramfs_mount block_size block_count A m).1 ≡ some fs
        → Reached fs
    created :
        {fs fs' : BlockCtx} (name : List ℕ) (m m' : Mem) (r : Rc)
        → ramfs_create block_size block_count A name fs m ≡ ok (r, fs', m')
        → Reached fs
        → Reached fs'
    written :
        {fs fs' : BlockCtx} (name bytes : List ℕ) (at len : ℕ) (disk disk' : Disk) (m m' : Mem)
        (r : Rc)
        → ramfs_write block_size block_count A name bytes at len fs disk m ≡ ok (r, fs', disk', m')
        → Reached fs
        → Reached fs'
    removed :
        {fs fs' : BlockCtx} (name : List ℕ) (m m' : Mem) (r : Rc)
        → ramfs_remove block_size block_count A name fs m ≡ ok (r, fs', m')
        → Reached fs
        → Reached fs'

  abbrev IfMade : Option BlockCtx → Type 0
  IfMade none = Unit
  IfMade (some fs) = IsOwned fs

  ramfs_mount-IfMade : (m : Mem) → IfMade (ramfs_mount block_size block_count A m).1
  unfolding ramfs_mount
  ramfs_mount-IfMade m = elim (Bool-cases ((A.alloc 12 m).0 == 0)) [
    | inl none_left ↦ rw none_left tt
    | inr ctx ↦ elim (Bool-cases ((A.alloc block_count (A.alloc 12 m).1).0 == 0)) [
      | inl none_left ↦ rw (ctx, none_left) tt
      | inr map ↦ rw (ctx, map) λ b. (omega arith, λ out. refl)
    ]
  ]

  -- After a mount and any creations, writes and removals of files that return, failures included, no
  -- block is noted twice, in one file or in two, and each noted block is below the number of blocks
  -- and set in the map, so that no other file can get it.
  pub Reached-IsOwned : (fs : BlockCtx) → Reached fs → IsOwned fs
  Reached-IsOwned fs (mounted m e) = subst IfMade e (ramfs_mount-IfMade m)
  Reached-IsOwned fs' (created {fs = fs} name m m' r e before) =
      (Post-ok (KeptBy block_size block_count A fs (Reached-IsOwned fs before))
        (ramfs_create block_size block_count A name fs m) (r, fs', m')
        (ramfs_create-IsOwned block_size block_count A fs (Reached-IsOwned fs before) name m) e).1
  Reached-IsOwned fs' (written {fs = fs} name bytes at len disk disk' m m' r e before) =
      (Post-ok (Written block_size block_count A fs (Reached-IsOwned fs before))
        (ramfs_write block_size block_count A name bytes at len fs disk m) (r, fs', disk', m')
        (ramfs_write-IsOwned block_size block_count A fs (Reached-IsOwned fs before) name bytes at
          len disk m)
        e).1
  Reached-IsOwned fs' (removed {fs = fs} name m m' r e before) =
      (Post-ok (KeptBy block_size block_count A fs (Reached-IsOwned fs before))
        (ramfs_remove block_size block_count A name fs m) (r, fs', m')
        (ramfs_remove-IsOwned block_size block_count A fs (Reached-IsOwned fs before) name m) e).1
