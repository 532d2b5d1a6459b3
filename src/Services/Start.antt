-- ===== src/Services/Start.antt =====
-- `storage_init` of kernel/vm/kernel_services.c: the RAM disk, the second file system on it, and its
-- mount.
use xhopin.Base.{
  ℕ, ◌==◌, ◌≡◌, ◌≢◌, refl, sym, subst, ◌⊎◌, inl, inr, Bool-cases, if◌then◌else◌, true, false, List,
  [], ◌∷◌, some, Run, ok, ◌>>=◌, Total, Total-bind, Post, Post-bind, success, failure, leb, arith,
}
use xhopin.Kernel.{Allocator}
use xhopin.Device.{Devices, same_name}
use xhopin.Storage.{storage_get, storage_register, storage_ram_init}
use xhopin.FileSystem.{fs_mount}
use xhopin.Ramfs2.{BlockCtx, ramfs_mount}
use xhopin.Ramfs2.Table.{mount_volume}
use xhopin.Mount.{mount_init, mount_register, mount_get_fs, mount_get_storage}
use xhopin.Serial.{Driver}
use xhopin.Services.{Sys, Addresses, volume, set_volume, fs_at}

-- "ram0"
abbrev pub mount_name : List ℕ
mount_name = 114 ∷ 97 ∷ 109 ∷ 48 ∷ []

module _ (max ram_ops : ℕ) (A : Allocator) (D : Driver) (addrs : Addresses)
    (block_size block_count : ℕ) where
  open A use {Mem, alloc}

  -- The mount of the device at address `dev`. The only driver of storage is the RAM disk's.
  unfoldable pub mount_ram : ℕ → Sys A D → Run (Sys A D)
  unfolding fs_mount mount_register
  mount_ram dev s = do
    (r, v) ←
        fs_mount (fs_at A D addrs block_size block_count addrs.ramfs2)
          (volume A D addrs block_size block_count s)
    let s' = set_volume A D addrs block_size block_count v s
    elim r [
      | failure ↦ ok s'
      | success ↦
          ok (record s' { mounts = (mount_register mount_name dev addrs.ramfs2 s'.mounts).1 })
    ]

  -- From `storage_get` on.
  unfoldable pub mount_first : List ℕ → Devices → Sys A D → Run (List ℕ × Devices × Sys A D)
  unfolding storage_get mount_ram
  mount_first devs d s =
      let dev = storage_get 0 devs in
      if dev == 0 then ok (devs, d, s) else do s' ← mount_ram dev s; ok (devs, d, s')

  unfoldable pub storage_init : List ℕ → Devices → Sys A D → Run (List ℕ × Devices × Sys A D)
  unfolding mount_init storage_ram_init mount_first
  storage_init devs d s =
      let (p, devs', d', disk, k) =
        storage_ram_init max A block_size block_count ram_ops devs d s.disk s.kernel in
      mount_first devs' d' (record s { mounts = mount_init s.mounts; disk = disk; kernel = k })

  -- The context of a new volume.
  abbrev pub empty_ctx : BlockCtx
  empty_ctx = record { files = []; block_map = λ b. false; total_blocks = block_count }

  -- Whether `ramfs_mount` has memory for its context and its map.
  abbrev NoMemory : Mem → Type 0
  NoMemory m = ((alloc 12 m).0 ≡ 0) ⊎ ((alloc block_count (alloc 12 m).1).0 ≡ 0)

  abbrev HasMemory : Mem → Type 0
  HasMemory m = ((alloc 12 m).0 ≢ 0) × ((alloc block_count (alloc 12 m).1).0 ≢ 0)

  ramfs_mount-cases :
      (m : Mem)
      → (NoMemory m × ((ramfs_mount block_size block_count A m).0 ≡ failure))
        ⊎ (HasMemory m
            × ((ramfs_mount block_size block_count A m).0 ≡ success)
            × ((ramfs_mount block_size block_count A m).1 ≡ some empty_ctx))
  unfolding ramfs_mount
  ramfs_mount-cases m = elim (Bool-cases ((alloc 12 m).0 == 0)) [
    | inl z ↦ inl (inl (ground arith), rw z refl)
    | inr nz ↦ elim (Bool-cases ((alloc block_count (alloc 12 m).1).0 == 0)) [
      | inl z ↦ inl (inr (ground arith), rw (nz, z) refl)
      | inr nz' ↦ inr ((ground arith, ground arith), rw (nz, nz') refl, rw (nz, nz') refl)
    ]
  ]

  -- For the RAM disk's device at `dev`, and the heap `m` after its set-up: something is missing and
  -- nothing is mounted, or nothing is missing and the volume on the one device is mounted.
  abbrev pub IsStarted : ℕ → Mem → List ℕ × Devices × Sys A D → Type 0
  IsStarted dev m (devs, d, s) =
      (((dev ≡ 0) ⊎ ((max ≡ 0) ⊎ NoMemory m)) × (s.mounts ≡ []))
      ⊎ (((dev ≢ 0) × (max ≢ 0) × HasMemory m)
          × (devs ≡ dev ∷ [])
          × (mount_get_fs mount_name s.mounts ≡ addrs.ramfs2)
          × (mount_get_storage mount_name s.mounts ≡ dev)
          × (s.ctx ≡ some empty_ctx))

  mount_ram-IsStarted :
      (dev : ℕ) (d : Devices) (s : Sys A D)
      → dev ≢ 0
      → max ≢ 0
      → addrs.ramfs2 ≢ 0
      → s.mounts ≡ []
      → Total (mount_ram dev s)
        × Post (λ s'. IsStarted dev s.kernel.mem (dev ∷ [], d, s')) (mount_ram dev s)
  unfolding mount_ram fs_mount mount_volume mount_register mount_get_fs mount_get_storage same_name
  mount_ram-IsStarted dev d s ne places ne' none_yet =
      let here : (addrs.ramfs2 == addrs.ramfs2) ≡ true = ground arith in
      elim (ramfs_mount-cases s.kernel.mem) [
        | inl (why, e) ↦ rw (here, e) (tt, inl (inr (inr why), none_yet))
        | inr (room, e, c) ↦
            let given : (dev == 0) ≡ false = ground arith in
            let given' : (addrs.ramfs2 == 0) ≡ false = ground arith in
            rw (here, e, c, none_yet, given, given')
              (tt, inr ((ne, places, room), refl, refl, refl, refl))
      ]

  -- The table of storage devices that the set-up leaves.
  abbrev Registered : ℕ → List ℕ → Type 0
  Registered p devs =
      (((p ≡ 0) ⊎ (max ≡ 0)) × (devs ≡ [])) ⊎ ((p ≢ 0) × (max ≢ 0) × (devs ≡ p ∷ []))

  mount_first-IsStarted :
      (p : ℕ) (devs : List ℕ) (d : Devices) (s : Sys A D)
      → Registered p devs
      → addrs.ramfs2 ≢ 0
      → s.mounts ≡ []
      → Total (mount_first devs d s) × Post (IsStarted p s.kernel.mem) (mount_first devs d s)
  unfolding mount_first storage_get
  mount_first-IsStarted p devs d s (inl (inl z, e)) ne none_yet = rw e (tt, inl (inl z, none_yet))
  mount_first-IsStarted p devs d s (inl (inr z, e)) ne none_yet =
      rw e (tt, inl (inr (inl z), none_yet))
  mount_first-IsStarted p devs d s (inr (nz, places, e)) ne none_yet =
      let given : (p == 0) ≡ false = ground arith in
      let (total, started) = mount_ram-IsStarted p d s nz places ne none_yet in
      subst
        (λ ds. Total (mount_first ds d s) × Post (IsStarted p s.kernel.mem) (mount_first ds d s))
        (sym e)
        (rw given (
          Total-bind (mount_ram p s) _ total (λ a _. tt),
          Post-bind (λ s'. IsStarted p s.kernel.mem (p ∷ [], d, s')) (IsStarted p s.kernel.mem)
              (mount_ram p s) _ started λ a k. k,
        ))

  storage_ram_init-Registered :
      (d : Devices) (s : Sys A D)
      → let (p, devs, d1, disk, k) =
          storage_ram_init max A block_size block_count ram_ops [] d s.disk s.kernel in
        Registered p devs
  unfolding storage_ram_init storage_register
  storage_ram_init-Registered d s = elim (Bool-cases ((A.alloc 24 s.kernel.mem).0 == 0)) [
    | inl z ↦ rw z (inl (inl (ground arith), refl))
    | inr nz ↦ elim (Bool-cases (leb max 0)) [
      | inl full ↦ rw (nz, full) (inl (inr (ground arith), refl))
      | inr room ↦ rw (nz, room) (inr (ground arith, ground arith, refl))
    ]
  ]

  -- storage_init on an empty table of storage devices, with the file system at an address that is not
  -- NULL, ends. If the RAM disk's device could be made, the table of devices has a place, and after the
  -- set-up of the disk there is memory for the context and the map of a volume, then the device is the
  -- one in the table and "ram0" is mounted: mount_get_fs finds the second file system and
  -- mount_get_storage the device, and the volume has no file and no block in use. If any of these is
  -- missing, nothing is mounted.
  pub storage_init-IsStarted :
      (d : Devices) (s : Sys A D)
      → addrs.ramfs2 ≢ 0
      → let (dev, devs, d', disk, k) =
          storage_ram_init max A block_size block_count ram_ops [] d s.disk s.kernel in
        Total (storage_init [] d s) × Post (IsStarted dev k.mem) (storage_init [] d s)
  unfolding storage_init mount_init
  storage_init-IsStarted d s ne =
      let out = storage_ram_init max A block_size block_count ram_ops [] d s.disk s.kernel in
      mount_first-IsStarted out.0 out.1 out.2
        (record s { mounts = []; disk = out.3; kernel = out.4 }) (storage_ram_init-Registered d s)
        ne refl
