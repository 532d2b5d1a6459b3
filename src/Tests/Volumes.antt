-- ===== src/Tests/Volumes.antt =====
-- The start of the storage (kernel/vm/kernel_services.c) and a file on the second file system
-- (kernel/fs/ramfs2/ramfs2.c).
use xhopin.Base.{
  ℕ, ◌+◌, ◌≡◌, ◌<◌, length, get_elem?, refl, true, false, List, [], ◌∷◌, ◌++◌, replicate, arith,
  ◌==◌, if◌then◌else◌, none, some, ok, Total, Post, success,
}
use xhopin.Alloc.{mem_alloc}
use xhopin.Device.{Devices}
use xhopin.RamDisk.{Disk}
use xhopin.Chip.{num_units, pic32mz2048efm144}
use xhopin.Chip.Memory.{NoDisk, ram_device, storage_ram_init-NoDisk}
use xhopin.Tests.Heap.{empty_heap}
use xhopin.Tests.Tasks.{empty_kernel}
use xhopin.Ramfs2.{BlockCtx, ramfs_mount, ramfs_create, ramfs_read, ramfs_write}
use xhopin.Ramfs2.Owned.{IsOwned}
use xhopin.RamDisk.Copy.{byte_at}
use xhopin.Ramfs2.ReadBack.{Fits, has_end, ramfs_read-ramfs_write}
use xhopin.Ramfs2.Reached.{mounted, created, written, Reached-IsOwned}
use xhopin.Storage.{storage_ram_init}
use xhopin.Services.Start.{IsStarted, storage_init, storage_init-IsStarted}
use xhopin.Tests.Calls.{growing, line, addresses, system}

abbrev disk : Disk
disk = record { ctx = 400; buffer_ptr = 500; buffer = replicate 32 0 }

abbrev name : List ℕ
name = 97 ∷ 0 ∷ []

abbrev new_volume : BlockCtx
new_volume = record { files = []; block_map = λ b. false; total_blocks = 4 }

abbrev with_file : BlockCtx
with_file = record new_volume {
  files =
      (600, record { name = name; size = 0; blocks_ptr = 0; blocks = []; block_count = 0 }) ∷ [];
}

mounts : (ramfs_mount 8 4 growing 0).1 ≡ some new_volume
unfolding ramfs_mount
mounts = refl

creates : ramfs_create 8 4 growing name new_volume 2 ≡ ok (success, with_file, 3)
unfolding ramfs_create
creates = refl

abbrev with_blocks : BlockCtx
with_blocks = record new_volume {
  files =
      (
        600,
        record { name = name; size = 10; blocks_ptr = 700; blocks = 0 ∷ (1 ∷ []); block_count = 2 },
      )
      ∷ [];
  block_map = λ b. if b == 1 then true else if b == 0 then true else false;
}

writes :
    ramfs_write 8 4 growing name (replicate 16 7) 0 10 with_file disk 3
    ≡ ok (success, with_blocks, record disk { buffer = replicate 16 7 ++ replicate 16 0 }, 4)
unfolding ramfs_write
writes = refl

Reached-IsOwned_example : IsOwned with_blocks
Reached-IsOwned_example = Reached-IsOwned 8 4 growing with_blocks (
    written {fs = with_file} name (replicate 16 7) 0 10 disk
      (record disk { buffer = replicate 16 7 ++ replicate 16 0 }) 3 4 success writes
      (created {fs = new_volume} name 2 3 success creates (mounted 0 mounts)))

fits : Fits 8 4 growing (replicate 16 7) 0 10 with_file disk
unfolding has_end
fits = record {
  some_size = omega arith;
  small = omega arith;
  source = omega arith;
  disk_whole = record { there = omega arith; full = refl };
  in_disk = omega arith;
  names = (refl, tt);
}

ramfs_read-ramfs_write_example :
    (after : List ℕ) × (ramfs_read 8 4 name
        (replicate 16 0)
        0
        10
        with_blocks
        (record disk { buffer = replicate 16 7 ++ replicate 16 0 })
      ≡ ok (success, after))
    × (length after ≡ 16)
    × ((i : ℕ) → i < 10 → get_elem? after (0 + i) ≡ some (byte_at (replicate 16 7) (0 + i)))
ramfs_read-ramfs_write_example =
    ramfs_read-ramfs_write 8 4 growing name (replicate 16 7) 0 10 with_file with_blocks disk
      (record disk { buffer = replicate 16 7 ++ replicate 16 0 }) 3 4 (replicate 16 0) 0 10 fits
      writes (omega arith)

abbrev no_devices : Devices
no_devices = record { devices = []; objects = λ p. none }

storage_init-IsStarted_example :
    let (dev, devs, d, disk', k) =
      storage_ram_init 4 growing 8 4 60 [] no_devices system.disk system.kernel in
    Total (storage_init 4 60 growing line addresses 8 4 [] no_devices system)
    × Post
        (IsStarted 4 60 growing line addresses 8 4 dev k.mem)
        (storage_init 4 60 growing line addresses 8 4 [] no_devices system)
storage_init-IsStarted_example =
    storage_init-IsStarted 4 60 growing line addresses 8 4 no_devices system (ground arith)

has_room : (mem_alloc (num_units pic32mz2048efm144) 24 empty_heap).0 ≡ 4
unfolding mem_alloc
has_room = refl

storage_ram_init-NoDisk_example :
    NoDisk pic32mz2048efm144 (ram_device pic32mz2048efm144 4 60 [] no_devices disk empty_kernel).3
storage_ram_init-NoDisk_example =
    storage_ram_init-NoDisk 4 60 [] no_devices disk empty_kernel (ground (arith, has_room))
