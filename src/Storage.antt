-- ===== src/Storage.antt =====
-- The table of storage devices: drivers/storage/storage.c, and the set-up of the RAM disk in
-- drivers/storage/ram/storage_ram.c. The table is the list of its first `storage_count` pointers; the
-- memory behind `dev_base.ctx` of the RAM disk's device is the `Disk`.
use xhopin.Base.{
  ℕ, ◌==◌, ◌||◌, leb, if◌then◌else◌, false, true, List, [], ◌∷◌, ◌++◌, length, get_elem?, Option,
  none, some, Run, ok, ◌>>=◌, Rc, success, failure,
}
use xhopin.Kernel.{Kernel, Allocator}
use xhopin.Store.{load, put}
use xhopin.Device.{Device, Devices, device_register, device_unregister, remove_device}
use xhopin.RamDisk.{Disk, ram_init}

-- `id` is below 256.
unfoldable pub storage_get : ℕ → List ℕ → ℕ
storage_get id devs = elim (get_elem? devs id) [ none ↦ 0 | some dev ↦ dev ]

-- `sizeof (storage_dev_t)`
abbrev pub sizeof_storage_dev : ℕ
sizeof_storage_dev = 24

-- "ramdisk0"
abbrev pub ramdisk_name : List ℕ
ramdisk_name = 114 ∷ 97 ∷ 109 ∷ 100 ∷ 105 ∷ 115 ∷ 107 ∷ 48 ∷ []

abbrev pub device_class_storage : ℕ
device_class_storage = 0

-- `max` is `MAX_STORAGE_DEVICES`, which depends on the processor.
module _ (max : ℕ) (A : Allocator) where
  open A use {Mem, alloc, free}

  -- What the table of devices answers is not looked at.
  unfoldable pub storage_register :
      ℕ → List ℕ → Devices → Kernel Mem → Rc × List ℕ × Devices × Kernel Mem
  unfolding device_register
  storage_register dev devs d k =
      if dev == 0 || leb max (length devs)
      then (failure, devs, d, k)
      else (let (r, d', k') = device_register A dev d k in (success, devs ++ (dev ∷ []), d', k'))

  -- The operation `deinit` of a table of operations, if it has one, acts on the driver's state and the
  -- heap.
  module _ {S : Type 0} (deinit_at : ℕ → Option (S → Mem → Rc × S × Mem)) where
    abbrev deinit : Device → S → Kernel Mem → S × Kernel Mem
    deinit object s k =
        if object.class_ops == 0 then (s, k) else elim (deinit_at object.class_ops) [
          | none ↦ (s, k)
          | some f ↦ (let (r, s', m) = f s k.mem in (s', record k { mem = m }))
        ]

    unfoldable pub storage_unregister :
        ℕ → List ℕ → Devices → S → Kernel Mem → Run (Rc × List ℕ × Devices × S × Kernel Mem)
    unfolding remove_device device_unregister
    storage_unregister dev devs d s k =
        if dev == 0 then ok (failure, devs, d, s, k) else elim (remove_device dev devs) [
          | none ↦ ok (failure, devs, d, s, k)
          | some others ↦ do
            object ← load d.objects dev
            let (s', k') = deinit object s k
            (r, called, d', k'') ← device_unregister A dev d k'
            ok (success, others, d', s', k'')
        ]

  module _ (block_size block_count : ℕ) where
    -- `ram_ops` is the address of the table. The device's address is the first result.
    unfoldable pub storage_ram_init :
        ℕ → List ℕ → Devices → Disk → Kernel Mem → ℕ × List ℕ × Devices × Disk × Kernel Mem
    unfolding storage_register ram_init
    storage_ram_init ram_ops devs d disk k =
        let (p, m) = alloc sizeof_storage_dev k.mem in
        if p == 0
        then (p, devs, d, disk, record k { mem = m })
        else let made = record d {
          objects = put d.objects p (record {
            name = some ramdisk_name;
            class_dev = device_class_storage;
            class_ops = ram_ops;
            ctx = 0;
            has_deinit = false;
            allocated = true;
          });
        } in
          let (r, devs', d', k') = storage_register p devs made (record k { mem = m }) in
          let fresh : Disk = record { ctx = 0; buffer_ptr = 0; buffer = [] } in
          let (r', disk', m') = ram_init block_size block_count A fresh k'.mem in
          (p, devs', d', disk', record k' { mem = m' })
