-- ===== src/Device.antt =====
-- The table of devices: kernel/device/kdevice.c. `devices` is the list of its first `device_count`
-- pointers, and the structures they lead to are a store. What `deinit` does is the driver's: an
-- unregistration returns whether it is called.
pub mod Table
use xhopin.Base.{
  ℕ, zero, suc, ◌+◌, ◌%◌, Bool, true, false, ◌&&◌, leb, ◌==◌, if◌then◌else◌, List, [], ◌∷◌, ◌++◌,
  length, Option, none, some, Run, ok, wild, ◌>>=◌, Rc, success, failure,
}
use xhopin.Kernel.{Kernel, Allocator}
use xhopin.Store.{Store, load, drop}
use xhopin.Event.{event_trigger, event_device_added, event_device_removed}

-- `device_class_t` is a number. A name is the list of its characters, if it is not NULL.
pub record Device : Type 0 where
  pub name : Option (List ℕ)
  pub class_dev : ℕ
  pub class_ops : ℕ
  pub ctx : ℕ
  pub has_deinit : Bool
  pub allocated : Bool

pub record Devices : Type 0 where
  pub devices : List ℕ
  pub objects : Store Device

abbrev pub max_devices : ℕ
max_devices = 32

-- `strcmp (a, b) == 0`
unfoldable pub same_name : List ℕ → List ℕ → Bool
same_name [] [] = true
same_name [] (y ∷ ys) = false
same_name (x ∷ xs) [] = false
same_name (x ∷ xs) (y ∷ ys) = x == y && same_name xs ys

-- The place of the first pointer is closed by those behind it.
unfoldable pub remove_device : ℕ → List ℕ → Option (List ℕ)
remove_device dev [] = none
remove_device dev (d ∷ ds) =
    let rest = remove_device dev ds in
    if d == dev then some ds else elim rest [ none ↦ none | some es ↦ some (d ∷ es) ]

-- The loops of the three searches; `found` and `count` are `uint8_t`.
unfoldable pub find_by_name : List ℕ → List ℕ → Store Device → Run ℕ
unfolding same_name
find_by_name name [] objects = ok 0
find_by_name name (d ∷ ds) objects = do
  dev ← load objects d
  let rest = find_by_name name ds objects
  elim dev.name [ none ↦ rest | some n ↦ if same_name n name then ok d else rest ]

unfoldable pub find_by_class : ℕ → ℕ → ℕ → List ℕ → Store Device → Run ℕ
find_by_class class index found [] objects = ok 0
find_by_class class index found (d ∷ ds) objects = do
  dev ← load objects d
  let rest = find_by_class class index ((found + 1) % 256) ds objects
  let others = find_by_class class index found ds objects
  if dev.class_dev == class then (if found == index then ok d else rest) else others

unfoldable pub count_by_class : ℕ → ℕ → List ℕ → Store Device → Run ℕ
count_by_class class count [] objects = ok count
count_by_class class count (d ∷ ds) objects = do
  dev ← load objects d
  let more = count_by_class class ((count + 1) % 256) ds objects
  let rest = count_by_class class count ds objects
  if dev.class_dev == class then more else rest

-- `name` is NULL if it is `none`.
unfoldable pub device_get_by_name : Option (List ℕ) → Devices → Run ℕ
unfolding find_by_name
device_get_by_name none d = ok 0
device_get_by_name (some name) d = find_by_name name d.devices d.objects

unfoldable pub device_get_by_class : ℕ → ℕ → Devices → Run ℕ
unfolding find_by_class
device_get_by_class class index d = find_by_class class index 0 d.devices d.objects

unfoldable pub device_count_by_class : ℕ → Devices → Run ℕ
unfolding count_by_class
device_count_by_class class d = count_by_class class 0 d.devices d.objects

module _ (A : Allocator) where
  open A use {Mem, alloc, free}

  unfoldable pub device_register : ℕ → Devices → Kernel Mem → Rc × Devices × Kernel Mem
  unfolding event_trigger
  device_register dev d k =
      if dev == 0
      then (failure, d, k)
      else if leb max_devices (length d.devices)
      then (failure, d, k)
      else (
        success,
        record d { devices = d.devices ++ (dev ∷ []) },
        event_trigger A event_device_added dev k,
      )

  -- The second result says whether the driver's `deinit` was called.
  unfoldable pub device_unregister :
      ℕ → Devices → Kernel Mem → Run (Rc × Bool × Devices × Kernel Mem)
  unfolding remove_device event_trigger
  device_unregister dev d k =
      if dev == 0 then ok (failure, false, d, k) else elim (remove_device dev d.devices) [
        | none ↦ ok (failure, false, d, k)
        | some ds ↦ do
          object ← load d.objects dev
          let k' = event_trigger A event_device_removed dev k
          ok (
            success,
            object.has_deinit,
            record d {
              devices = ds;
              objects = if object.allocated then drop d.objects dev else d.objects;
            },
            if object.allocated then record k' { mem = free dev k'.mem } else k',
          )
      ]
