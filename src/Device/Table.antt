-- ===== src/Device/Table.antt =====
-- What the table of devices (kernel/device/kdevice.c) finds.
use xhopin.Base.{
  ==_self, ℕ, ◌+◌, ◌%◌, ◌≡◌, ◌≢◌, ◌∙◌, ◌<◌, ◌≤◌, refl, true, false, ◌==◌, if◌then◌else◌, Bool-cases,
  inl, inr, List, [], ◌∷◌, ◌++◌, length, none, some, Run, ok, wild, success, arith, All, ◌⊎◌,
}
use xhopin.Kernel.{EventEntry, Kernel, Allocator}
use xhopin.Store.{put, Store, load, drop, load-some, load-drop_self}
use xhopin.Event.{link, event_trigger, event_device_added, event_device_removed, sizeof_event_entry}
use xhopin.Device.{
  Device, Devices, find_by_class, count_by_class, device_get_by_class, device_count_by_class,
  device_register, device_unregister, remove_device, max_devices,
}

-- Every pointer of the table leads to a device.
abbrev pub AreLive : List ℕ → Store Device → Type 0
AreLive ds objects = All (λ p. (p ≢ 0) × ((dev : Device) × (objects p ≡ some dev))) ds

-- The search with `found` devices behind it, against the count from `found` on.
abbrev Agrees : ℕ → ℕ → ℕ → Store Device → Run ℕ → Run ℕ → Type 0
Agrees class index found objects search count =
    (m : ℕ) × (count ≡ ok m)
    × (found ≤ m)
    × (((index < m)
          × ((p : ℕ) × (dev : Device) × (search ≡ ok p)
              × (objects p ≡ some dev)
              × (dev.class_dev ≡ class)))
        ⊎ ((m ≤ index) × (search ≡ ok 0)))

find_by_class-Agrees :
    (class index found : ℕ) (ds : List ℕ) (objects : Store Device)
    → AreLive ds objects
    → found + length ds < 256
    → found ≤ index
    → Agrees class index found objects
        (find_by_class class index found ds objects)
        (count_by_class class found ds objects)
unfolding find_by_class count_by_class
find_by_class-Agrees class index found [] objects live bound le =
    (found, refl, ground arith, inr (le, refl))
find_by_class-Agrees class index found (d ∷ ds) objects ((ne, (dev, e)), live) bound le =
    let wrap : (found + 1) % 256 ≡ found + 1 = ground arith in
    elim (Bool-cases (dev.class_dev == class)) [
      | inl same ↦ elim (Bool-cases (found == index)) [
        | inl hit ↦
            let (m, counted, more, _) =
              find_by_class-Agrees class (found + 1) (found + 1) ds objects live (ground arith)
                (ground arith) in
            rw (load-some objects d dev ne e, same, wrap, hit)
              (m, counted, ground arith, inl (ground arith, (d, dev, refl, e, ground arith)))
        | inr miss ↦
            let (m, counted, more, result) =
              find_by_class-Agrees class index (found + 1) ds objects live (ground arith)
                (ground arith) in
            rw (load-some objects d dev ne e, same, wrap, miss) (m, counted, ground arith, result)
      ]
      | inr other ↦
          rw (load-some objects d dev ne e, other)
            (find_by_class-Agrees class index found ds objects live (ground arith) le)
    ]

-- In a table of live devices, at most 32, device_get_by_class finds a device of the class at each
-- index below device_count_by_class and NULL at any other.
pub device_get_by_class-device_count_by_class :
    (class index : ℕ) (d : Devices)
    → AreLive d.devices d.objects
    → length d.devices ≤ max_devices
    → (count : ℕ) × (device_count_by_class class d ≡ ok count)
      × (((index < count)
            × ((p : ℕ) × (dev : Device) × (device_get_by_class class index d ≡ ok p)
                × (d.objects p ≡ some dev)
                × (dev.class_dev ≡ class)))
          ⊎ ((count ≤ index) × (device_get_by_class class index d ≡ ok 0)))
unfolding device_get_by_class device_count_by_class
device_get_by_class-device_count_by_class class index d live bound =
    let (m, counted, _, result) =
      find_by_class-Agrees class index 0 d.devices d.objects live (omega arith) (omega arith) in
    (m, counted, result)

remove_device-append :
    (dev : ℕ) (ds : List ℕ)
    → remove_device dev ds ≡ none
    → remove_device dev (ds ++ (dev ∷ [])) ≡ some ds
unfolding remove_device
remove_device-append dev [] e = ground arith
remove_device-append dev (d ∷ ds) e = ground (arith, remove_device-append dev ds)

module _ (A : Allocator) where
  open A use {Mem, alloc, free}

  device_register-new :
      (dev : ℕ) (d : Devices) (k : Kernel Mem)
      → dev ≢ 0
      → length d.devices < max_devices
      → device_register A dev d k ≡ (
        success,
        record d { devices = d.devices ++ (dev ∷ []) },
        event_trigger A event_device_added dev k,
      )
  unfolding device_register
  device_register-new dev d k ne room = ground arith

  device_unregister-found :
      (dev : ℕ) (ds : List ℕ) (object : Device) (d : Devices) (k : Kernel Mem)
      → dev ≢ 0
      → d.objects dev ≡ some object
      → remove_device dev d.devices ≡ some ds
      → device_unregister A dev d k
        ≡ ok (
          success,
          object.has_deinit,
          record d {
            devices = ds;
            objects = if object.allocated then drop d.objects dev else d.objects;
          },
          let k' = event_trigger A event_device_removed dev k in
              if object.allocated then record k' { mem = free dev k'.mem } else k',
        )
  unfolding device_unregister
  device_unregister-found dev ds object d k ne live found =
      let nz : (dev == 0) ≡ false = ground arith in
      rw (nz, found, load-some d.objects dev object ne live)

  -- A live device that is not in the table and is registered with room left can be unregistered
  -- again, and the table is as before.
  device_unregister-device_register :
      (dev : ℕ) (object : Device) (d : Devices) (k : Kernel Mem)
      → dev ≢ 0
      → d.objects dev ≡ some object
      → length d.devices < max_devices
      → remove_device dev d.devices ≡ none
      → let (r, d', k') = device_register A dev d k in
        (r ≡ success)
        × ((d'' : Devices) × (k'' : Kernel Mem) × (device_unregister A dev d' k'
              ≡ ok (success, object.has_deinit, d'', k''))
            × (d''.devices ≡ d.devices))
  device_unregister-device_register dev object d k ne live room new =
      rw (device_register-new dev d k ne room) (
        refl,
        (
          _,
          _,
          device_unregister-found dev d.devices object _ _ ne live
              (remove_device-append dev d.devices new),
          refl,
        ),
      )

  -- The new entry, however it is linked.
  triggered :
      (s : Store EventEntry) (p tail type payload : ℕ)
      → let made = put s p (record { type = type; payload = payload; next = 0 }) in
        (e : EventEntry) × ((if tail == 0 then made else link tail p made) p ≡ some e)
        × (e.type ≡ type)
        × (e.payload ≡ payload)
  unfolding link put
  triggered s p tail type payload = elim (Bool-cases (tail == 0)) [
    | inl first ↦ rw (first, ==_self p) (_, refl, refl, refl)
    | inr more ↦ elim (Bool-cases (p == tail)) [
      | inl same ↦ rw (more, same, ==_self p) (_, refl, refl, refl)
      | inr other ↦ rw (more, other, ==_self p) (_, refl, refl, refl)
    ]
  ]

  -- Unregistering an allocated live device of the table frees it and leaves behind an event whose
  -- payload is the freed device, if there was room for the event.
  device_unregister-stale :
      (dev : ℕ) (ds : List ℕ) (object : Device) (d : Devices) (k : Kernel Mem)
      → dev ≢ 0
      → d.objects dev ≡ some object
      → remove_device dev d.devices ≡ some ds
      → object.allocated ≡ true
      → (alloc sizeof_event_entry k.mem).0 ≢ 0
      → (d' : Devices) × (k' : Kernel Mem) × (p : ℕ) × (device_unregister A dev d k
          ≡ ok (success, object.has_deinit, d', k'))
        × (k'.queue_tail ≡ p)
        × ((e : EventEntry) × (k'.entries p ≡ some e)
            × (e.type ≡ event_device_removed)
            × (e.payload ≡ dev))
        × (load d'.objects dev ≡ wild)
  unfolding event_trigger
  device_unregister-stale dev ds object d k ne live found owned room =
      let p = (alloc sizeof_event_entry k.mem).0 in
      let made : (p == 0) ≡ false = ground arith in
      let k1 = event_trigger A event_device_removed dev k in
      (
        record d { devices = ds; objects = drop d.objects dev },
        record k1 { mem = free dev k1.mem },
        p,
        device_unregister-found dev ds object d k ne live found ∙ rw owned,
        rw made,
        rw made (triggered k.entries p k.queue_tail event_device_removed dev),
        load-drop_self d.objects dev,
      )
