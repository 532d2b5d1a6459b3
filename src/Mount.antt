-- ===== src/Mount.antt =====
-- The table of mounts: kernel/fs/mount.c. `mounts` is the list of its first `mount_count` entries. A
-- string is the list of the characters before its end.
pub mod Lookup
use xhopin.Base.{
  ℕ, Bool, true, false, ◌==◌, ◌||◌, leb, if◌then◌else◌, List, [], ◌∷◌, ◌++◌, take, length, Rc,
  success, failure,
}
use xhopin.Device.{same_name}

abbrev pub max_mounts : ℕ
max_mounts = 4

abbrev pub mount_name_len : ℕ
mount_name_len = 16

-- `mount_entry_t`. `strncpy` writes 15 bytes, and the last one is 0 from the start.
pub record MountEntry : Type 0 where
  pub dev_name : List ℕ
  pub storage : ℕ
  pub fs : ℕ

unfoldable pub mount_init : List MountEntry → List MountEntry
mount_init mounts = []

-- `dev_name` is not NULL.
unfoldable pub mount_register : List ℕ → ℕ → ℕ → List MountEntry → Rc × List MountEntry
mount_register dev_name dev fs mounts =
    if dev == 0 || fs == 0
    then (failure, mounts)
    else if leb max_mounts (length mounts)
    then (failure, mounts)
    else (success, mounts ++ (record { dev_name = take 15 dev_name; storage = dev; fs = fs } ∷ []))

unfoldable pub mount_get_fs : List ℕ → List MountEntry → ℕ
unfolding same_name
mount_get_fs dev_name [] = 0
mount_get_fs dev_name (e ∷ mounts) =
    let rest = mount_get_fs dev_name mounts in if same_name e.dev_name dev_name then e.fs else rest

unfoldable pub mount_get_storage : List ℕ → List MountEntry → ℕ
unfolding same_name
mount_get_storage dev_name [] = 0
mount_get_storage dev_name (e ∷ mounts) =
    let rest = mount_get_storage dev_name mounts in
    if same_name e.dev_name dev_name then e.storage else rest
