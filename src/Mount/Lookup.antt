-- ===== src/Mount/Lookup.antt =====
-- A mount is found under its name (kernel/fs/mount.c).
use xhopin.Base.{
  ℕ, zero, suc, ◌≡◌, ◌≢◌, ◌≤◌, ◌<◌, refl, ap, true, false, ◌==◌, ◌||◌, leb, List, [], ◌∷◌, ◌++◌,
  take, length, arith, All, success,
}
use xhopin.Device.{same_name}
use xhopin.Mount.{MountEntry, mount_register, mount_get_fs, mount_get_storage, max_mounts}

same_name_refl : (xs : List ℕ) → same_name xs xs ≡ true
unfolding same_name
same_name_refl [] = refl
same_name_refl (x ∷ xs) = ground (arith, same_name_refl xs)

take_all : (n : ℕ) (xs : List ℕ) → length xs ≤ n → take n xs ≡ xs
take_all zero [] h = refl
take_all (suc n) [] h = refl
take_all zero (x ∷ xs) h = absurd (omega arith)
take_all (suc n) (x ∷ xs) h = ap (λ ys. x ∷ ys) (take_all n xs (omega arith))

-- No entry has the name.
abbrev pub IsNew : List ℕ → List MountEntry → Type 0
IsNew name mounts = All (λ e. same_name e.dev_name name ≡ false) mounts

get_last :
    (name : List ℕ) (mounts : List MountEntry) (e : MountEntry)
    → IsNew name mounts
    → same_name e.dev_name name ≡ true
    → (mount_get_fs name (mounts ++ (e ∷ [])) ≡ e.fs)
      × (mount_get_storage name (mounts ++ (e ∷ [])) ≡ e.storage)
unfolding mount_get_fs mount_get_storage
get_last name [] e new same = rw same (refl, refl)
get_last name (x ∷ mounts) e (n, new) same = rw n (get_last name mounts e new same)

-- A file system that is mounted under a new name of at most 15 characters, with room left, is found
-- under that name, and so is its device.
mount_get_fs-mount_register :
    (name : List ℕ) (dev fs : ℕ) (mounts : List MountEntry)
    → length name ≤ 15
    → dev ≢ 0
    → fs ≢ 0
    → length mounts < max_mounts
    → IsNew name mounts
    → let (r, mounts') = mount_register name dev fs mounts in
      (r ≡ success) × (mount_get_fs name mounts' ≡ fs) × (mount_get_storage name mounts' ≡ dev)
unfolding mount_register
mount_get_fs-mount_register name dev fs mounts short d f room new =
    let given : (dev == 0 || fs == 0) ≡ false = ground arith in
    let fits : leb max_mounts (length mounts) ≡ false = ground arith in
    let whole : take 15 name ≡ name = take_all 15 name short in
    let (a, b) =
      get_last name mounts (record { dev_name = name; storage = dev; fs = fs }) new
        (same_name_refl name) in
    rw (given, fits, whole) (refl, a, b)
