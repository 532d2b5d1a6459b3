-- ===== src/Loader/Check.antt =====
-- What the checks of `kernel_load_app` (kernel/loader/app_loader.c) let through.
use xhopin.Base.{
  ℕ, ◌+◌, ◌-◌, ◌≡◌, ◌≢◌, ◌≤◌, ◌<◌, refl, ap, ◌∙◌, inl, inr, ltb, ◌==◌, ◌||◌, ◌⊎◌, List, arith, ok,
  Post, Post-bind_eq, Post-if, Post-ok, Total, Total-bind, Total-if, Total-ok, length,
}
use xhopin.Word.{read_word}
use xhopin.Vm.Safety.{read_word-Total}
use xhopin.Loader.{
  Checked, refused, accepted, check_header, app_magic, sizeof_app_header, vm_abi_version,
}

-- The field of the header at the offset has the value.
abbrev pub HasField : List ℕ → ℕ → ℕ → Type 0
HasField binary at value = read_word binary at ≡ ok value

-- The promise, for a binary that is not NULL and has at least a header. An error has its cause: the
-- magic number (2), the version behind a right magic number (4), or a code size that leads past the end,
-- behind a right magic number and version (5). A header that passes has the fields of the binary, with
-- the right magic number and version, and its code lies inside the binary.
abbrev pub IsRead : ℕ → List ℕ → Checked → Type 0
IsRead bin_size binary (refused n) =
    ((magic : ℕ) × HasField binary 0 magic × (magic ≢ app_magic) × (n ≡ 2))
    ⊎ ((version : ℕ) × HasField binary 0 app_magic
        × HasField binary 20 version
        × (version ≢ vm_abi_version)
        × (n ≡ 4))
    ⊎ ((code_size : ℕ) × HasField binary 0 app_magic
        × HasField binary 20 vm_abi_version
        × HasField binary 24 code_size
        × (bin_size < code_size + sizeof_app_header)
        × (n ≡ 5))
IsRead bin_size binary (accepted h) =
    (h.magic ≡ app_magic)
    × (h.version ≡ vm_abi_version)
    × HasField binary 0 h.magic
    × HasField binary 20 h.version
    × HasField binary 24 h.code_size
    × HasField binary 28 h.ram_size
    × HasField binary 32 h.entry_point
    × HasField binary 36 h.capabilities
    × (h.code_size + sizeof_app_header ≤ bin_size)

-- NULL and a short binary are refused with error 1, and others are read.
abbrev pub IsChecked : ℕ → ℕ → List ℕ → Checked → Type 0
IsChecked ptr bin_size binary c =
    (((ptr ≡ 0) ⊎ (bin_size < sizeof_app_header)) × (c ≡ refused 1))
    ⊎ ((ptr ≢ 0) × (sizeof_app_header ≤ bin_size) × IsRead bin_size binary c)

module _ (ptr bin_size : ℕ) (binary : List ℕ) (there : ptr ≢ 0)
    (whole : sizeof_app_header ≤ bin_size) (magic version : ℕ) (magic_is : HasField binary 0 magic)
    (right : magic ≡ app_magic) (version_is : HasField binary 20 version) where
  refused_version : version ≢ vm_abi_version → IsChecked ptr bin_size binary (refused 4)
  refused_version other =
      inr (there, whole, inr (inl (version, magic_is ∙ ap ok right, version_is, other, refl)))

  refused_size :
      (code_size : ℕ)
      → version ≡ vm_abi_version
      → HasField binary 24 code_size
      → bin_size < code_size + sizeof_app_header
      → IsChecked ptr bin_size binary (refused 5)
  refused_size code_size supported code_is long =
      let magic_right = magic_is ∙ ap ok right in
      let version_right = version_is ∙ ap ok supported in
      inr (there, whole, inr (inr (code_size, magic_right, version_right, code_is, long, refl)))

check_header-Post :
    (ptr bin_size : ℕ) (binary : List ℕ)
    → Post (IsChecked ptr bin_size binary) (check_header ptr binary bin_size)
unfolding check_header
check_header-Post ptr bin_size binary =
    let P = IsChecked ptr bin_size binary in
    Post-if P (ptr == 0 || ltb bin_size sizeof_app_header) _ _ (λ e. inl (ground arith, refl))
      λ e.
        let there : ptr ≢ 0 = ground arith in
        let whole : sizeof_app_header ≤ bin_size = ground arith in
        Post-bind_eq P (read_word binary 0) _ λ magic magic_is.
          Post-if P (magic == app_magic) _ _
            (λ e1.
              let right : magic ≡ app_magic = ground arith in
              Post-bind_eq P (read_word binary 20) _ λ version version_is.
                Post-if P (ltb version 1 || ltb 1 version) _ _
                  (λ e2.
                    refused_version ptr bin_size binary there whole magic version magic_is right
                      version_is (ground arith))
                  λ e2.
                    let supported : version ≡ vm_abi_version = ground arith in
                    Post-bind_eq P (read_word binary 24) _ λ code_size code_is.
                      Post-bind_eq P (read_word binary 28) _ λ ram_size ram_is.
                        Post-bind_eq P (read_word binary 32) _ λ entry_point entry_is.
                          Post-bind_eq P (read_word binary 36) _ λ capabilities caps_are.
                            Post-if P (ltb (bin_size - sizeof_app_header) code_size) _ _
                              (λ e3.
                                refused_size ptr bin_size binary there whole magic version magic_is
                                  right version_is code_size supported code_is (ground arith))
                              (λ e3. inr (
                                there,
                                whole,
                                (
                                  right,
                                  supported,
                                  magic_is,
                                  version_is,
                                  code_is,
                                  ram_is,
                                  entry_is,
                                  caps_are,
                                  ground arith,
                                ),
                              )))
            (λ e1. inr (there, whole, inl (magic, magic_is, ground arith, refl)))

check_header-Total :
    (ptr bin_size : ℕ) (binary : List ℕ)
    → bin_size ≤ length binary
    → Total (check_header ptr binary bin_size)
unfolding check_header
check_header-Total ptr bin_size binary whole =
    Total-if (ptr == 0 || ltb bin_size sizeof_app_header) _ _ (λ e. tt)
      λ e.
        let size : sizeof_app_header ≤ length binary = ground arith in
        Total-bind (read_word binary 0) _ (read_word-Total binary 0 refl (omega arith)) λ magic _.
          Total-if (magic == app_magic) _ _
            (λ e1.
              Total-bind (read_word binary 20) _ (read_word-Total binary 20 refl (omega arith))
                λ version _.
                  Total-if (ltb version 1 || ltb 1 version) _ _ (λ e2. tt)
                    λ e2.
                      Total-bind (read_word binary 24) _
                        (read_word-Total binary 24 refl (omega arith))
                        λ code_size _.
                          Total-bind (read_word binary 28) _
                            (read_word-Total binary 28 refl (omega arith))
                            λ ram_size _.
                              Total-bind (read_word binary 32) _
                                (read_word-Total binary 32 refl (omega arith))
                                λ entry_point _.
                                  Total-bind (read_word binary 36) _
                                    (read_word-Total binary 36 refl (omega arith))
                                    λ capabilities _.
                                      Total-if (ltb (bin_size - sizeof_app_header) code_size) _ _
                                        (λ e3. tt) (λ e3. tt))
            (λ e1. tt)

-- If the binary has at least bin_size bytes, the checks of the loader end without an access outside
-- it. NULL and a binary shorter than a header get error 1. Otherwise the error is 2 for a magic number
-- that is not the right one, 4 for a version that is not supported behind the right magic number, and 5
-- for a code size that leads past the end behind both; or the header is accepted: its fields are the
-- words of the binary, it has the right magic number and version, and its code lies inside the binary.
pub check_header-IsChecked :
    (ptr bin_size : ℕ) (binary : List ℕ)
    → bin_size ≤ length binary
    → (c : Checked) × (check_header ptr binary bin_size ≡ ok c) × IsChecked ptr bin_size binary c
check_header-IsChecked ptr bin_size binary whole =
    let (c, e) =
      Total-ok (check_header ptr binary bin_size) (check_header-Total ptr bin_size binary whole) in
    (
      c,
      e,
      Post-ok (IsChecked ptr bin_size binary) (check_header ptr binary bin_size) c
          (check_header-Post ptr bin_size binary) e,
    )
