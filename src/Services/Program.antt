-- ===== src/Services/Program.antt =====
-- A program from its binary (kernel/loader/app_loader.c) to the end of its interpreter loop
-- (kernel/vm/vm_core.c), with the system calls of kernel/vm/kernel_intent_dispatcher.c.
use xhopin.Base.{
  ℕ, zero, suc, ◌-◌, ◌==◌, ◌||◌, ◌≡◌, ltb, List, [], ◌∷◌, All, ok, Post, Post-ok, Post-bind,
  Post-bind_any, Post-if,
}
use xhopin.Base.Lists
use xhopin.Word.{read_word}
use xhopin.Vm.{AppHeader}
use xhopin.Vm.Step.{interpreter_loop}
use xhopin.Vm.Invariant.{IsWord, IsByte, read_word-IsWord}
use xhopin.Vm.Invariant.Loop.{Stopped, interpreter_loop-Stopped}
use xhopin.Kernel.{Allocator}
use xhopin.Life.{new_vm}
use xhopin.Life.Fresh.{new_vm-IsValid}
use xhopin.Loader.{
  Checked, refused, accepted, check_header, app_magic, sizeof_app_header, vm_abi_version,
  vm_abi_min_version,
}
use xhopin.Serial.{Driver}
use xhopin.Services.{Sys, Addresses}
use xhopin.Services.Dispatch.{kernel_intent_dispatcher}
use xhopin.Services.Answers.{kernel_intent_dispatcher-Answered}

drop-All : (P : ℕ → Type 0) (n : ℕ) (xs : List ℕ) → All P xs → All P (Lists.drop n xs)
drop-All P zero xs h = h
drop-All P (suc n) [] h = tt
drop-All P (suc n) (x ∷ xs) h = drop-All P n xs h.1

abbrev EntryIsWord : Checked → Type 0
EntryIsWord (refused n) = Unit
EntryIsWord (accepted header) = IsWord header.entry_point

check_header-EntryIsWord :
    (ptr : ℕ) (binary : List ℕ) (bin_size : ℕ)
    → All IsByte binary
    → Post EntryIsWord (check_header ptr binary bin_size)
unfolding check_header
check_header-EntryIsWord ptr binary bin_size h =
    Post-if P (ptr == 0 || ltb bin_size sizeof_app_header) _ _ (λ _. tt)
      λ _. Post-bind_any P (read_word binary 0) _ λ magic.
        Post-if P (magic == app_magic) _ _
          (λ _. Post-bind_any P (read_word binary 20) _ λ version.
            Post-if P (ltb version vm_abi_min_version || ltb vm_abi_version version) _ _ (λ _. tt)
              λ _. Post-bind_any P (read_word binary 24) _ λ code_size.
                Post-bind_any P (read_word binary 28) _ λ ram_size.
                  Post-bind IsWord P (read_word binary 32) _ (read_word-IsWord binary 32 h)
                    λ entry w. Post-bind_any P (read_word binary 36) _ λ capabilities.
                      Post-if P (ltb (bin_size - sizeof_app_header) code_size) _ _ (λ _. tt) λ _. w)
          λ _. tt
  where
    P : Checked → Type 0
    P = EntryIsWord

module _ (A : Allocator) (D : Driver) (addrs : Addresses) (block_size block_count rounds : ℕ) where
  -- When the interpreter loop of a machine that was made for an accepted binary of bytes returns,
  -- whatever its code does and whatever system calls it makes of the kernel, the machine is well formed
  -- and not RUNNING, and its code, the extent of its RAM and its rights are those it was made with.
  pub interpreter_loop-check_header :
      (ptr : ℕ) (binary : List ℕ) (bin_size : ℕ) (header : AppHeader) (ram_ptr n : ℕ) (s : Sys A D)
      → All IsByte binary
      → check_header ptr binary bin_size ≡ ok (accepted header)
      → let vm = new_vm header (Lists.drop sizeof_app_header binary) ram_ptr in
        Post
          (Stopped
            (kernel_intent_dispatcher A D addrs block_size block_count rounds)
            (kernel_intent_dispatcher-Answered A D addrs block_size block_count rounds)
            vm)
          (interpreter_loop
            (kernel_intent_dispatcher A D addrs block_size block_count rounds)
            n
            vm
            s)
  interpreter_loop-check_header ptr binary bin_size header ram_ptr n s bytes ok_header =
      let entry =
        Post-ok EntryIsWord (check_header ptr binary bin_size) (accepted header)
          (check_header-EntryIsWord ptr binary bin_size bytes) ok_header in
      let code = Lists.drop sizeof_app_header binary in
      interpreter_loop-Stopped (kernel_intent_dispatcher A D addrs block_size block_count rounds)
        (kernel_intent_dispatcher-Answered A D addrs block_size block_count rounds) n
        (new_vm header code ram_ptr) s
        (new_vm-IsValid header code ram_ptr entry
          (drop-All IsByte sizeof_app_header binary bytes)).0
