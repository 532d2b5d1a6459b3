-- ===== src/Life.antt =====
-- The life of a machine: `vm_create`, `vm_ref_inc`, `vm_ref_dec` and `vm_destroy` of
-- kernel/vm/vm_core.c.
pub mod Refs
pub mod Fresh
use xhopin.Base.{
  ℕ, zero, suc, ◌+◌, ◌-◌, ◌*◌, ◌/◌, ◌%◌, ◌^◌, Bool, true, false, ◌&&◌, ◌||◌, ltb, ◌==◌,
  if◌then◌else◌, List, [], ◌∷◌, ◌++◌, replicate, set, Run, ok, wild, ◌>>=◌,
}
use xhopin.Word.{w32, add32, sub32}
use xhopin.Vm.{Vm, VmState, ready, running, halted, error, AppHeader}
use xhopin.Vm.Reg
use xhopin.Kernel.{Kernel, Allocator}
use xhopin.Store.{load, put, drop}

-- `sizeof (VMContext)` on the 32-bit processor
abbrev pub sizeof_vm_context : ℕ
sizeof_vm_context = 176

-- `strncpy` of `n` characters
unfoldable pub strncpy : ℕ → List ℕ → List ℕ
strncpy zero src = []
strncpy (suc n) [] = replicate (suc n) 0
strncpy (suc n) (c ∷ src) = if c == 0 then replicate (suc n) 0 else c ∷ strncpy n src

-- `(ram_size + 3) & ~3`
abbrev pub align4 : ℕ → ℕ
align4 n = add32 n 3 / 4 * 4

abbrev pub is_terminal : VmState → Bool
is_terminal VmState.halted = true
is_terminal VmState.error = true
is_terminal _ = false

-- The machine that `vm_create` sets up, with its RAM at `ram_ptr`.
unfoldable pub new_vm : AppHeader → List ℕ → ℕ → Vm
unfolding strncpy
new_vm header code ram_ptr = record {
  pc = header.entry_point;
  gp = set (replicate 32 0) Reg.sp (sub32 (align4 header.ram_size) 4);
  code = code;
  code_size = header.code_size;
  ram = replicate (align4 header.ram_size) 0;
  ram_ptr = ram_ptr;
  ram_size = align4 header.ram_size;
  state = ready;
  capabilities = header.capabilities;
  name = strncpy 15 header.name ++ (0 ∷ []);
  ref_count = 1;
}

module _ (A : Allocator) where
  open A use {Mem, alloc, free}

  -- `code` is what the memory holds from `code_ptr` on. The result is the machine's address, or 0.
  unfoldable pub vm_create : AppHeader → List ℕ → Kernel Mem → ℕ × Kernel Mem
  vm_create header code k =
      let (p, m) = alloc sizeof_vm_context k.mem in
      let size = align4 header.ram_size in
      let (r, m') = alloc size m in
      if p == 0
      then (0, record k { mem = m })
      else if size == 0
      then (p, record k { mem = m; vms = put k.vms p (new_vm header code 0) })
      else if r == 0
      then (0, record k { mem = free p m' })
      else (p, record k { mem = m'; vms = put k.vms p (new_vm header code r) })

  unfoldable pub vm_ref_inc : ℕ → Kernel Mem → Run (Kernel Mem)
  vm_ref_inc p k = if p == 0 then ok k else do
    vm ← load k.vms p
    ok (record k { vms = put k.vms p (record vm { ref_count = vm.ref_count + 1 }) })

  -- The address is given back, and with it the RAM.
  abbrev pub free_vm : ℕ → Vm → Kernel Mem → Kernel Mem
  free_vm p vm k = record k {
    mem = free p (if vm.ram_ptr == 0 then k.mem else free vm.ram_ptr k.mem);
    vms = drop k.vms p;
  }

  unfoldable pub vm_destroy : ℕ → Kernel Mem → Run (Kernel Mem)
  vm_destroy p k = if p == 0 then ok k else do
    vm ← load k.vms p
    if ltb 0 vm.ref_count
        then ok (record k { vms = put k.vms p (record vm { state = halted }) })
        else ok (free_vm p vm k)

  unfoldable pub vm_ref_dec : ℕ → Kernel Mem → Run (Kernel Mem)
  unfolding vm_destroy
  vm_ref_dec p k = if p == 0 then ok k else do
    vm ← load k.vms p
    let vm' = record vm { ref_count = vm.ref_count - 1 }
    let k' = record k { vms = put k.vms p vm' }
    if vm'.ref_count == 0 && is_terminal vm'.state then vm_destroy p k' else ok k'
