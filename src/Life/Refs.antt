-- ===== src/Life/Refs.antt =====
-- Which machines live on: the reference counts of kernel/vm/vm_core.c.
use xhopin.Base.{
  ℕ, ◌-◌, ◌≡◌, ◌≢◌, ◌<◌, refl, true, false, none, some, ltb, leb, ◌&&◌, Bool-cases, inl, inr, ◌∙◌,
  ◌==◌, if◌then◌else◌, arith, ok,
}
use xhopin.Vm.{Vm, halted, running}
use xhopin.Kernel.{Kernel, Allocator}
use xhopin.Store.{put, load-some, load-put_self, put_self, drop_self}
use xhopin.Life.{vm_destroy, vm_ref_dec, is_terminal, free_vm}

module _ (A : Allocator) where
  open A use {Mem, alloc, free}

  abbrev dec : Vm → Vm
  dec vm = record vm { ref_count = vm.ref_count - 1 }

  -- vm_ref_dec on a live machine: it is freed exactly if this was the last reference and the
  -- machine has stopped by HALT or an error; else it stays with its count one lower.
  pub vm_ref_dec_lem :
      (p : ℕ) (vm : Vm) (k : Kernel Mem)
      → p ≢ 0
      → k.vms p ≡ some vm
      → (g : Kernel Mem) × (vm_ref_dec A p k ≡ ok g)
        × (g.vms p ≡ (
            if leb vm.ref_count 1 && is_terminal vm.state
            then none
            else some (record vm { ref_count = vm.ref_count - 1 })))
  unfolding vm_ref_dec
  vm_ref_dec_lem p vm k ne e =
      let nz : (p == 0) ≡ false = ground arith in
      let k' : Kernel Mem = record k { vms = put k.vms p (dec vm) } in
      elim (Bool-cases (vm.ref_count - 1 == 0 && is_terminal vm.state)) [
        | inl t ↦
            let low : ltb 0 (vm.ref_count - 1) ≡ false = ground arith in
            let c : (leb vm.ref_count 1 && is_terminal vm.state) ≡ true = ground arith in
            (
              free_vm A p (dec vm) k',
              rw (nz, load-some k.vms p vm ne e, t, load-put_self k.vms p (dec vm) ne, low),
              rw (drop_self (put k.vms p (dec vm)) p) (rw c),
            )
        | inr t ↦
            let c : (leb vm.ref_count 1 && is_terminal vm.state) ≡ false = ground arith in
            (k', rw (nz, load-some k.vms p vm ne e, t), rw (put_self k.vms p (dec vm)) (rw c))
      ]

  -- A live RUNNING machine is not freed by the release of its only reference: it stays allocated
  -- with no reference, and the heap is as before.
  vm_ref_dec-running :
      (p : ℕ) (vm : Vm) (k : Kernel Mem)
      → p ≢ 0
      → k.vms p ≡ some vm
      → vm.state ≡ running
      → vm.ref_count ≡ 1
      → (g : Kernel Mem) × (vm_ref_dec A p k ≡ ok g)
        × (g.mem ≡ k.mem)
        × (g.vms p ≡ some (record vm { ref_count = 0 }))
  unfolding vm_ref_dec
  vm_ref_dec-running p vm k ne e r c =
      let nz : (p == 0) ≡ false = ground arith in
      let t : (vm.ref_count - 1 == 0 && is_terminal vm.state) ≡ false = ground arith in
      (
        record k { vms = put k.vms p (dec vm) },
        rw (nz, load-some k.vms p vm ne e, t),
        refl,
        put_self k.vms p (dec vm) ∙ ground arith,
      )

  -- `vm_destroy` of a machine with references left frees nothing: it only marks it HALTED.
  pub vm_destroy-referenced :
      (p : ℕ) (vm : Vm) (k : Kernel Mem)
      → p ≢ 0
      → k.vms p ≡ some vm
      → 0 < vm.ref_count
      → vm_destroy A p k ≡ ok (record k { vms = put k.vms p (record vm { state = halted }) })
  unfolding vm_destroy
  vm_destroy-referenced p vm k ne e c =
      let nz : (p == 0) ≡ false = ground arith in
      let more : ltb 0 vm.ref_count ≡ true = ground arith in
      rw (nz, load-some k.vms p vm ne e, more)
