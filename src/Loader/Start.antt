-- ===== src/Loader/Start.antt =====
-- What `kernel_load_app` of kernel/loader/app_loader.c makes of an accepted header.
use xhopin.Base.{
  ℕ, ◌≡◌, ◌≢◌, refl, ap, subst, ◌∙◌, false, some, ◌==◌, ◌⊎◌, inl, inr, List, arith, ok, Post,
  Post-bind, Post-if, Post-ok, Post_any,
}
use xhopin.Vm.{Vm, ready, halted, AppHeader}
use xhopin.Kernel.{Kernel, Task, Allocator}
use xhopin.Store.{Store, load, put, put_self}
use xhopin.Base.Tests.{if_lem}
use xhopin.Life.{align4, vm_create, vm_destroy, new_vm}
use xhopin.Life.Refs.{vm_destroy-referenced}
use xhopin.Sched.{task_create, insert_task}
use xhopin.Sched.Create.{Kept, insert_task-Kept}
use xhopin.Loader.{start_app, LoadResult, task_id, error_code}

module _ (A : Allocator) where
  open A use {Mem, alloc, free}

  abbrev TaskMade : Store Vm → ℕ × Kernel Mem → Type 0
  TaskMade vms (t, g) = g.vms ≡ vms

  task_create-SameVms :
      (now entry arg stack_size : ℕ) (k : Kernel Mem)
      → Post (TaskMade k.vms) (task_create A now entry arg stack_size k)
  unfolding task_create
  task_create-SameVms now entry arg stack_size k =
      let P = TaskMade k.vms in
      let (p, m) = alloc 48 k.mem in
      let (s, m') = alloc stack_size m in
      let (c, m'') = alloc 132 m' in
      Post-if P (p == 0) _ _ (λ e. refl)
        λ e.
          Post-if P (s == 0) _ _ (λ e1. refl)
            λ e1.
              Post-if P (c == 0) _ _ (λ e2. refl)
                λ e2.
                  Post-bind (Kept _) P (insert_task p _) _ (insert_task-Kept p _)
                    (λ g kept. kept.vms)

  -- The result of `vm_create`: NULL, or a READY machine of the header with one reference.
  abbrev VmMade : AppHeader → ℕ × Kernel Mem → Type 0
  VmMade header (p, g) =
      (p ≡ 0)
      ⊎ ((p ≢ 0)
          × ((vm : Vm) × (g.vms p ≡ some vm)
              × (vm.state ≡ ready)
              × (vm.ref_count ≡ 1)
              × (vm.pc ≡ header.entry_point)
              × (vm.code_size ≡ header.code_size)))

  vm_create-VmMade :
      (header : AppHeader) (code : List ℕ) (k : Kernel Mem)
      → VmMade header (vm_create A header code k)
  unfolding vm_create new_vm
  vm_create-VmMade header code k =
      let P = VmMade header in
      let (p, m) = alloc 176 k.mem in
      let size = align4 header.ram_size in
      let (r, m') = alloc size m in
      let live : (a : ℕ)
          → (n : Mem) → (p == 0) ≡ false
          → P (p, record k { mem = n; vms = put k.vms p (new_vm header code a) }) =
        λ a n nz.
          inr (ground arith, (new_vm header code a, put_self k.vms p _, refl, refl, refl, refl)) in
      if_lem P (p == 0) _ _ (λ e. inl refl)
        λ e.
          if_lem P (size == 0) _ _ (λ e1. live 0 m e)
            λ e1. if_lem P (r == 0) _ _ (λ e2. inl refl) (λ e2. live r m' e)

  -- What is promised of the result of `start_app`.
  abbrev pub IsStarted : AppHeader → LoadResult × Kernel Mem → Type 0
  IsStarted header (task_id id, g) =
      (t : ℕ) × (task : Task) × (vm : Vm) × (g.tasks t ≡ some task)
      × (task.id ≡ id)
      × (g.vms task.priv_data ≡ some vm)
      × (vm.state ≡ ready)
      × (vm.ref_count ≡ 1)
      × (vm.pc ≡ header.entry_point)
      × (vm.code_size ≡ header.code_size)
  IsStarted header (error_code n, g) = (n ≡ 6) ⊎ (n ≡ 7)

  -- If start_app, the second half of the loader, returns a task id, a task has that id and its
  -- private data is the new machine: READY, at the entry point, with the code size of the header
  -- and one reference; any other result is error 6 or 7.
  pub start_app-IsStarted :
      (now entry : ℕ) (header : AppHeader) (code : List ℕ) (k : Kernel Mem)
      → Post (IsStarted header) (start_app A now entry header code k)
  unfolding start_app
  start_app-IsStarted now entry header code k =
      let P = IsStarted header in
      let (p, k1) = vm_create A header code k in
      Post-if P (p == 0) _ _ (λ e. inl refl)
        λ e.
          Post-bind (TaskMade k1.vms) P (task_create A now entry p 1024 k1) _
            (task_create-SameVms now entry p 1024 k1)
            λ made same.
              Post-if P (made.0 == 0) _ _
                (λ e1.
                  Post-bind (λ _. Unit {0}) P (vm_destroy A p made.1) _ (Post_any _)
                    (λ g _. inr refl))
                (λ e1.
                  Post-bind (λ _. Unit {0}) P (load made.1.tasks made.0) _ (Post_any _)
                    λ task _. elim (vm_create-VmMade header code k) [
                      | inl z ↦ absurd (ground arith)
                      | inr (nz, (vm, live, st, one, pc, size)) ↦ (
                        made.0,
                        record task { priv_data = p },
                        vm,
                        put_self made.1.tasks made.0 _,
                        refl,
                        ap (λ vms. vms p) same ∙ live,
                        st,
                        one,
                        pc,
                        size,
                      )
                    ])

  task_create-made :
      (now entry arg stack_size : ℕ) (k : Kernel Mem) (g : ℕ × Kernel Mem)
      → task_create A now entry arg stack_size k ≡ ok g
      → g.1.vms ≡ k.vms
  task_create-made now entry arg stack_size k g ran =
      Post-ok (TaskMade k.vms) (task_create A now entry arg stack_size k) g
        (task_create-SameVms now entry arg stack_size k) ran

  -- When the machine can be made but the task cannot, the loader returns -7, but the machine that
  -- it made stays allocated, HALTED and with one reference.
  pub start_app-leak :
      (now entry p : ℕ) (header : AppHeader) (code : List ℕ) (k k1 k2 : Kernel Mem)
      → vm_create A header code k ≡ (p, k1)
      → p ≢ 0
      → task_create A now entry p 1024 k1 ≡ ok (0, k2)
      → (g : Kernel Mem) × (start_app A now entry header code k ≡ ok (error_code 7, g))
        × (g.mem ≡ k2.mem)
        × ((vm : Vm) × (g.vms p ≡ some vm) × (vm.state ≡ halted) × (vm.ref_count ≡ 1))
  unfolding start_app
  start_app-leak now entry p header code k k1 k2 made ne ran =
      let nz : (p == 0) ≡ false = ground arith in
      elim (subst (VmMade header) made (vm_create-VmMade header code k)) [
        | inl z ↦ absurd (ne z)
        | inr (_, (vm, live, _, one, _, _)) ↦
            let live2 : k2.vms p ≡ some vm =
              ap (λ vms. vms p) (task_create-made now entry p 1024 k1 (0, k2) ran) ∙ live in
            (
              record k2 { vms = put k2.vms p (record vm { state = halted }) },
              rw (made, nz, ran, vm_destroy-referenced A p vm k2 ne live2 (omega arith)),
              refl,
              (record vm { state = halted }, put_self k2.vms p _, refl, one),
            )
      ]
