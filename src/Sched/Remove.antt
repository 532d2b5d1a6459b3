-- ===== src/Sched/Remove.antt =====
-- What `task_destroy_by_id` of kernel/scheduler/scheduler.c leaves of the ready list.
use xhopin.Base.{
  ℕ, ◌-◌, ◌≡◌, ◌≢◌, Bool, refl, sym, ◌∙◌, some, arith, List, ◌∷◌, ok, wild, ◌==◌, ◌&&◌,
  if◌then◌else◌, false, true, Bool-cases, ◌⊎◌, inl, inr, subst, success, ltb, ap,
}
use xhopin.Vm.{Vm}
use xhopin.Kernel.{Kernel, Task, Allocator}
use xhopin.Store.{load, put, drop, load-some, load-drop_self, load-put_self}
use xhopin.Life.{vm_ref_dec, is_terminal, free_vm}
use xhopin.Event.{event_trigger}
use xhopin.Sched.{task_destroy_by_id, finish_destroy, free_task, free_if, is_self}
use xhopin.Sched.Ring.{Links, IsRing, Links-drop}

-- The scheduler's own part of the state is the same.
pub record SameList {Mem : Type 0} (k g : Kernel Mem) : Type 0 where
  pub tasks : g.tasks ≡ k.tasks
  pub ready_list : g.ready_list ≡ k.ready_list
  pub current_task : g.current_task ≡ k.current_task

module _ (A : Allocator) where
  open A use {Mem, alloc, free}

  event_trigger-SameList :
      (event payload : ℕ) (k : Kernel Mem)
      → SameList k (event_trigger A event payload k)
        × ((event_trigger A event payload k).vms ≡ k.vms)
  unfolding event_trigger
  event_trigger-SameList event payload k = ground arith

  vm_ref_dec-SameList :
      (p : ℕ) (vm : Vm) (k : Kernel Mem)
      → p ≢ 0
      → k.vms p ≡ some vm
      → (g : Kernel Mem) × (vm_ref_dec A p k ≡ ok g) × SameList k g
  unfolding vm_ref_dec
  vm_ref_dec-SameList p vm k ne e =
      let nz : (p == 0) ≡ false = ground arith in
      let vm' : Vm = record vm { ref_count = vm.ref_count - 1 } in
      let k' : Kernel Mem = record k { vms = put k.vms p vm' } in
      elim (Bool-cases (vm.ref_count - 1 == 0 && is_terminal vm.state)) [
        | inl t ↦
            let low : ltb 0 (vm.ref_count - 1) ≡ false = ground arith in
            (
              free_vm A p vm' k',
              rw (nz, load-some k.vms p vm ne e, t, load-put_self k.vms p vm' ne, low),
              record { tasks = refl; ready_list = refl; current_task = refl },
            )
        | inr t ↦ (
          k',
          rw (nz, load-some k.vms p vm ne e, t),
          record { tasks = refl; ready_list = refl; current_task = refl },
        )
      ]

  -- The task's private data is NULL or a live machine.
  abbrev pub HoldsVm : Task → Kernel Mem → Type 0
  HoldsVm t k = (t.priv_data ≡ 0) ⊎ ((vm : Vm) × (k.vms t.priv_data ≡ some vm))

  released :
      (t : Task) (k : Kernel Mem)
      → HoldsVm t k
      → (g : Kernel Mem) × ((if t.priv_data == 0 then ok k else vm_ref_dec A t.priv_data k) ≡ ok g)
        × SameList k g
  released t k holds = elim (Bool-cases (t.priv_data == 0)) [
    | inl z ↦ (k, rw z, record { tasks = refl; ready_list = refl; current_task = refl })
    | inr nz ↦
        let (g, ran, same) =
          vm_ref_dec-SameList t.priv_data (held holds nz).0 k (ground arith) (held holds nz).1 in
        (g, rw (nz, ran), same)
  ]
    where
      held : HoldsVm t k → (t.priv_data == 0) ≡ false → (vm : Vm) × (k.vms t.priv_data ≡ some vm)
      held (inl z) nz = absurd (ground arith)
      held (inr live) nz = live

  pub free_task-SameList :
      (context_first : Bool) (p : ℕ) (t : Task) (k : Kernel Mem)
      → HoldsVm t k
      → (g : Kernel Mem) × (free_task A context_first p t k ≡ ok g)
        × (g.tasks ≡ drop k.tasks p)
        × (g.ready_list ≡ k.ready_list)
        × (g.current_task ≡ k.current_task)
  unfolding free_task
  free_task-SameList context_first p t k holds =
      let k1 : Kernel Mem = event_trigger A 2 t.id k in
      let (same1, vms1) = event_trigger-SameList 2 t.id k in
      let (g, ran, same) = released t k1 (ground arith) in
      (
        record g {
          mem = free p (
              if context_first
              then free t.stack (free_if A t.context g.mem)
              else free_if A t.context (free_if A t.stack g.mem));
          tasks = drop g.tasks p;
        },
        rw ran,
        ap (λ s. drop s p) (same.tasks ∙ same1.tasks),
        same.ready_list ∙ same1.ready_list,
        same.current_task ∙ same1.current_task,
      )

  pub finish_destroy-freed :
      (k : Kernel Mem) (r : ℕ) (t : Task)
      → load k.tasks r ≡ ok t
      → HoldsVm t k
      → (g : Kernel Mem) × (finish_destroy A r k ≡ ok (success, g))
        × (g.tasks ≡ drop k.tasks r)
        × (g.ready_list ≡ k.ready_list)
  unfolding finish_destroy
  finish_destroy-freed k r t live holds =
      let (g, ran, tasks, ready, cur) = free_task-SameList false r t k holds in
      (
        record g { current_task = if k.current_task == r then 0 else g.current_task },
        rw (live, ran),
        tasks,
        ready,
      )

  task_destroy_by_id-at_head :
      (rounds id : ℕ) (k : Kernel Mem) (t : Task)
      → is_self id k ≡ ok false
      → (k.ready_list == 0) ≡ false
      → load k.tasks k.ready_list ≡ ok t
      → (t.id == id) ≡ true
      → (t.next == k.ready_list) ≡ false
      → task_destroy_by_id A rounds id k
        ≡ finish_destroy A k.ready_list (record k { ready_list = t.next })
  unfolding task_destroy_by_id
  task_destroy_by_id-at_head rounds id k t self busy loaded hit more =
      rw (self, loaded, busy, hit, more, loaded)

  is_self-idle : (id : ℕ) (k : Kernel Mem) → k.current_task ≡ 0 → is_self id k ≡ ok false
  unfolding is_self
  is_self-idle id k idle = rw idle

  -- Destroying by its id the head of a ring of at least two tasks, with no task on the CPU and with
  -- private data that is NULL or a live machine, succeeds and lets the list start at the next task,
  -- but the last task still leads to the freed head.
  pub task_destroy_by_id-head :
      (rounds id : ℕ) (k : Kernel Mem) (r q : ℕ) (rest : List ℕ) (t : Task)
      → IsRing k r (q ∷ rest)
      → k.current_task ≡ 0
      → k.tasks r ≡ some t
      → t.id ≡ id
      → HoldsVm t k
      → (g : Kernel Mem) × (task_destroy_by_id A rounds id k ≡ ok (success, g))
        × (g.ready_list ≡ q)
        × Links g.tasks (q ∷ rest) r
        × (load g.tasks r ≡ wild)
  task_destroy_by_id-head rounds id k r q rest t ring idle live same_id holds =
      let h = ring.links.0 in
      let loaded : load k.tasks r ≡ ok t = load-some k.tasks r t h.ne_null live in
      let t_next : t.next ≡ q = ground (arith, h.live, h.next) in
      let k' : Kernel Mem = record k { ready_list = t.next } in
      let (g, ran, tasks, ready) = finish_destroy-freed k' r t loaded holds in
      (
        g,
        task_destroy_by_id-at_head rounds id k t (is_self-idle id k idle)
              (ground (arith, ring.head, h.ne_null))
              (subst (λ p. load k.tasks p ≡ ok t) (sym ring.head) loaded) (ground arith)
              (ground (arith, ring.head, t_next, ring.distinct.0.0))
            ∙ subst (λ p. finish_destroy A p k' ≡ ok (success, g)) (sym ring.head) ran,
        ready ∙ t_next,
        subst (λ s. Links s (q ∷ rest) r) (sym tasks)
            (Links-drop k.tasks r (q ∷ rest) r ring.distinct.0 ring.links.1),
        subst (λ s. load s r ≡ wild) (sym tasks) (load-drop_self k.tasks r),
      )
