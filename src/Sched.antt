-- ===== src/Sched.antt =====
-- The scheduler: kernel/scheduler/scheduler.c. The ready list is circular, through the tasks' `next`.
-- A walk round the list takes a number of rounds, and is `spin` if it has not ended by then. The
-- counter of the core timer is read by the hardware: what it shows is an argument.
pub mod Ring
pub mod Relink
pub mod Unlink
pub mod Current
pub mod Switch
pub mod Remove
pub mod Cycles
pub mod Clock
pub mod Create
pub mod Boot
use xhopin.Base.{
  ℕ, zero, suc, ◌+◌, ◌*◌, ◌%◌, ◌^◌, Bool, true, false, ◌&&◌, ◌==◌, if◌then◌else◌, List, Option,
  none, some, Run, ok, wild, spin, ◌>>=◌, Rc, success, failure,
}
use xhopin.Word.{add32, sub32}
use xhopin.Kernel.{Kernel, Task, Allocator}
use xhopin.Store.{Store, load, put, drop}
use xhopin.Life.{vm_ref_dec}
use xhopin.Event.{event_trigger, event_task_terminated}

abbrev pub sizeof_task : ℕ
sizeof_task = 48

abbrev pub sizeof_cpu_context : ℕ
sizeof_cpu_context = 132

-- `p->next = q`
unfoldable pub set_next : ℕ → ℕ → Store Task → Run (Store Task)
set_next p q tasks = do t ← load tasks p; ok (put tasks p (record t { next = q }))

-- The walk of `task_destroy_current` to the task before `current`.
unfoldable pub find_prev : ℕ → Store Task → ℕ → ℕ → ℕ → Run ℕ
find_prev zero tasks ready current prev = spin
find_prev (suc n) tasks ready current prev = do
  t ← load tasks prev
  elim (t.next == current) [
    | true ↦ ok prev
    | false ↦ elim (t.next == ready) [
      | true ↦ ok t.next
      | false ↦ find_prev n tasks ready current t.next
    ]
  ]

-- The search of `task_destroy_by_id` behind the head: the task before the target, and the target.
unfoldable pub find_target : ℕ → Store Task → ℕ → ℕ → ℕ → ℕ → Run (Option (ℕ × ℕ))
find_target zero tasks ready id prev curr = spin
find_target (suc n) tasks ready id prev curr = elim (curr == ready) [
  | true ↦ ok none
  | false ↦ do
    t ← load tasks curr
    elim (t.id == id) [
      | true ↦ ok (some (prev, curr))
      | false ↦ find_target n tasks ready id curr t.next
    ]
]

-- The search of `task_get_cycles`.
unfoldable pub find_cycles : ℕ → Store Task → ℕ → ℕ → ℕ → Run ℕ
find_cycles zero tasks ready id curr = spin
find_cycles (suc n) tasks ready id curr = do
  t ← load tasks curr
  elim (t.id == id) [
    | true ↦ ok t.total_cycles
    | false ↦ elim (t.next == ready) [ true ↦ ok 0 | false ↦ find_cycles n tasks ready id t.next ]
  ]

module _ {Mem : Type 0} where
  unfoldable pub insert_task : ℕ → Kernel Mem → Run (Kernel Mem)
  unfolding set_next
  insert_task p k =
      if k.ready_list == 0
      then (do tasks ← set_next p p k.tasks; ok (record k { ready_list = p; tasks = tasks }))
      else (do
        r ← load k.tasks k.ready_list
        tasks ← set_next p r.next k.tasks
        tasks' ← set_next k.ready_list p tasks
        ok (record k { tasks = tasks' }))

  unfoldable pub task_get_cycles : ℕ → ℕ → Kernel Mem → Run ℕ
  unfolding find_cycles
  task_get_cycles rounds id k =
      if k.ready_list == 0 then ok 0 else find_cycles rounds k.tasks k.ready_list id k.ready_list

  -- `current_task->total_cycles += now - current_task->last_count`
  unfoldable pub charge : ℕ → Kernel Mem → Run (Kernel Mem)
  charge now k = if k.current_task == 0 then ok k else do
    t ← load k.tasks k.current_task
    ok (record k {
      tasks =
          put k.tasks k.current_task
            (record t { total_cycles = (t.total_cycles + sub32 now t.last_count) % 2 ^ 64 });
    })

  -- `switch_to_next`: the counter is read at `now`, and at `now'` for the task that comes in.
  unfoldable pub switch_to_next : ℕ → ℕ → Kernel Mem → Run (Kernel Mem)
  unfolding charge
  switch_to_next now now' k = if k.ready_list == 0 then ok k else do
    k' ← charge now k
    r ← load k'.tasks k'.ready_list
    if r.next == k'.current_task then ok k' else (do
      t ← load k'.tasks r.next
      ok (record k' {
        ready_list = r.next;
        current_task = r.next;
        tasks = put k'.tasks r.next (record t { last_count = now' });
      }))

  unfoldable pub unlink_current : ℕ → Kernel Mem → Run (Kernel Mem)
  unfolding find_prev set_next
  unlink_current prev k = do
    pt ← load k.tasks prev
    if pt.next == k.current_task
        then (do
          c ← load k.tasks k.current_task
          tasks ← set_next prev c.next k.tasks
          c' ← load tasks k.current_task
          ok (record k {
            tasks = tasks;
            ready_list =
                if k.current_task == k.ready_list
                then (if c'.next == k.current_task then 0 else c'.next)
                else k.ready_list;
          }))
        else ok k

  -- The removal of the head: only `ready_list` changes.
  unfoldable pub unlink_head : Kernel Mem → Run (Kernel Mem)
  unlink_head k = do
    t ← load k.tasks k.ready_list
    ok (record k { ready_list = if t.next == k.ready_list then 0 else t.next })

  unfoldable pub unlink_behind : ℕ → ℕ → Kernel Mem → Run (Kernel Mem)
  unfolding set_next
  unlink_behind prev target k = do
    t ← load k.tasks target
    tasks ← set_next prev t.next k.tasks
    ok (record k { tasks = tasks })

  -- Whether `current_task && current_task->id == id`
  unfoldable pub is_self : ℕ → Kernel Mem → Run Bool
  is_self id k =
      if k.current_task == 0 then ok false else do t ← load k.tasks k.current_task; ok (t.id == id)

module _ (A : Allocator) where
  open A use {Mem, alloc, free}

  abbrev pub new_task : ℕ → ℕ → ℕ → ℕ → ℕ → ℕ → ℕ → Task
  new_task context stack stack_size entry arg id now = record {
    context = context;
    stack = stack;
    stack_size = stack_size;
    entry = entry;
    arg = arg;
    id = id;
    priv_data = 0;
    next = 0;
    total_cycles = 0;
    last_count = now;
  }

  -- The result is the task's address, or 0. `next` is set by `insert_task`.
  unfoldable pub task_create : ℕ → ℕ → ℕ → ℕ → Kernel Mem → Run (ℕ × Kernel Mem)
  unfolding insert_task
  task_create now entry arg stack_size k =
      let (p, m) = alloc sizeof_task k.mem in
      let (s, m') = alloc stack_size m in
      let (c, m'') = alloc sizeof_cpu_context m' in
      if p == 0
      then ok (0, record k { mem = m })
      else if s == 0
      then ok (0, record k { mem = free p m' })
      else if c == 0
      then ok (0, record k { mem = free p (free s m'') })
      else (do
        k' ← insert_task p (record k {
          mem = m'';
          tasks = put k.tasks p (new_task c s stack_size entry arg k.next_task_id now);
          next_task_id = add32 k.next_task_id 1;
        })
        ok (p, k'))

  abbrev pub release_vm : Task → Kernel Mem → Run (Kernel Mem)
  release_vm t k = if t.priv_data == 0 then ok k else vm_ref_dec A t.priv_data k

  abbrev pub free_if : ℕ → Mem → Mem
  free_if p m = if p == 0 then m else free p m

  -- What both destroyers do once the task is out of the list. `mem_free` of NULL does nothing, so
  -- that the tests of the context and the stack change nothing; the order of the two differs.
  unfoldable pub free_task : Bool → ℕ → Task → Kernel Mem → Run (Kernel Mem)
  free_task context_first p t k = do
    k' ← release_vm t (event_trigger A event_task_terminated t.id k)
    let m =
        if context_first
        then free t.stack (free_if t.context k'.mem)
        else free_if t.context (free_if t.stack k'.mem)
    ok (record k' { mem = free p m; tasks = drop k'.tasks p })

  unfoldable pub task_destroy_current : ℕ → Kernel Mem → Run (Kernel Mem)
  unfolding unlink_current free_task
  task_destroy_current rounds k = if k.current_task == 0 then ok k else do
    prev ← find_prev rounds k.tasks k.ready_list k.current_task k.ready_list
    k' ← unlink_current prev k
    c ← load k'.tasks k'.current_task
    k'' ← free_task true k'.current_task c k'
    ok (record k'' { current_task = 0 })

  -- `task_exit_handler`, up to the loop in which the CPU is idle.
  unfoldable pub task_exit_handler : ℕ → Kernel Mem → Run (Kernel Mem)
  unfolding task_destroy_current
  task_exit_handler rounds k = task_destroy_current rounds k

  -- The end of `task_destroy_by_id`, with the target out of the list.
  unfoldable pub finish_destroy : ℕ → Kernel Mem → Run (Rc × Kernel Mem)
  unfolding free_task
  finish_destroy target k = do
    t ← load k.tasks target
    k' ← free_task false target t k
    ok (
      success,
      record k' { current_task = if k.current_task == target then 0 else k'.current_task },
    )

  unfoldable pub task_destroy_by_id : ℕ → ℕ → Kernel Mem → Run (Rc × Kernel Mem)
  unfolding unlink_head unlink_behind finish_destroy is_self find_target
  task_destroy_by_id rounds id k = do
    self ← is_self id k
    if self then ok (failure, k) else if k.ready_list == 0 then ok (failure, k) else (do
      r ← load k.tasks k.ready_list
      if r.id == id then (do k' ← unlink_head k; finish_destroy k.ready_list k') else (do
        found ← find_target rounds k.tasks k.ready_list id k.ready_list r.next
        elim found [
          | none ↦ ok (failure, k)
          | some (prev, target) ↦ unlink_behind prev target k >>= λ k'. finish_destroy target k'
        ]))

  -- The idle task's code is `entry`; the list then holds it, so that `current_task` becomes NULL.
  unfoldable pub scheduler_init : ℕ → ℕ → Kernel Mem → Run (Kernel Mem)
  unfolding task_create set_next
  scheduler_init now entry k = do
    (idle, k') ← task_create now entry 0 1024 k
    if idle == 0
        then ok k'
        else if k'.ready_list == 0
        then (do
          tasks ← set_next idle idle k'.tasks
          ok (record k' { ready_list = idle; tasks = tasks; current_task = idle }))
        else ok (record k' { current_task = 0 })
