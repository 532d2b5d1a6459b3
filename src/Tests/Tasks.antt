-- ===== src/Tests/Tasks.antt =====
-- A kernel with a ring of three tasks (kernel/scheduler/scheduler.c), over a heap of 1024 units.
use xhopin.Base.{
  ℕ, ◌≡◌, refl, inl, [], ◌∷◌, some, none, arith, ◌==◌, ok, wild, false, if◌then◌else◌, success,
}
use xhopin.Kernel.{Kernel, Task, Allocator}
use xhopin.Store.{Store, load}
use xhopin.Alloc.{Heap, mem_alloc, mem_free}
use xhopin.Sched.{insert_task, task_destroy_by_id, task_exit_handler, task_get_cycles, is_self}
use xhopin.Sched.Ring.{Links, IsRing, insert_task-IsRing}
use xhopin.Sched.Switch.{switches, switches-round_robin}
use xhopin.Sched.Unlink.{task_destroy_by_id-behind}
use xhopin.Sched.Current.{task_exit_handler-IsRing}
use xhopin.Sched.Remove.{task_destroy_by_id-head}
use xhopin.Sched.Cycles.{account, task_get_cycles-account}
use xhopin.Tests.Heap.{empty_heap}

mem_alloc_zero : (m : Heap) → (mem_alloc 1024 0 m).0 ≡ 0
unfolding mem_alloc
mem_alloc_zero m = refl

abbrev heap : Allocator
heap = record { Mem = Heap; alloc = mem_alloc 1024; free = mem_free; alloc_zero = mem_alloc_zero }

abbrev pub empty_kernel : Kernel Heap
empty_kernel = record {
  mem = empty_heap;
  vms = λ p. none;
  tasks = λ p. none;
  ready_list = 0;
  current_task = 0;
  next_task_id = 0;
  entries = λ p. none;
  queue_head = 0;
  queue_tail = 0;
  handlers = λ e. [];
}

abbrev task : ℕ → ℕ → Task
task id next = record {
  context = 0;
  stack = 0;
  stack_size = 1024;
  entry = 0x9d00_0000;
  arg = 0;
  id = id;
  priv_data = 0;
  next = next;
  total_cycles = 0;
  last_count = 0;
}

-- Tasks 1, 2 and 3 form the ring; task 4 is not in it yet.
abbrev tasks : Store Task
tasks p =
    if p == 100
    then some (task 1 200)
    else if p == 200
    then some (task 2 300)
    else if p == 300
    then some (task 3 100)
    else if p == 400
    then some (task 4 0)
    else none

abbrev kernel : Kernel Heap
kernel = record empty_kernel { tasks = tasks; ready_list = 100; next_task_id = 5 }

kernel-IsRing : IsRing kernel 100 (200 ∷ 300 ∷ [])
kernel-IsRing = record {
  head = refl;
  links = (
    record { ne_null = omega arith; task = task 1 200; live = refl; next = refl },
    (
      record { ne_null = omega arith; task = task 2 300; live = refl; next = refl },
      (record { ne_null = omega arith; task = task 3 100; live = refl; next = refl }, tt),
    ),
  );
  distinct = ground arith;
}

insert_task-IsRing_example :
    (g : Kernel Heap) × (insert_task 400 kernel ≡ ok g) × IsRing g 100 (400 ∷ 200 ∷ 300 ∷ [])
insert_task-IsRing_example =
    insert_task-IsRing kernel 100 400 (200 ∷ 300 ∷ []) (task 4 0) kernel-IsRing (omega arith) refl
      (ground arith)

switches-round_robin_example :
    (g : Kernel Heap) × (switches ((10, 20) ∷ (30, 40) ∷ []) kernel ≡ ok (200 ∷ 300 ∷ [], g))
switches-round_robin_example =
    switches-round_robin ((10, 20) ∷ (30, 40) ∷ []) kernel 100 (200 ∷ 300 ∷ []) kernel-IsRing
      (inl refl) refl

task_destroy_by_id-head_example :
    (g : Kernel Heap) × (task_destroy_by_id heap 5 1 kernel ≡ ok (success, g))
    × (g.ready_list ≡ 200)
    × Links g.tasks (200 ∷ 300 ∷ []) 100
    × (load g.tasks 100 ≡ wild)
task_destroy_by_id-head_example =
    task_destroy_by_id-head heap 5 1 kernel 100 200 (300 ∷ []) (task 1 200) kernel-IsRing refl refl
      refl (inl refl)

-- The store that is left when task 1 is gone
abbrev left : Store Task
left p = if p == 200 then some (task 2 300) else if p == 300 then some (task 3 100) else none

left-Links : Links left (200 ∷ 300 ∷ []) 100
left-Links = (
  record { ne_null = omega arith; task = task 2 300; live = refl; next = refl },
  (record { ne_null = omega arith; task = task 3 100; live = refl; next = refl }, tt),
)

left-gone : load left 100 ≡ wild
unfolding load
left-gone = refl

task_get_cycles-account_example :
    task_get_cycles 3 2 kernel
    ≡ ok (account kernel.tasks (100 ∷ 200 ∷ 300 ∷ []) 100 2 kernel-IsRing.links)
task_get_cycles-account_example =
    task_get_cycles-account 3 2 kernel 100 (200 ∷ 300 ∷ []) kernel-IsRing (omega arith)

idle : is_self 2 kernel ≡ ok false
unfolding is_self
idle = refl

task_destroy_by_id-behind_example :
    (g : Kernel Heap) × (task_destroy_by_id heap 1 2 kernel ≡ ok (success, g))
    × IsRing g 100 (300 ∷ [])
    × (load g.tasks 200 ≡ wild)
task_destroy_by_id-behind_example =
    task_destroy_by_id-behind heap 1 2 kernel 100 [] 200 (300 ∷ []) (task 2 300) kernel-IsRing idle
      refl refl (ground arith) (inl refl) (omega arith)

abbrev busy : Kernel Heap
busy = record kernel { current_task = 100 }

busy-IsRing : IsRing busy busy.current_task (200 ∷ 300 ∷ [])
busy-IsRing = record { head = refl; links = kernel-IsRing.links; distinct = kernel-IsRing.distinct }

task_exit_handler-IsRing_example :
    (g : Kernel Heap) × (task_exit_handler heap 3 busy ≡ ok g)
    × IsRing g 200 (300 ∷ [])
    × (g.current_task ≡ 0)
    × (load g.tasks 100 ≡ wild)
task_exit_handler-IsRing_example =
    task_exit_handler-IsRing heap 3 busy 200 (300 ∷ []) (task 1 200) busy-IsRing refl (inl refl)
      (omega arith)
