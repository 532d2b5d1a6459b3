-- ===== src/Tests/Boot.antt =====
-- The start of the tasks and the clock (kernel/scheduler/scheduler.c).
use xhopin.Base.{
  ℕ, ◌+◌, ◌-◌, ◌*◌, ◌%◌, ◌^◌, ◌≡◌, refl, [], ◌∷◌, none, arith, ◌==◌, if◌then◌else◌, ok,
}
use xhopin.Kernel.{Kernel, Allocator}
use xhopin.Sched.{scheduler_init, switch_to_next}
use xhopin.Sched.Ring.{IsRing}
use xhopin.Sched.Create.{HasRoom}
use xhopin.Sched.Boot.{event_system_init, first_switch}
use xhopin.Sched.Clock.{calls, task_get_system_cycles-elapsed}

-- An allocator that counts its calls and never runs out.
abbrev blocks : Allocator
blocks = record {
  Mem = ℕ;
  alloc = λ size n. if size == 0 then (0, n) else (2000 + 1000 * n, n + 1);
  free = λ p n. n;
  alloc_zero = λ n. refl;
}

abbrev kernel : Kernel ℕ
kernel = record {
  mem = 0;
  vms = λ p. none;
  tasks = λ p. none;
  ready_list = 0;
  current_task = 0;
  next_task_id = 1;
  entries = λ p. none;
  queue_head = 0;
  queue_tail = 0;
  handlers = λ e. [];
}

idle_room : HasRoom blocks 1024 0 2000 3
idle_room = record {
  stack = 3000;
  context = 4000;
  mem1 = 1;
  mem2 = 2;
  task_at = refl;
  stack_at = refl;
  context_at = refl;
  task_ne = omega arith;
  stack_ne = omega arith;
  context_ne = omega arith;
}

dispatcher_room : HasRoom blocks 1024 3 5000 6
dispatcher_room = record {
  stack = 6000;
  context = 7000;
  mem1 = 4;
  mem2 = 5;
  task_at = refl;
  stack_at = refl;
  context_at = refl;
  task_ne = omega arith;
  stack_ne = omega arith;
  context_ne = omega arith;
}

first_switch_example :
    (g h j : Kernel ℕ) × (scheduler_init blocks 10 700 kernel ≡ ok g)
    × (event_system_init blocks 20 800 g ≡ ok (5000, h))
    × IsRing h 2000 (5000 ∷ [])
    × (h.current_task ≡ 0)
    × (switch_to_next 30 40 h ≡ ok j)
    × IsRing j 5000 (2000 ∷ [])
    × (j.current_task ≡ 5000)
first_switch_example =
    first_switch blocks 10 20 30 40 700 800 2000 5000 kernel 3 6 refl idle_room dispatcher_room
      (omega arith)

-- Between the calls the counter wraps round twice.
task_get_system_cycles-elapsed_example :
    (calls
      (5 ∷ 4000000000 ∷ 8000000000 ∷ 9000000000 ∷ [])
      (record { system_cycles = 0; last_system_count = 0 })).system_cycles
    ≡ (9000000000 - 5) % 2 ^ 64
task_get_system_cycles-elapsed_example =
    task_get_system_cycles-elapsed 5 (4000000000 ∷ 8000000000 ∷ 9000000000 ∷ []) (omega arith)
      (ground arith)
