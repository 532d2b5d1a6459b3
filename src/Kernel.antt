-- ===== src/Kernel.antt =====
-- The kernel's state: its allocator, its machines, tasks and queued events
-- (kernel/scheduler/task.h, kernel/scheduler/scheduler.c, kernel/event/event.c).
use xhopin.Base.{ℕ, List, ◌≡◌}
use xhopin.Vm.{Vm}
use xhopin.Store.{Store}

-- `Task`. `entry` stands for the function; a task's saved registers belong to the CPU layer.
pub record Task : Type 0 where
  pub context : ℕ
  pub stack : ℕ
  pub stack_size : ℕ
  pub entry : ℕ
  pub arg : ℕ
  pub id : ℕ
  pub priv_data : ℕ
  pub next : ℕ
  pub total_cycles : ℕ
  pub last_count : ℕ

-- `event_entry_t`
pub record EventEntry : Type 0 where
  pub type : ℕ
  pub payload : ℕ
  pub next : ℕ

-- `handler_entry_t`: a function by its address, and its context
pub record HandlerEntry : Type 0 where
  pub handler : ℕ
  pub ctx : ℕ

-- The state, over the allocator's own.
pub record Kernel (Mem : Type 0) : Type 0 where
  pub mem : Mem
  pub vms : Store Vm
  pub tasks : Store Task
  pub ready_list : ℕ
  pub current_task : ℕ
  pub next_task_id : ℕ
  pub entries : Store EventEntry
  pub queue_head : ℕ
  pub queue_tail : ℕ
  pub handlers : ℕ → List HandlerEntry

-- The allocator as its callers see it (kernel/memory/mem_alloc.h): `alloc` returns an address, or 0.
pub record Allocator : Type 1 where
  pub Mem : Type 0
  pub alloc : ℕ → Mem → ℕ × Mem
  pub free : ℕ → Mem → Mem
  pub alloc_zero : (m : Mem) → (alloc 0 m).0 ≡ 0
