-- ===== src/Services/Dispatch.antt =====
-- The dispatcher of system calls: kernel/vm/kernel_intent_dispatcher.c. It is what the machine's step
-- calls for VCALL. A program that is loaded is a copy of the bytes in the caller's RAM.
use xhopin.Base.{ℕ, ◌+◌, ◌-◌, ◌%◌, ◌==◌, ltb, ◌||◌, if◌then◌else◌, List, Run, ok, wild, ◌>>=◌}
use xhopin.Base.Lists
use xhopin.Word.{w32, add32}
use xhopin.Vm.{Vm}
use xhopin.Vm.Reg
use xhopin.Vm.Step.{reg}
use xhopin.Kernel.{Allocator}
use xhopin.Loader.{LoadResult, task_id, error_code, kernel_load_app, sizeof_app_header}
use xhopin.Sched.{task_destroy_by_id, task_get_cycles}
use xhopin.Serial.{Driver}
use xhopin.Console.{int_of}
use xhopin.Services.{
  Sys, Addresses, handle_system_service, handle_logging_service, handle_sensor_service,
  handle_storage_service,
}
use xhopin.Services.Intent.{
  cap_system, cap_logging, cap_sensors, cap_storage, cap_monitor, action_send, action_load_app,
  action_stop, action_receive, action_get_cpu_usage,
}

-- `(uint32_t)` of the result.
abbrev pub word_of_result : LoadResult → ℕ
word_of_result (task_id n) = n % w32
word_of_result (error_code n) = (w32 - n) % w32

module _ (A : Allocator) (D : Driver) (addrs : Addresses) (block_size block_count rounds : ℕ) where
  open A use {Mem}

  -- An access to the words of a binary at an odd address is an address error.
  unfoldable pub load_app : ℕ → ℕ → Vm → Sys A D → Run (ℕ × Sys A D)
  unfolding kernel_load_app
  load_app p1 p2 vm s =
      let ptr = add32 vm.ram_ptr p1 in
      if p1 % 4 == 0 || (ptr == 0 || ltb p2 sizeof_app_header)
      then (do
        (r, k) ←
            kernel_load_app A (s.counts 0) addrs.interpreter ptr (Lists.drop p1 vm.ram) p2 s.kernel
        ok (word_of_result r, record s { kernel = k; counts = λ i. s.counts (i + 1) }))
      else wild

  unfoldable pub system_call : ℕ → ℕ → ℕ → Vm → Sys A D → Run (ℕ × Sys A D)
  unfolding load_app task_destroy_by_id handle_system_service
  system_call action p1 p2 vm s =
      if action == action_load_app
      then load_app p1 p2 vm s
      else if action == action_stop
      then (do
        (r, k) ← task_destroy_by_id A rounds p1 s.kernel
        ok (int_of r, record s { kernel = k }))
      else ok (handle_system_service action p1, s)

  unfoldable pub logging_call : ℕ → ℕ → ℕ → List ℕ → Sys A D → Run (ℕ × List ℕ × Sys A D)
  unfolding handle_logging_service
  logging_call action p1 p2 ram s =
      if action == action_send
      then handle_logging_service A D addrs block_size block_count action ram p1 0 s
      else if action == action_receive
      then handle_logging_service A D addrs block_size block_count action ram p1 p2 s
      else ok (w32 - 1, ram, s)

  unfoldable pub monitor_call : ℕ → ℕ → Sys A D → Run ℕ
  unfolding task_get_cycles
  monitor_call action p1 s =
      if action == action_get_cpu_usage
      then (do cycles ← task_get_cycles rounds p1 s.kernel; ok (cycles % w32))
      else ok (w32 - 1)

  unfoldable pub kernel_intent_dispatcher : Vm → Sys A D → Run (ℕ × Vm × Sys A D)
  unfolding reg system_call logging_call handle_sensor_service handle_storage_service monitor_call
  kernel_intent_dispatcher vm s = do
    action ← reg vm Reg.v0
    category ← reg vm Reg.a0
    p1 ← reg vm Reg.a1
    p2 ← reg vm Reg.a2
    if category == cap_system
        then (do (r, s') ← system_call action p1 p2 vm s; ok (r, vm, s'))
        else if category == cap_logging
        then (do
          (r, ram, s') ← logging_call action p1 p2 vm.ram s
          ok (r, record vm { ram = ram }, s'))
        else if category == cap_sensors
        then ok (handle_sensor_service action p1, vm, s)
        else if category == cap_storage
        then (do
          (r, ram, s') ← handle_storage_service A D addrs block_size block_count action p1 vm.ram s
          ok (r, record vm { ram = ram }, s'))
        else if category == cap_monitor
        then (do r ← monitor_call action p1 s; ok (r, vm, s))
        else ok (w32 - 1, vm, s)
