-- ===== src/Tests/Apps.antt =====
-- A kernel that loads a program, handles events and finds devices (kernel/loader/app_loader.c,
-- kernel/vm/vm_core.c, kernel/event/event.c, kernel/device/kdevice.c).
use xhopin.Base.{
  ℕ, ◌+◌, ◌-◌, ◌*◌, ◌≡◌, ◌<◌, ◌≤◌, ◌⊎◌, refl, true, false, List, [], ◌∷◌, ◌++◌, replicate, some,
  none, arith, leb, ◌==◌, ◌&&◌, if◌then◌else◌, ok, wild, ◌>>=◌, Post, success,
}
use xhopin.Vm.{Vm, VmState, AppHeader}
use xhopin.Kernel.{Kernel, HandlerEntry, Allocator}
use xhopin.Life.{vm_create, vm_ref_dec, is_terminal}
use xhopin.Life.Refs.{vm_ref_dec_lem}
use xhopin.Sched.{task_create}
use xhopin.Loader.{Checked, check_header, start_app, error_code}
use xhopin.Loader.Check.{IsChecked, check_header-IsChecked}
use xhopin.Loader.Start.{IsStarted, start_app-IsStarted, start_app-leak}
use xhopin.Event.{event_register, event_unregister, dispatcher_turn, remove_entry}
use xhopin.Event.Rounds.{dispatcher_turn-stale, event_unregister-event_register}
use xhopin.Device.{Device, Devices, device_get_by_class, device_count_by_class, remove_device}
use xhopin.Device.Table.{device_get_by_class-device_count_by_class}

-- An allocator of three blocks, which counts its calls.
abbrev blocks : Allocator
blocks = record {
  Mem = ℕ;
  alloc =
      λ size n. if size == 0 then (0, n) else if leb 3 n then (0, n) else (400 + 100 * n, n + 1);
  free = λ p n. n;
  alloc_zero = λ n. refl;
}

abbrev kernel : ℕ → Kernel ℕ
kernel n = record {
  mem = n;
  vms = λ p. none;
  tasks = λ p. none;
  ready_list = 0;
  current_task = 0;
  next_task_id = 0;
  entries = λ p. none;
  queue_head = 0;
  queue_tail = 0;
  handlers = λ e. [];
}

-- A binary of 44 bytes of header, with no code
abbrev binary : List ℕ
binary = 0xCE ∷ 0xFA ∷ 0xFE ∷ 0xCA ∷ (replicate 16 0 ++ (1 ∷ replicate 23 0))

check_header-IsChecked_example :
    (c : Checked) × (check_header 800 binary 44 ≡ ok c) × IsChecked 800 44 binary c
check_header-IsChecked_example = check_header-IsChecked 800 44 binary (omega arith)

abbrev header : AppHeader
header = record {
  magic = 0xCAFE_FACE;
  name = [];
  version = 1;
  code_size = 0;
  ram_size = 6;
  entry_point = 0;
  capabilities = 0;
  checksum = 0;
}

start_app-IsStarted_example :
    Post (IsStarted blocks header) (start_app blocks 9 77 header [] (kernel 0))
start_app-IsStarted_example = start_app-IsStarted blocks 9 77 header [] (kernel 0)

abbrev created : Kernel ℕ
created = (vm_create blocks header [] (kernel 0)).1

created_at : vm_create blocks header [] (kernel 0) ≡ (400, created)
unfolding vm_create
created_at = refl

-- The third block goes to the task, whose stack then finds none.
no_stack : task_create blocks 9 77 400 1024 created ≡ ok (0, record created { mem = 3 })
unfolding task_create vm_create
no_stack = refl

start_app-leak_example :
    (g : Kernel ℕ) × (start_app blocks 9 77 header [] (kernel 0) ≡ ok (error_code 7, g))
    × (g.mem ≡ 3)
    × ((vm : Vm) × (g.vms 400 ≡ some vm) × (vm.state ≡ VmState.halted) × (vm.ref_count ≡ 1))
start_app-leak_example =
    start_app-leak blocks 9 77 400 header [] (kernel 0) created (record created { mem = 3 })
      created_at (omega arith) no_stack

abbrev machine : Vm
machine = record {
  pc = 0;
  gp = replicate 32 0;
  code = [];
  code_size = 0;
  ram = [];
  ram_ptr = 0;
  ram_size = 0;
  state = VmState.running;
  capabilities = 0;
  name = [];
  ref_count = 1;
}

abbrev hosting : Kernel ℕ
hosting = record (kernel 0) { vms = λ p. if p == 400 then some machine else none }

vm_ref_dec_lem_example :
    (g : Kernel ℕ) × (vm_ref_dec blocks 400 hosting ≡ ok g)
    × (g.vms 400 ≡ (
        if leb machine.ref_count 1 && is_terminal machine.state
        then none
        else some (record machine { ref_count = machine.ref_count - 1 })))
vm_ref_dec_lem_example = vm_ref_dec_lem blocks 400 machine hosting (omega arith) refl

abbrev handler : HandlerEntry
handler = record { handler = 0x9d00_0100; ctx = 5 }

abbrev listening : Kernel ℕ
listening = record (kernel 0) { handlers = λ e. if e == 2 then handler ∷ [] else [] }

abbrev pending : Kernel ℕ
pending = record listening {
  entries = λ p. if p == 400 then some (record { type = 2; payload = 11; next = 0 }) else none;
  queue_head = 400;
  queue_tail = 400;
}

dispatcher_turn-stale_example :
    (dispatcher_turn blocks 0 pending >>= λ (calls, entry', k'). dispatcher_turn blocks entry' k')
    ≡ wild
dispatcher_turn-stale_example =
    dispatcher_turn-stale blocks 0 400 (record { type = 2; payload = 11; next = 0 }) pending refl
      (omega arith) refl refl

absent : remove_entry handler [] ≡ none
unfolding remove_entry
absent = refl

event_unregister-event_register_example :
    let (r, k') = event_register 1 handler listening in
    let (r', k'') = event_unregister 1 handler k' in
    (r ≡ success) × (r' ≡ success) × (k''.handlers 1 ≡ [])
event_unregister-event_register_example =
    event_unregister-event_register 1 handler listening (omega arith) (omega arith) (omega arith)
      absent

abbrev device : ℕ → Device
device class = record {
  name = none;
  class_dev = class;
  class_ops = 0;
  ctx = 0;
  has_deinit = false;
  allocated = true;
}

-- Two consoles and a storage
abbrev devices : Devices
devices = record {
  devices = 500 ∷ 600 ∷ 700 ∷ [];
  objects = λ p.
      if p == 500
      then some (device 4)
      else if p == 600
      then some (device 0)
      else if p == 700
      then some (device 4)
      else if p == 800
      then some (device 4)
      else none;
}

device_get_by_class-device_count_by_class_example :
    (count : ℕ) × (device_count_by_class 4 devices ≡ ok count)
    × (((1 < count)
          × ((p : ℕ) × (dev : Device) × (device_get_by_class 4 1 devices ≡ ok p)
              × (devices.objects p ≡ some dev)
              × (dev.class_dev ≡ 4)))
        ⊎ ((count ≤ 1) × (device_get_by_class 4 1 devices ≡ ok 0)))
device_get_by_class-device_count_by_class_example =
    device_get_by_class-device_count_by_class 4 1 devices
      (
        (omega arith, (device 4, refl)),
        ((omega arith, (device 0, refl)), ((omega arith, (device 4, refl)), tt)),
      )
      (omega arith)

not_in_table : remove_device 800 devices.devices ≡ none
unfolding remove_device
not_in_table = refl

in_table : remove_device 600 devices.devices ≡ some (500 ∷ 700 ∷ [])
unfolding remove_device
in_table = refl
