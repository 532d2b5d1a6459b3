-- ===== src/Services/Answers.antt =====
-- The dispatcher of system calls (kernel/vm/kernel_intent_dispatcher.c) answers every call with a word,
-- and changes only the bytes of its caller's RAM.
use xhopin.Base.{
  ℕ, ◌+◌, ◌%◌, ◌==◌, ◌||◌, refl, ltb, Bool-cases, inl, inr, if_lem, List, arith, Run, ok, ◌>>=◌,
  Post, Post-bind, Post-if, Post-mono, Post-option, Post-bind_any, Rc, success, failure,
}
use xhopin.Base.Lists
use xhopin.Word.{add32, read_word}
use xhopin.Vm.{Vm}
use xhopin.Vm.Reg
use xhopin.Vm.Step.{reg}
use xhopin.Vm.Invariant.{IsWord, IsValid, SameLength, ram-Kept, SameObject-refl}
use xhopin.Vm.Invariant.Loop.{Answered, Preserved}
use xhopin.Kernel.{Allocator}
use xhopin.FileSystem.{fs_read}
use xhopin.Ramfs2.{ramfs_read}
use xhopin.Ramfs2.Table.{BlockVolume, context, read_on}
use xhopin.Loader.{LoadResult, task_id, error_code, kernel_load_app, sizeof_app_header}
use xhopin.Sched.{task_destroy_by_id, task_get_cycles}
use xhopin.Mount.{mount_get_fs}
use xhopin.Serial.{Driver, Serial}
use xhopin.Console.{int_of, console_read, console_write, uart_read}
use xhopin.Services.{
  Sys, Addresses, set_mem, volume, fs_at, console_at, handle_system_service, handle_sensor_service,
  handle_logging_service, handle_storage_service, storage_action, storage_on, get_string_from_vm,
  until_zero, string_at,
}
use xhopin.Services.Ram.{Filled, NothingRead, uart_read-NothingRead, ramfs_read-Filled}
use xhopin.Services.Intent.{
  cap_system, cap_logging, cap_sensors, cap_storage, cap_monitor, action_get, action_send,
  action_receive, action_storage_create, action_storage_write, action_storage_read,
  action_storage_delete, action_load_app, action_stop, action_get_cpu_usage,
}
use xhopin.Services.Dispatch.{
  word_of_result, load_app, system_call, logging_call, monitor_call, kernel_intent_dispatcher,
}

int_of-IsWord : (r : Rc) → IsWord (int_of r)
int_of-IsWord success = omega arith
int_of-IsWord failure = omega arith

word_of_result-IsWord : (r : LoadResult) → IsWord (word_of_result r)
word_of_result-IsWord (task_id n) = omega arith
word_of_result-IsWord (error_code n) = omega arith

module _ (A : Allocator) (D : Driver) (addrs : Addresses) (block_size block_count rounds : ℕ) where
  -- A word, and a buffer of bytes as long as the RAM.
  abbrev Served : List ℕ → ℕ × List ℕ × Sys A D → Type 0
  Served ram (r, m, s) = IsWord r × SameLength ram m

  abbrev Acted : List ℕ → Rc × List ℕ × Sys A D → Type 0
  Acted ram (r, m, s) = SameLength ram m

  abbrev Valued : ℕ × Sys A D → Type 0
  Valued (r, s) = IsWord r

  module _ (ram : List ℕ) (h : SameLength ram ram) where
    Received : ℕ × List ℕ × Serial D → Type 0
    Received (r, m, s) = IsWord r × SameLength ram m

    console_read-Received :
        (active at max_len : ℕ) (s : Serial D)
        → Post Received
            (console_read (console_at A D addrs block_size block_count) active ram at max_len s)
    unfolding console_read Received
    console_read-Received active at max_len s =
        Post-if Received (active == 0) _ _ (λ _. (omega arith, h))
          λ _. elim (Bool-cases (active == addrs.uart_console)) [
            | inl e ↦ rw e (
                Post-mono (NothingRead ram D) Received (uart_read D ram at max_len s)
                  (uart_read-NothingRead ram D at max_len ram s h)
                  λ (r, m, s') (z, k). (omega arith, k))
            | inr e ↦ rw e (omega arith, h)
          ]

    handle_logging_service-Served :
        (action buffer size : ℕ) (s : Sys A D)
        → Post
            (Served ram)
            (handle_logging_service A D addrs block_size block_count action ram buffer size s)
    unfolding handle_logging_service Received
    handle_logging_service-Served action buffer size s =
        let consoles = console_at A D addrs block_size block_count in
        Post-if (Served ram) (action == action_send) _ _
          (λ _. Post-bind_any (Served ram) (string_at (Lists.drop buffer ram)) _ λ bytes.
            Post-bind_any (Served ram) (console_write consoles s.active_console bytes s.serial) _
              λ r. (omega arith, h))
          λ _.
            Post-if (Served ram) (action == action_receive) _ _
              (λ _.
                Post-bind Received (Served ram)
                  (console_read consoles s.active_console ram buffer size s.serial) _
                  (console_read-Received s.active_console buffer size s.serial) λ r k. k)
              λ _. (omega arith, h)

    fs_read-Filled :
        (fs : ℕ) (name : List ℕ) (at len : ℕ) (v : BlockVolume block_size block_count A)
        → Post
            (λ (r, m, v'). SameLength ram m)
            (fs_read (fs_at A D addrs block_size block_count fs) name ram at len v)
    unfolding fs_read read_on
    fs_read-Filled fs name at len v = elim (Bool-cases (fs == addrs.ramfs2)) [
      | inl e ↦ rw e (
          Post-bind_any (λ (r, m, v'). SameLength ram m) (context v.ctx) _
            λ c.
              Post-bind (Filled ram block_size block_count) _
                (ramfs_read block_size block_count name ram at len c v.disk) _
                (ramfs_read-Filled ram block_size block_count name ram at len c v.disk h)
                λ (r, m) k. k)
      | inr e ↦ rw e h
    ]

    storage_action-Acted :
        (action fs p1 : ℕ) (name : List ℕ) (s : Sys A D)
        → Post (Acted ram) (storage_action A D addrs block_size block_count action fs p1 name ram s)
    unfolding storage_action
    storage_action-Acted action fs p1 name s =
        Post-if (Acted ram) (action == action_storage_create) _ _ (λ _. simple _ _)
          λ _.
            Post-if (Acted ram) (action == action_storage_write) _ _
              (λ _. words p1 _ λ at len. simple _ _)
              λ _.
                Post-if (Acted ram) (action == action_storage_read) _ _
                  (λ _. words p1 _ λ at len.
                    Post-bind (λ (r, m, v'). SameLength ram m) (Acted ram)
                      (fs_read (fs_at A D addrs block_size block_count fs) name ram at len
                        (volume A D addrs block_size block_count s))
                      _ (fs_read-Filled fs name at len (volume A D addrs block_size block_count s))
                      λ (r, m, v) k. k)
                  λ _.
                    Post-if (Acted ram) (action == action_storage_delete) _ _ (λ _. simple _ _)
                      λ _. h
      where
        simple :
            {B : Type 0} (x : Run (Rc × B)) (f : B → Sys A D)
            → Post (Acted ram) (x >>= λ (r, v). ok (r, ram, f v))
        simple x f = Post-bind_any (Acted ram) x _ λ (r, v). h

        words :
            (p1 : ℕ) (f : ℕ → ℕ → Run (Rc × List ℕ × Sys A D))
            → ((at len : ℕ) → Post (Acted ram) (f at len))
            → Post
                (Acted ram)
                (read_word ram (p1 + 8) >>= λ at. read_word ram (p1 + 12) >>= λ len. f at len)
        words p1 f k =
            Post-bind_any (Acted ram) (read_word ram (p1 + 8)) _
              λ at. Post-bind_any (Acted ram) (read_word ram (p1 + 12)) _ λ len. k at len

    storage_on-Served :
        (fs action p1 : ℕ) (s : Sys A D)
        → Post (Served ram) (storage_on A D addrs block_size block_count fs action p1 ram s)
    unfolding storage_on
    storage_on-Served fs action p1 s =
        Post-if (Served ram) (fs == 0) _ _ (λ _. (omega arith, h))
          λ _. Post-bind_any (Served ram) (read_word ram (p1 + 4)) _ λ at.
            Post-bind_any (Served ram) (get_string_from_vm A ram at 64 s.kernel.mem) _
              λ (file_name, m).
                Post-option (Served ram) file_name _ _ (omega arith, h)
                  λ (q, name).
                    let s' = set_mem A D addrs block_size block_count m s in
                    Post-bind (Acted ram) (Served ram)
                      (storage_action A D addrs block_size block_count action fs p1 name ram s') _
                      (storage_action-Acted action fs p1 name s')
                      λ (r, m', t) k. (int_of-IsWord r, k)

    handle_storage_service-Served :
        (action p1 : ℕ) (s : Sys A D)
        → Post
            (Served ram)
            (handle_storage_service A D addrs block_size block_count action p1 ram s)
    unfolding handle_storage_service
    handle_storage_service-Served action p1 s =
        Post-bind_any (Served ram) (read_word ram p1) _ λ at.
          Post-bind_any (Served ram) (get_string_from_vm A ram at 16 s.kernel.mem) _
            λ (dev_name, m).
              Post-option (Served ram) dev_name _ _ (omega arith, h)
                λ (q, name). storage_on-Served (mount_get_fs (until_zero name) s.mounts) action p1 _

  load_app-Valued :
      (p1 p2 : ℕ) (vm : Vm) (s : Sys A D)
      → Post Valued (load_app A D addrs block_size block_count rounds p1 p2 vm s)
  unfolding load_app
  load_app-Valued p1 p2 vm s =
      let ptr = add32 vm.ram_ptr p1 in
      Post-if Valued (p1 % 4 == 0 || (ptr == 0 || ltb p2 sizeof_app_header)) _ _
        (λ _.
          Post-bind_any Valued
            (kernel_load_app A (s.counts 0) addrs.interpreter ptr (Lists.drop p1 vm.ram) p2
              s.kernel)
            _ λ (r, k). word_of_result-IsWord r)
        λ _. tt

  system_call-Valued :
      (action p1 p2 : ℕ) (vm : Vm) (s : Sys A D)
      → Post Valued (system_call A D addrs block_size block_count rounds action p1 p2 vm s)
  unfolding system_call handle_system_service
  system_call-Valued action p1 p2 vm s =
      Post-if Valued (action == action_load_app) _ _ (λ _. load_app-Valued p1 p2 vm s)
        λ _.
          Post-if Valued (action == action_stop) _ _
            (λ _.
              Post-bind_any Valued (task_destroy_by_id A rounds p1 s.kernel) _
                λ (r, k). int_of-IsWord r)
            λ _. if_lem IsWord (action == action_get) 2026 0 (λ _. omega arith) λ _. omega arith

  logging_call-Served :
      (action p1 p2 : ℕ) (ram : List ℕ) (s : Sys A D)
      → SameLength ram ram
      → Post (Served ram) (logging_call A D addrs block_size block_count rounds action p1 p2 ram s)
  unfolding logging_call
  logging_call-Served action p1 p2 ram s h =
      Post-if (Served ram) (action == action_send) _ _
        (λ _. handle_logging_service-Served ram h action p1 0 s)
        λ _.
          Post-if (Served ram) (action == action_receive) _ _
            (λ _. handle_logging_service-Served ram h action p1 p2 s) λ _. (omega arith, h)

  monitor_call-IsWord :
      (action p1 : ℕ) (s : Sys A D)
      → Post IsWord (monitor_call A D addrs block_size block_count rounds action p1 s)
  unfolding monitor_call
  monitor_call-IsWord action p1 s =
      Post-if IsWord (action == action_get_cpu_usage) _ _
        (λ _. Post-bind_any IsWord (task_get_cycles rounds p1 s.kernel) _ λ c. omega arith)
        λ _. omega arith

  handle_sensor_service-IsWord :
      (action sensor_id : ℕ) → IsWord (handle_sensor_service action sensor_id)
  unfolding handle_sensor_service
  handle_sensor_service-IsWord action sensor_id = ground arith

  -- The answer to a call that puts `ram` in place of the caller's RAM.
  with_ram-Answered :
      (vm : Vm)
      → IsValid vm
      → (r : ℕ) (ram : List ℕ) (s : Sys A D) → Served vm.ram (r, ram, s)
      → Answered {K = Sys A D} vm (r, record vm { ram = ram }, s)
  with_ram-Answered vm h r ram s (w, k) =
      let (sound, same) = ram-Kept vm h.sound ram k in
      (w, (record { sound = sound; zero_reg = h.zero_reg }, same))

  -- Every system call that a well-formed machine makes and that returns is answered with a 32-bit word,
  -- and leaves the machine well formed, with the same code, extent of its RAM and rights.
  pub kernel_intent_dispatcher-Answered :
      (vm : Vm) (s : Sys A D)
      → IsValid vm
      → Post (Answered vm) (kernel_intent_dispatcher A D addrs block_size block_count rounds vm s)
  unfolding kernel_intent_dispatcher
  kernel_intent_dispatcher-Answered vm s h =
      let ram : SameLength vm.ram vm.ram = (refl, h.sound.ram_bytes) in
      let same : Preserved vm vm = (h, SameObject-refl vm) in
      Post-bind_any P (reg vm Reg.v0) _ λ action. Post-bind_any P (reg vm Reg.a0) _ λ category.
        Post-bind_any P (reg vm Reg.a1) _ λ p1. Post-bind_any P (reg vm Reg.a2) _ λ p2.
          Post-if P (category == cap_system) _ _
            (λ _.
              Post-bind Valued P
                (system_call A D addrs block_size block_count rounds action p1 p2 vm s) _
                (system_call-Valued action p1 p2 vm s) λ (r, s') w. (w, same))
            λ _.
              Post-if P (category == cap_logging) _ _
                (λ _.
                  Post-bind (Served vm.ram) P
                    (logging_call A D addrs block_size block_count rounds action p1 p2 vm.ram s) _
                    (logging_call-Served action p1 p2 vm.ram s ram)
                    λ (r, m, s') k. with_ram-Answered vm h r m s' k)
                λ _.
                  Post-if P (category == cap_sensors) _ _
                    (λ _. (handle_sensor_service-IsWord action p1, same))
                    λ _.
                      Post-if P (category == cap_storage) _ _
                        (λ _.
                          Post-bind (Served vm.ram) P
                            (handle_storage_service A D addrs block_size block_count action p1
                              vm.ram s)
                            _ (handle_storage_service-Served vm.ram ram action p1 s)
                            λ (r, m, s') k. with_ram-Answered vm h r m s' k)
                        λ _.
                          Post-if P (category == cap_monitor) _ _
                            (λ _.
                              Post-bind IsWord P
                                (monitor_call A D addrs block_size block_count rounds action p1 s) _
                                (monitor_call-IsWord action p1 s) λ r w. (w, same))
                            λ _. (omega arith, same)
    where
      P : ℕ × Vm × Sys A D → Type 0
      P = Answered vm
