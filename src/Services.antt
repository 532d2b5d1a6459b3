-- ===== src/Services.antt =====
-- The services behind the system calls: kernel/vm/kernel_services.c. A service gets the caller's RAM
-- and returns it with its result, a word; the calling machine stands apart from the kernel's others.
pub mod Intent
pub mod Dispatch
pub mod Start
pub mod Ram
pub mod Answers
pub mod Program
use xhopin.Base.{
  ℕ, ◌+◌, ◌-◌, ◌==◌, true, false, if◌then◌else◌, List, [], ◌∷◌, ◌++◌, Option, none, some, Run, ok,
  wild, ◌>>=◌, Rc, success, failure,
}
use xhopin.Base.Lists
use xhopin.Word.{w32, read_word}
use xhopin.Kernel.{Kernel, Allocator}
use xhopin.RamDisk.{Disk}
use xhopin.Ramfs.{str_copy}
use xhopin.FileSystem.{FsOps, Volume, fs_create, fs_write, fs_read, fs_remove}
use xhopin.Ramfs2.{BlockCtx}
use xhopin.Ramfs2.Table.{ramfs_ops, BlockVolume}
use xhopin.Mount.{MountEntry, mount_get_fs}
use xhopin.Serial.{Driver, Serial}
use xhopin.Console.{ConsoleOps, int_of, console_write, console_read, uart_console_ops}
use Intent.{
  action_get, action_send, action_receive, action_storage_create, action_storage_write,
  action_storage_read, action_storage_delete,
}

-- The characters before the end of a string.
unfoldable pub until_zero : List ℕ → List ℕ
until_zero [] = []
until_zero (c ∷ s) = if c == 0 then [] else c ∷ until_zero s

-- What `strlen` runs over.
unfoldable pub string_at : List ℕ → Run (List ℕ)
string_at [] = wild
string_at (c ∷ s) = elim (c == 0) [ true ↦ ok [] | false ↦ string_at s >>= λ rest. ok (c ∷ rest) ]

unfoldable pub handle_system_service : ℕ → ℕ → ℕ
handle_system_service action param = if action == action_get then 2026 else 0

unfoldable pub handle_sensor_service : ℕ → ℕ → ℕ
handle_sensor_service action sensor_id =
    if action == action_get
    then if sensor_id == 1 then 25 else if sensor_id == 2 then 80 else 0
    else 0

module _ (A : Allocator) where
  open A use {Mem, alloc}

  -- The copy's address and its bytes. `strncpy` writes what `str_copy` does.
  unfoldable pub get_string_from_vm : List ℕ → ℕ → ℕ → Mem → Run (Option (ℕ × List ℕ) × Mem)
  unfolding str_copy
  get_string_from_vm ram offset max_len m =
      let (p, m') = alloc (max_len + 1) m in
      if p == 0
      then ok (none, m')
      else do s ← str_copy max_len (Lists.drop offset ram); ok (some (p, s ++ (0 ∷ [])), m')

-- The addresses of the two tables of operations that the kernel has: `ramfs2` and `uart_console`, and
-- the address of `vm_interpreter_loop`.
pub record Addresses : Type 0 where
  pub ramfs2 : ℕ
  pub uart_console : ℕ
  pub interpreter : ℕ

module _ (A : Allocator) (D : Driver) where
  open A use {Mem}

  -- The kernel's state with its mounts, `ramfs2.ctx`, the RAM disk, the active console and the serial
  -- lines; `counts` are the values that the core timer will show.
  pub record Sys : Type 0 where
    pub kernel : Kernel Mem
    pub mounts : List MountEntry
    pub ctx : Option BlockCtx
    pub disk : Disk
    pub active_console : ℕ
    pub serial : Serial D
    pub counts : ℕ → ℕ

module _ (A : Allocator) (D : Driver) (addrs : Addresses) (block_size block_count : ℕ) where
  open A use {Mem, alloc, free}

  abbrev pub set_mem : Mem → Sys A D → Sys A D
  set_mem m s = record s { kernel = record s.kernel { mem = m } }

  abbrev pub volume : Sys A D → BlockVolume block_size block_count A
  volume s = record { ctx = s.ctx; disk = s.disk; mem = s.kernel.mem }

  abbrev pub set_volume : BlockVolume block_size block_count A → Sys A D → Sys A D
  set_volume v s = record (set_mem v.mem s) { ctx = v.ctx; disk = v.disk }

  -- No other file system is mounted, and there is no other console.
  abbrev pub fs_at : ℕ → Option (FsOps (BlockVolume block_size block_count A))
  fs_at p = if p == addrs.ramfs2 then some (ramfs_ops block_size block_count A) else none

  abbrev pub console_at : ℕ → Option (ConsoleOps (Serial D))
  console_at p = if p == addrs.uart_console then some (uart_console_ops D) else none

  unfoldable pub handle_logging_service : ℕ → List ℕ → ℕ → ℕ → Sys A D → Run (ℕ × List ℕ × Sys A D)
  unfolding console_write console_read string_at
  handle_logging_service action ram buffer size s =
      if action == action_send
      then (do
        bytes ← string_at (Lists.drop buffer ram)
        (r, serial) ← console_write console_at s.active_console bytes s.serial
        ok (1, ram, record s { serial = serial }))
      else if action == action_receive
      then (do
        (r, ram', serial) ← console_read console_at s.active_console ram buffer size s.serial
        ok (r, ram', record s { serial = serial }))
      else ok (0, ram, s)

  -- The switch, for the parameters at `p1` of the RAM.
  unfoldable pub storage_action :
      ℕ → ℕ → ℕ → List ℕ → List ℕ → Sys A D → Run (Rc × List ℕ × Sys A D)
  unfolding fs_create fs_write fs_read fs_remove
  storage_action action fs p1 name ram s =
      if action == action_storage_create
      then (do (r, v) ← fs_create (fs_at fs) name (volume s); ok (r, ram, set_volume v s))
      else if action == action_storage_write
      then (do
        data_offset ← read_word ram (p1 + 8)
        size ← read_word ram (p1 + 12)
        (r, v) ← fs_write (fs_at fs) name ram data_offset size (volume s)
        ok (r, ram, set_volume v s))
      else if action == action_storage_read
      then (do
        data_offset ← read_word ram (p1 + 8)
        size ← read_word ram (p1 + 12)
        (r, ram', v) ← fs_read (fs_at fs) name ram data_offset size (volume s)
        ok (r, ram', set_volume v s))
      else if action == action_storage_delete
      then (do (r, v) ← fs_remove (fs_at fs) name (volume s); ok (r, ram, set_volume v s))
      else ok (failure, ram, s)

  -- From the search of the mount on, which has given the address `fs`.
  unfoldable pub storage_on : ℕ → ℕ → ℕ → List ℕ → Sys A D → Run (ℕ × List ℕ × Sys A D)
  unfolding get_string_from_vm storage_action
  storage_on fs action p1 ram s = if fs == 0 then ok (w32 - 1, ram, s) else do
    name_offset ← read_word ram (p1 + 4)
    (file_name, m) ← get_string_from_vm A ram name_offset 64 s.kernel.mem
    elim file_name [
      | none ↦ ok (w32 - 1, ram, set_mem m s)
      | some (q, name) ↦ storage_action action fs p1 name ram (set_mem m s) >>= λ (r, ram', s').
          ok (int_of r, ram', set_mem (free q s'.kernel.mem) s')
    ]

  unfoldable pub handle_storage_service : ℕ → ℕ → List ℕ → Sys A D → Run (ℕ × List ℕ × Sys A D)
  unfolding get_string_from_vm mount_get_fs until_zero storage_on
  handle_storage_service action p1 ram s = do
    name_offset ← read_word ram p1
    (dev_name, m) ← get_string_from_vm A ram name_offset 16 s.kernel.mem
    elim dev_name [
      | none ↦ ok (w32 - 1, ram, set_mem m s)
      | some (p, name) ↦
          storage_on (mount_get_fs (until_zero name) s.mounts) action p1 ram (set_mem (free p m) s)
    ]
