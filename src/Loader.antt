-- ===== src/Loader.antt =====
-- The loader of programs: kernel/loader/app_loader.c.
-- The bytes of the binary stand in a list, and its address is a multiple of four.
pub mod Check
pub mod Start
use xhopin.Base.{ℕ, ◌+◌, ◌-◌, Bool, ltb, ◌==◌, if◌then◌else◌, ◌||◌, List, take, Run, ok, ◌>>=◌}
use xhopin.Base.Lists
use xhopin.Word.{read_word}
use xhopin.Vm.{AppHeader}
use xhopin.Kernel.{Kernel, Allocator}
use xhopin.Store.{load, put}
use xhopin.Life.{strncpy, vm_create, vm_destroy}
use xhopin.Sched.{task_create}

abbrev pub app_magic : ℕ
app_magic = 0xCAFE_FACE

abbrev pub sizeof_app_header : ℕ
sizeof_app_header = 44

abbrev pub vm_abi_version : ℕ
vm_abi_version = 1

abbrev pub vm_abi_min_version : ℕ
vm_abi_min_version = 1

-- The result of `kernel_load_app`: `task_id id` is `id`, and `error_code n` is `-n`.
pub data LoadResult : Type 0 where
  task_id error_code : ℕ → LoadResult

-- The checks before anything is made: an error, or the header that is handed on.
pub data Checked : Type 0 where
  refused : ℕ → Checked
  accepted : AppHeader → Checked

unfoldable pub check_header : ℕ → List ℕ → ℕ → Run Checked
unfolding strncpy
check_header ptr binary bin_size =
    if ptr == 0 || ltb bin_size sizeof_app_header then ok (refused 1) else do
      magic ← read_word binary 0
      if magic == app_magic
          then (do
            version ← read_word binary 20
            if ltb version vm_abi_min_version || ltb vm_abi_version version
                then ok (refused 4)
                else (do
                  code_size ← read_word binary 24
                  ram_size ← read_word binary 28
                  entry_point ← read_word binary 32
                  capabilities ← read_word binary 36
                  if ltb (bin_size - sizeof_app_header) code_size
                      then ok (refused 5)
                      else ok (
                          accepted (record {
                            magic = magic;
                            name = strncpy 16 (Lists.drop 4 binary);
                            version = version;
                            code_size = code_size;
                            ram_size = ram_size;
                            entry_point = entry_point;
                            capabilities = capabilities;
                            checksum = 0;
                          }))))
          else ok (refused 2)

module _ (A : Allocator) where
  open A use {Mem}

  -- From `vm_create` on. `entry` is the address of `vm_interpreter_loop`, which the task runs.
  unfoldable pub start_app : ℕ → ℕ → AppHeader → List ℕ → Kernel Mem → Run (LoadResult × Kernel Mem)
  unfolding vm_create task_create
  start_app now entry header code k =
      let (p, k1) = vm_create A header code k in
      if p == 0 then ok (error_code 6, k1) else do
        (t, k2) ← task_create A now entry p 1024 k1
        if t == 0 then (do k3 ← vm_destroy A p k2; ok (error_code 7, k3)) else (do
          task ← load k2.tasks t
          ok (
            task_id task.id,
            record k2 { tasks = put k2.tasks t (record task { priv_data = p }) },
          ))

  unfoldable pub kernel_load_app :
      ℕ → ℕ → ℕ → List ℕ → ℕ → Kernel Mem → Run (LoadResult × Kernel Mem)
  unfolding check_header start_app
  kernel_load_app now entry ptr binary bin_size k = do
    checked ← check_header ptr binary bin_size
    elim checked [
      | refused n ↦ ok (error_code n, k)
      | accepted header ↦ start_app now entry header (Lists.drop sizeof_app_header binary) k
    ]
