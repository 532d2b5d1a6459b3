-- ===== src/Services/Intent.antt =====
-- The categories and the actions of system calls: kernel/vm/vm_types.h.
use xhopin.Base.{ℕ}

abbrev pub cap_system : ℕ
cap_system = 1

abbrev pub cap_logging : ℕ
cap_logging = 2

abbrev pub cap_sensors : ℕ
cap_sensors = 4

abbrev pub cap_storage : ℕ
cap_storage = 8

abbrev pub cap_monitor : ℕ
cap_monitor = 32

abbrev pub action_get : ℕ
action_get = 0

abbrev pub action_send : ℕ
action_send = 1

abbrev pub action_load_app : ℕ
action_load_app = 2

abbrev pub action_stop : ℕ
action_stop = 3

abbrev pub action_storage_create : ℕ
action_storage_create = 4

abbrev pub action_storage_write : ℕ
action_storage_write = 5

abbrev pub action_storage_read : ℕ
action_storage_read = 6

abbrev pub action_storage_delete : ℕ
action_storage_delete = 7

abbrev pub action_receive : ℕ
action_receive = 9

abbrev pub action_get_cpu_usage : ℕ
action_get_cpu_usage = 11
