-- ===== src/Tests/Calls.antt =====
-- System calls, from a binary to the console (kernel/vm/kernel_intent_dispatcher.c,
-- kernel/loader/app_loader.c, kernel/device/console/usart/usart_console.c), the order of events
-- (kernel/event/event.c) and the tick (arch/mips/impl/pic32mx_systick_impl.c).
use xhopin.Base.{
  ℕ, ◌-◌, ◌+◌, ◌*◌, ◌%◌, ◌≡◌, refl, true, false, List, [], ◌∷◌, ◌++◌, replicate, All-replicate,
  All-set, set, arith, ◌==◌, if◌then◌else◌, none, ok, Post, success,
}
use xhopin.Base.Lists
use xhopin.Word.{w32, read_word}
use xhopin.Vm.{Vm, VmState, AppHeader}
use xhopin.Vm.Step.{interpreter_loop}
use xhopin.Vm.Invariant.{IsWord, IsByte, IsValid, IsSound}
use xhopin.Vm.Invariant.Loop.{Answered, Stopped}
use xhopin.Kernel.{Kernel, Allocator}
use xhopin.Store.{drop}
use xhopin.Life.{new_vm}
use xhopin.Life.Fresh.{new_vm-IsValid}
use xhopin.Loader.{check_header, accepted}
use xhopin.Event.{Call, event_trigger}
use xhopin.Event.Links.{Event}
use xhopin.Serial.{Driver, Serial}
use xhopin.Console.{uart_read}
use xhopin.Services.{Sys, Addresses}
use xhopin.Services.Dispatch.{kernel_intent_dispatcher}
use xhopin.Services.Answers.{kernel_intent_dispatcher-Answered}
use xhopin.Services.Program.{interpreter_loop-check_header}
use xhopin.Systick.{Timer, arch_systick_init}
use xhopin.Systick.Period.{CoreTimer, beats, interrupts, interrupts-arch_systick_init}

-- An allocator that never frees.
abbrev pub growing : Allocator
growing = record {
  Mem = ℕ;
  alloc = λ size n. if size == 0 then (0, n) else (400 + 100 * n, n + 1);
  free = λ p n. n;
  alloc_zero = λ n. refl;
}

-- A serial line on which everything succeeds, and on which `A` comes in; it counts the calls.
abbrev pub line : Driver
line = record {
  State = ℕ;
  has_uart = λ i. true;
  compiled = λ i. true;
  serial_setup = λ i setup n. (true, n + 1);
  uart_read = λ i size n. (true, 65 ∷ [], n + 1);
  uart_write = λ i bytes n. (true, n + 1);
  read_callback_register = λ i n. n;
}

abbrev pub addresses : Addresses
addresses = record { ramfs2 = 40; uart_console = 44; interpreter = 48 }

abbrev kernel : Kernel ℕ
kernel = record {
  mem = 0;
  vms = λ p. none;
  tasks = λ p. none;
  ready_list = 0;
  current_task = 0;
  next_task_id = 0;
  entries = λ p. none;
  queue_head = 0;
  queue_tail = 0;
  handlers = λ e. record { handler = 70; ctx = e } ∷ [];
}

abbrev serial : Serial line
serial = record { dev = 0; callbacks = λ i. 0; contexts = λ i. 0 }

abbrev pub system : Sys growing line
system = record {
  kernel = kernel;
  mounts = [];
  ctx = none;
  disk = record { ctx = 0; buffer_ptr = 0; buffer = [] };
  active_console = 44;
  serial = serial;
  counts = λ i. i;
}

-- A machine that asks for a line of the console at the start of its RAM.
abbrev asking : Vm
asking = record {
  pc = 0;
  gp = set (set (set (replicate 32 0) 2 9) 4 2) 6 4;
  code = [];
  code_size = 0;
  ram = replicate 8 0;
  ram_ptr = 400;
  ram_size = 8;
  state = VmState.running;
  capabilities = 3;
  name = [];
  ref_count = 1;
}

asking-IsSound : IsSound asking
asking-IsSound = record {
  bank = refl;
  words =
      All-set IsWord (set (set (replicate 32 0) 2 9) 4 2) 6 4
        (All-set IsWord (set (replicate 32 0) 2 9) 4 2
          (All-set IsWord (replicate 32 0) 2 9 (All-replicate IsWord 32 0 (omega arith))
            (omega arith))
          (omega arith))
        (omega arith);
  pc_word = omega arith;
  ram_length = refl;
  ram_bytes = All-replicate IsByte 8 0 (omega arith);
  code_bytes = tt;
}

asking-IsValid : IsValid asking
asking-IsValid = record { sound = asking-IsSound; zero_reg = refl }

kernel_intent_dispatcher-Answered_example :
    Post (Answered asking) (kernel_intent_dispatcher growing line addresses 16 8 3 asking system)
kernel_intent_dispatcher-Answered_example =
    kernel_intent_dispatcher-Answered growing line addresses 16 8 3 asking system asking-IsValid

-- The character lands in the RAM, but the count is 0.
asked :
    kernel_intent_dispatcher growing line addresses 16 8 3 asking system
    ≡ ok (
      0,
      record asking { ram = 65 ∷ replicate 7 0 },
      record system { serial = record serial { dev = 1 } },
    )
unfolding kernel_intent_dispatcher uart_read
asked = refl

-- A binary whose code is HALT.
abbrev binary : List ℕ
binary =
    0xCE
    ∷ 0xFA
    ∷ 0xFE
    ∷ 0xCA
    ∷ (replicate 16 0 ++ (1 ∷ 0 ∷ 0 ∷ 0 ∷ 4 ∷ (replicate 22 0 ++ (0xFF ∷ []))))

abbrev header : AppHeader
header = record {
  magic = 0xCAFE_FACE;
  name = replicate 16 0;
  version = 1;
  code_size = 4;
  ram_size = 0;
  entry_point = 0;
  capabilities = 0;
  checksum = 0;
}

header_accepted : check_header 800 binary 48 ≡ ok (accepted header)
unfolding check_header read_word
header_accepted = refl

interpreter_loop-check_header_example :
    Post
      (Stopped
        (kernel_intent_dispatcher growing line addresses 16 8 3)
        (kernel_intent_dispatcher-Answered growing line addresses 16 8 3)
        (new_vm header (Lists.drop 44 binary) 400))
      (interpreter_loop
        (kernel_intent_dispatcher growing line addresses 16 8 3)
        2
        (new_vm header (Lists.drop 44 binary) 400)
        system)
interpreter_loop-check_header_example =
    interpreter_loop-check_header growing line addresses 16 8 3 800 binary 48 header 400 2 system
      (ground arith) header_accepted

new_vm-IsValid_example :
    IsValid (new_vm header (255 ∷ []) 400) × ((new_vm header (255 ∷ []) 400).ram_size % 4 ≡ 0)
new_vm-IsValid_example = new_vm-IsValid header (255 ∷ []) 400 (omega arith) (omega arith, tt)

abbrev timer : Timer
timer = record {
  tick = record { frequency = 0; period = 0; counter = 0; compare = 0; initialized = false };
  compare_reg = 0;
  pending = true;
  enabled = false;
}

-- Two events are triggered, and the dispatcher turns once.
abbrev added : Event
added = record { type = 0; payload = 9 }

abbrev ended : Event
ended = record { type = 2; payload = 8 }

abbrev first_calls : List Call
first_calls = record { handler = 70; type = 0; payload = 9; ctx = 0 } ∷ []

abbrev both : Kernel ℕ
both = event_trigger growing 2 8 (event_trigger growing 0 9 kernel)

abbrev after_turn : Kernel ℕ
after_turn = record both { entries = drop both.entries 400; queue_head = 500 }

-- A core timer that counts from 0.
abbrev core_timer : CoreTimer
core_timer = record {
  match = λ now c. now + 1 + (c + w32 - (now + 1) % w32) % w32;
  later = λ now c. omega arith;
  shows = λ now c lt. omega arith;
  first = λ now c cycle lt e. omega arith;
}

interrupts-arch_systick_init_example :
    let (r, t) = arch_systick_init 100 true 7 timer in
    let due = core_timer.match 20 7 in
    (r ≡ success)
    × (interrupts core_timer (2 ∷ 6 ∷ []) due t ≡ beats due 7 2)
    × (interrupts core_timer (9 ∷ []) due t ≡ due ∷ (due + 7 + w32) ∷ [])
interrupts-arch_systick_init_example =
    interrupts-arch_systick_init core_timer 100 7 20 9 (2 ∷ 6 ∷ []) timer (omega arith)
      (ground arith) (omega arith) (omega arith)
