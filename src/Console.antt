-- ===== src/Console.antt =====
-- The console: kernel/device/console/console.c, and the console on a serial line,
-- kernel/device/console/usart/usart_console.c. An `int` result is kept as a 32-bit word.
use xhopin.Base.{
  ℕ, zero, suc, ◌+◌, ◌-◌, ◌==◌, ◌||◌, true, false, if◌then◌else◌, List, [], ◌∷◌, Option, none, some,
  Run, ok, ◌>>=◌, Rc, success, failure,
}
use xhopin.Word.{w32, read_byte, write_byte}
use xhopin.Kernel.{Kernel, Allocator}
use xhopin.Store.{load}
use xhopin.Device.{Devices, device_register, device_get_by_name}
use xhopin.Serial.{Driver, Serial, arch_uart_read, arch_uart_write}

-- A result that is 0 or -1.
abbrev pub int_of : Rc → ℕ
int_of success = 0
int_of failure = w32 - 1

-- `console_ops_t`, over the state that the operations change. A buffer to read into is what the
-- memory holds, an offset in it, and its length.
pub record ConsoleOps (S : Type 0) : Type 0 where
  pub write : Option (List ℕ → S → Run (ℕ × S))
  pub read : Option (List ℕ → ℕ → ℕ → S → Run (ℕ × List ℕ × S))

module _ {S : Type 0} (ops_at : ℕ → Option (ConsoleOps S)) where
  -- `ops_at` is the table that a console's address leads to. The active console is an address.
  unfoldable pub console_write : ℕ → List ℕ → S → Run (ℕ × S)
  console_write active bytes s = if active == 0 then ok (w32 - 1, s) else elim (ops_at active) [
    | none ↦ ok (w32 - 1, s)
    | some ops ↦ elim ops.write [ none ↦ ok (w32 - 1, s) | some f ↦ f bytes s ]
  ]

  unfoldable pub console_read : ℕ → List ℕ → ℕ → ℕ → S → Run (ℕ × List ℕ × S)
  console_read active buf at max_len s =
      if active == 0 then ok (w32 - 1, buf, s) else elim (ops_at active) [
        | none ↦ ok (w32 - 1, buf, s)
        | some ops ↦ elim ops.read [ none ↦ ok (w32 - 1, buf, s) | some f ↦ f buf at max_len s ]
      ]

  module _ (A : Allocator) where
    open A use {Mem}

    -- The result, the active console, the table of devices and the kernel.
    unfoldable pub console_register : ℕ → ℕ → Devices → Kernel Mem → Rc × ℕ × Devices × Kernel Mem
    unfolding device_register
    console_register dev active d k =
        if dev == 0 then (failure, active, d, k) else elim (ops_at dev) [
          | none ↦ (failure, active, d, k)
          | some ops ↦ elim ops.write [
            | none ↦ (failure, active, d, k)
            | some w ↦ elim ops.read [
              | none ↦ (failure, active, d, k)
              | some r ↦
                  let (rc, d', k') = device_register A dev d k in
                  elim rc [
                    | failure ↦ (failure, active, d', k')
                    | success ↦ (success, (if active == 0 then dev else active), d', k')
                  ]
            ]
          ]
        ]

-- `DEVICE_CLASS_CONSOLE`
abbrev pub device_class_console : ℕ
device_class_console = 4

unfoldable pub console_set_active : Option (List ℕ) → ℕ → Devices → Run (Rc × ℕ)
unfolding device_get_by_name
console_set_active none active d = ok (failure, active)
console_set_active (some name) active d = do
  dev ← device_get_by_name (some name) d
  if dev == 0 then ok (failure, active) else (do
    object ← load d.objects dev
    ok (if object.class_dev == device_class_console then (success, dev) else (failure, active)))

-- The bytes that a driver put into a buffer from an offset on.
unfoldable pub put_bytes : List ℕ → ℕ → List ℕ → Run (List ℕ)
unfolding write_byte
put_bytes buf at [] = ok buf
put_bytes buf at (b ∷ bytes) = do buf' ← write_byte buf at b; put_bytes buf' (at + 1) bytes

module _ (D : Driver) where
  unfoldable pub uart_write : List ℕ → Serial D → Run (ℕ × Serial D)
  unfolding arch_uart_write
  uart_write bytes s = let (r, s') = arch_uart_write D 0 bytes s in ok (int_of r, s')

  -- The loop at place `i`, with `n` places left.
  unfoldable pub read_line : ℕ → ℕ → List ℕ → ℕ → Serial D → Run (ℕ × List ℕ × Serial D)
  unfolding arch_uart_read put_bytes read_byte write_byte
  read_line zero i buf at s = ok (i, buf, s)
  read_line (suc n) i buf at s =
      let (r, bytes, s') = arch_uart_read D 0 1 s in
      put_bytes buf (at + i) bytes >>= λ buf'. elim (int_of r == 1) [
        | false ↦ ok (i, buf', s')
        | true ↦ read_byte buf' (at + i) >>= λ b. elim (b == 13 || b == 10) [
          | true ↦ write_byte buf' (at + i) 0 >>= λ buf''. ok (i, buf'', s')
          | false ↦ read_line n (i + 1) buf' at s'
        ]
      ]

  unfoldable pub uart_read : List ℕ → ℕ → ℕ → Serial D → Run (ℕ × List ℕ × Serial D)
  unfolding read_line
  uart_read buf at max_len s = read_line max_len 0 buf at s

  -- `uart_console_ops`
  abbrev pub uart_console_ops : ConsoleOps (Serial D)
  uart_console_ops = record { write = some uart_write; read = some uart_read }
