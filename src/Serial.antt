-- ===== src/Serial.antt =====
-- The serial lines: arch/arch_usart.c and arch/mips/impl/harmony/usart_impl.c. The vendor's driver of
-- each line is a parameter: `UARTn_SerialSetup`, `UARTn_Read` and `UARTn_Write` for n = id + 1.
use xhopin.Base.{
  ℕ, Bool, true, false, ◌==◌, ◌&&◌, ltb, leb, if◌then◌else◌, List, [], Option, none, some, Rc,
  success, failure,
}

-- `UART_SERIAL_SETUP`, its choices numbered in the order of the code
pub record Setup : Type 0 where
  pub baud_rate : ℕ
  pub parity : ℕ
  pub data_width : ℕ
  pub stop_bits : ℕ

-- The driver: a call succeeds or not. A read also says which bytes it put into the buffer. `has_uart`
-- is the processor's mask of lines, `compiled` the one of the build.
pub record Driver : Type 1 where
  pub State : Type 0
  pub has_uart : ℕ → Bool
  pub compiled : ℕ → Bool
  pub serial_setup : ℕ → Setup → State → Bool × State
  pub uart_read : ℕ → ℕ → State → Bool × List ℕ × State
  pub uart_write : ℕ → List ℕ → State → Bool × State
  pub read_callback_register : ℕ → State → State

-- `arch_uart_config_t`, as far as the code reads it. The mode is 0 for a master.
pub record UartConfig : Type 0 where
  pub mode : ℕ
  pub baud_rate : ℕ
  pub parity : ℕ
  pub data_bits : ℕ
  pub stop_bits : ℕ

abbrev pub rc_of : Bool → Rc
rc_of true = success
rc_of false = failure

abbrev pub with_stop : UartConfig → ℕ → Option Setup
with_stop c width =
    if c.stop_bits == 1
    then some
        (record { baud_rate = c.baud_rate; parity = c.parity; data_width = width; stop_bits = 0 })
    else if c.stop_bits == 2
    then some
        (record { baud_rate = c.baud_rate; parity = c.parity; data_width = width; stop_bits = 1 })
    else none

-- The setup for a configuration, if it is one that the lines can do.
unfoldable pub setup_of : UartConfig → Option Setup
setup_of cfg =
    if leb 3 cfg.parity
    then none
    else if cfg.data_bits == 8
    then with_stop cfg 0
    else if cfg.data_bits == 9
    then with_stop cfg 1
    else none

module _ (D : Driver) where
  open D use {
    State, has_uart, compiled, serial_setup, uart_read, uart_write, read_callback_register,
  }

  -- The driver's state and the tables of callbacks, functions by their address.
  pub record Serial : Type 0 where
    pub dev : State
    pub callbacks : ℕ → ℕ
    pub contexts : ℕ → ℕ

  -- Whether the switch has a case for the line.
  abbrev pub has_case : ℕ → Bool
  has_case id = ltb id 4 && compiled id

  unfoldable pub arch_uart_impl_open : ℕ → Option UartConfig → Serial → Rc × Serial
  unfolding setup_of
  arch_uart_impl_open id none s = (failure, s)
  arch_uart_impl_open id (some cfg) s = elim (setup_of cfg) [
    | none ↦ (failure, s)
    | some setup ↦
        if has_case id && has_uart id
        then (let (done, dev) = serial_setup id setup s.dev in (rc_of done, record s { dev = dev }))
        else (failure, s)
  ]

  -- The bytes are what is put into the buffer.
  unfoldable pub arch_uart_impl_read : ℕ → ℕ → Serial → Rc × List ℕ × Serial
  arch_uart_impl_read id size s =
      if has_case id
      then (let (done, bytes, dev) = uart_read id size s.dev in
          (rc_of done, bytes, record s { dev = dev }))
      else (failure, [], s)

  unfoldable pub arch_uart_impl_write : ℕ → List ℕ → Serial → Rc × Serial
  arch_uart_impl_write id bytes s =
      if has_case id
      then (let (done, dev) = uart_write id bytes s.dev in (rc_of done, record s { dev = dev }))
      else (failure, s)

  unfoldable pub arch_uart_impl_set_callback : ℕ → ℕ → ℕ → Serial → Rc × Serial
  arch_uart_impl_set_callback id cb ctx s =
      if leb 4 id
      then (failure, s)
      else let s' = record s {
        callbacks = λ i. if i == id then cb else s.callbacks i;
        contexts = λ i. if i == id then ctx else s.contexts i;
      } in
        if compiled id
        then (success, record s' { dev = read_callback_register id s.dev })
        else (failure, s')

  -- The callback that is called, with its context.
  unfoldable pub uart_generic_cb : ℕ → Serial → Option (ℕ × ℕ)
  uart_generic_cb id s = if s.callbacks id == 0 then none else some (s.callbacks id, s.contexts id)

  -- `has_any` is `arch_has_uart`.
  unfoldable pub arch_uart_init : Bool → Rc
  arch_uart_init has_any = rc_of has_any

  unfoldable pub arch_uart_open : Bool → ℕ → Option UartConfig → Serial → Rc × Serial
  unfolding arch_uart_impl_open
  arch_uart_open has_any id cfg s =
      if has_any
      then elim cfg [
        | none ↦ arch_uart_impl_open id none s
        | some c ↦ if c.mode == 0 then arch_uart_impl_open id (some c) s else (failure, s)
      ]
      else (failure, s)

  unfoldable pub arch_uart_read : ℕ → ℕ → Serial → Rc × List ℕ × Serial
  unfolding arch_uart_impl_read
  arch_uart_read id size s = arch_uart_impl_read id size s

  unfoldable pub arch_uart_write : ℕ → List ℕ → Serial → Rc × Serial
  unfolding arch_uart_impl_write
  arch_uart_write id bytes s = arch_uart_impl_write id bytes s

  unfoldable pub arch_uart_set_callback : ℕ → ℕ → ℕ → Serial → Rc × Serial
  unfolding arch_uart_impl_set_callback
  arch_uart_set_callback id cb ctx s = arch_uart_impl_set_callback id cb ctx s
