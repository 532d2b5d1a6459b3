-- ===== src/Bus/Spi.antt =====
-- The bus SPI: arch/arch_bus_spi.c and arch/mips/impl/harmony/bus_spi_impl.c. The vendor's driver of each
-- line is a parameter: `SPIn_TransferSetup` for n = id + 1, and `SPI1_WriteRead` and
-- `SPI1_CallbackRegister`, which the code calls for the first line only.
use xhopin.Base.{
  ℕ, ◌/◌, ◌%◌, Bool, ◌==◌, ◌&&◌, ltb, if◌then◌else◌, List, [], Option, none, some, Run, ok, wild,
  Rc, success, failure,
}
use xhopin.Bus.{BusConfig, rc_of, is_slave}

-- `arch_spi_config_t`
pub record SpiConfig : Type 0 where
  pub bs : BusConfig
  pub frequency : ℕ
  pub mode : ℕ
  pub bits : ℕ

-- `SPI_TRANSFER_SETUP`
pub record SpiSetup : Type 0 where
  pub clock_frequency : ℕ
  pub clock_phase : ℕ
  pub clock_polarity : ℕ
  pub data_bits : ℕ

-- The driver, as the one of I2C.
pub record SpiDriver : Type 1 where
  pub State : Type 0
  pub has_spi : ℕ → Bool
  pub compiled : ℕ → Bool
  pub transfer_setup : ℕ → SpiSetup → State → Bool × State
  pub write_read : List ℕ → ℕ → State → Bool × List ℕ × State
  pub callback_register : State → State

-- `mode & 1` and `(mode & 2) >> 1`
abbrev pub setup_of : SpiConfig → SpiSetup
setup_of c = record {
  clock_frequency = c.frequency;
  clock_phase = c.mode % 2;
  clock_polarity = c.mode / 2 % 2;
  data_bits = c.bits;
}

module _ (D : SpiDriver) where
  open D use {State, has_spi, compiled, transfer_setup, write_read, callback_register}

  -- The driver's state, and the two tables of callbacks, of two places each.
  pub record Spi : Type 0 where
    pub dev : State
    pub spi_callbacks : ℕ → ℕ
    pub spi_contexts : ℕ → ℕ

  abbrev pub has_case : ℕ → Bool
  has_case id = ltb id 2 && compiled id

  abbrev set_up : ℕ → SpiConfig → Spi → Rc × Spi
  set_up id c s =
      let (done, dev) = transfer_setup id (setup_of c) s.dev in (rc_of done, record s { dev = dev })

  unfoldable pub arch_spi_impl_open : ℕ → Option SpiConfig → Spi → Rc × Spi
  arch_spi_impl_open id cfg s =
      if has_case id
      then (if has_spi id
          then elim cfg [ none ↦ (success, s) | some c ↦ set_up id c s ]
          else (failure, s))
      else (failure, s)

  -- What is sent, the room for what comes back, and what came back.
  unfoldable pub arch_spi_impl_transfer : ℕ → List ℕ → ℕ → Spi → Rc × List ℕ × Spi
  arch_spi_impl_transfer id tx rx_size s =
      if id == 0
      then (let (done, got, dev) = write_read tx rx_size s.dev in
          (rc_of done, got, record s { dev = dev }))
      else (failure, [], s)

  -- The tables are written before the line is looked at.
  unfoldable pub arch_spi_impl_set_callback : ℕ → ℕ → ℕ → Spi → Run (Rc × Spi)
  arch_spi_impl_set_callback id cb ctx s =
      if ltb id 2
      then (let s' = record s {
        spi_callbacks = λ i. if i == id then cb else s.spi_callbacks i;
        spi_contexts = λ i. if i == id then ctx else s.spi_contexts i;
      } in
          if id == 0
          then ok (success, record s' { dev = callback_register s.dev })
          else ok (failure, s'))
      else wild

  -- The callback that is called, with its context.
  unfoldable pub spi1_cb : Spi → Option (ℕ × ℕ)
  spi1_cb s = if s.spi_callbacks 0 == 0 then none else some (s.spi_callbacks 0, s.spi_contexts 0)

  -- `has_any` is `arch_has_spi`; `arch_spi_impl_init` does nothing.
  unfoldable pub arch_spi_init : Bool → Rc
  arch_spi_init has_any = rc_of has_any

  unfoldable pub arch_spi_open : Bool → ℕ → Option SpiConfig → Spi → Rc × Spi
  unfolding arch_spi_impl_open
  arch_spi_open has_any id cfg s =
      if has_any
      then elim cfg [
        | none ↦ arch_spi_impl_open id none s
        | some c ↦ if is_slave c.bs then (failure, s) else arch_spi_impl_open id (some c) s
      ]
      else (failure, s)

  unfoldable pub arch_spi_transfer : ℕ → List ℕ → ℕ → Spi → Rc × List ℕ × Spi
  unfolding arch_spi_impl_transfer
  arch_spi_transfer id tx rx_size s = arch_spi_impl_transfer id tx rx_size s

  unfoldable pub arch_spi_set_callback : ℕ → ℕ → ℕ → Spi → Run (Rc × Spi)
  unfolding arch_spi_impl_set_callback
  arch_spi_set_callback id cb ctx s = arch_spi_impl_set_callback id cb ctx s
