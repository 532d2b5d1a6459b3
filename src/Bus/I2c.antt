-- ===== src/Bus/I2c.antt =====
-- The bus I2C: arch/arch_bus_i2c.c and arch/mips/impl/harmony/bus_i2c_impl.c. The vendor's driver of each
-- line is a parameter: `I2Cn_TransferSetup`, `I2Cn_Read` and so on, for n = id + 1.
use xhopin.Base.{
  ℕ, Bool, ◌==◌, ◌&&◌, ltb, if◌then◌else◌, List, [], Option, none, some, Rc, success, failure,
}
use xhopin.Bus.{BusConfig, rc_of, is_slave}

-- `arch_i2c_config_t`
pub record I2cConfig : Type 0 where
  pub bs : BusConfig
  pub speed : ℕ

-- The driver: a call succeeds or not. A read also says which bytes it put into the buffer. `has_i2c` is
-- the processor's mask of lines, `compiled` the one of the build.
pub record I2cDriver : Type 1 where
  pub State : Type 0
  pub has_i2c : ℕ → Bool
  pub compiled : ℕ → Bool
  pub transfer_setup : ℕ → ℕ → State → Bool × State
  pub i2c_read : ℕ → ℕ → ℕ → State → Bool × List ℕ × State
  pub i2c_write : ℕ → ℕ → List ℕ → State → Bool × State
  pub write_then_read : ℕ → ℕ → List ℕ → ℕ → State → Bool × List ℕ × State
  pub callback_register : ℕ → ℕ → ℕ → State → State

module _ (D : I2cDriver) where
  open D use {
    State, has_i2c, compiled, transfer_setup, i2c_read, i2c_write, write_then_read,
    callback_register,
  }

  -- Whether the switch has a case for the line.
  abbrev pub has_case : ℕ → Bool
  has_case id = ltb id 2 && compiled id

  abbrev set_up : ℕ → I2cConfig → State → Rc × State
  set_up id c s = let (done, s') = transfer_setup id c.speed s in (rc_of done, s')

  -- Only the case of the first line looks at the mode.
  unfoldable pub arch_i2c_impl_open : ℕ → Option I2cConfig → State → Rc × State
  arch_i2c_impl_open id cfg s =
      if has_case id
      then (if has_i2c id
          then elim cfg [
            | none ↦ (success, s)
            | some c ↦ if id == 0 && is_slave c.bs then (failure, s) else set_up id c s
          ]
          else (failure, s))
      else (failure, s)

  -- The bytes are what is put into the buffer.
  unfoldable pub arch_i2c_impl_read : ℕ → ℕ → ℕ → State → Rc × List ℕ × State
  arch_i2c_impl_read id addr len s =
      if has_case id
      then (let (done, bytes, s') = i2c_read id addr len s in (rc_of done, bytes, s'))
      else (failure, [], s)

  unfoldable pub arch_i2c_impl_write : ℕ → ℕ → List ℕ → State → Rc × State
  arch_i2c_impl_write id addr bytes s =
      if has_case id
      then (let (done, s') = i2c_write id addr bytes s in (rc_of done, s'))
      else (failure, s)

  unfoldable pub arch_i2c_impl_write_read : ℕ → ℕ → List ℕ → ℕ → State → Rc × List ℕ × State
  arch_i2c_impl_write_read id addr bytes rlen s =
      if has_case id
      then (let (done, got, s') = write_then_read id addr bytes rlen s in (rc_of done, got, s'))
      else (failure, [], s)

  unfoldable pub arch_i2c_impl_set_callback : ℕ → ℕ → ℕ → State → Rc × State
  arch_i2c_impl_set_callback id cb ctx s =
      if has_case id then (success, callback_register id cb ctx s) else (failure, s)

  -- `has_any` is `arch_has_i2c`; `arch_i2c_impl_init` does nothing.
  unfoldable pub arch_i2c_init : Bool → Rc
  arch_i2c_init has_any = rc_of has_any

  unfoldable pub arch_i2c_open : Bool → ℕ → Option I2cConfig → State → Rc × State
  unfolding arch_i2c_impl_open
  arch_i2c_open has_any id cfg s =
      if has_any
      then elim cfg [
        | none ↦ arch_i2c_impl_open id none s
        | some c ↦ if is_slave c.bs then (failure, s) else arch_i2c_impl_open id (some c) s
      ]
      else (failure, s)

  unfoldable pub arch_i2c_read : ℕ → ℕ → ℕ → State → Rc × List ℕ × State
  unfolding arch_i2c_impl_read
  arch_i2c_read id addr len s = arch_i2c_impl_read id addr len s

  unfoldable pub arch_i2c_write : ℕ → ℕ → List ℕ → State → Rc × State
  unfolding arch_i2c_impl_write
  arch_i2c_write id addr bytes s = arch_i2c_impl_write id addr bytes s

  unfoldable pub arch_i2c_write_read : ℕ → ℕ → List ℕ → ℕ → State → Rc × List ℕ × State
  unfolding arch_i2c_impl_write_read
  arch_i2c_write_read id addr bytes rlen s = arch_i2c_impl_write_read id addr bytes rlen s

  unfoldable pub arch_i2c_set_callback : ℕ → ℕ → ℕ → State → Rc × State
  unfolding arch_i2c_impl_set_callback
  arch_i2c_set_callback id cb ctx s = arch_i2c_impl_set_callback id cb ctx s
