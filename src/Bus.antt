-- ===== src/Bus.antt =====
-- The two buses: arch/arch_bus.h, and I2C and SPI over the vendor's drivers, which are parameters.
pub mod I2c
pub mod Spi
pub mod Lines
use xhopin.Base.{ℕ, Bool, true, false, ◌==◌, Rc, success, failure, Option, none, some}

-- `arch_bus_config_t`, as far as the code reads it: a mode is 0 for a master.
pub record BusConfig : Type 0 where
  pub mode : ℕ
  pub role : ℕ

abbrev pub rc_of : Bool → Rc
rc_of true = success
rc_of false = failure

-- `mode != ARCH_BUS_MODE_MASTER`
abbrev pub is_slave : BusConfig → Bool
is_slave c = elim (c.mode == 0) [ true ↦ false | false ↦ true ]
