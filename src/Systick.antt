-- ===== src/Systick.antt =====
-- The system tick: arch/mips/impl/pic32mx_systick_impl.c. The core timer counts by itself: what its
-- Count register shows at a read is an argument. `pending` and `enabled` are the timer's bits in the
-- registers IFS0 and IEC0.
pub mod Period
use xhopin.Base.{ℕ, Bool, true, false, leb, ◌==◌, ◌||◌, not, if◌then◌else◌, Rc, success, failure}
use xhopin.Word.{add32}

-- `struct ArchSysTick`, of which there is one
pub record Tick : Type 0 where
  pub frequency : ℕ
  pub period : ℕ
  pub counter : ℕ
  pub compare : ℕ
  pub initialized : Bool

-- The structure, and the registers of the timer.
pub record Timer : Type 0 where
  pub tick : Tick
  pub compare_reg : ℕ
  pub pending : Bool
  pub enabled : Bool

unfoldable pub arch_systick_get_period : Timer → ℕ
arch_systick_get_period t = t.compare_reg

-- `given` says whether the pointer is not NULL.
unfoldable pub arch_systick_get_frequency : Bool → Timer → ℕ
arch_systick_get_frequency given t = if given then t.tick.frequency else 0

-- `CORE_TIMER_HZ` is a constant of the processor.
unfoldable pub arch_systick_init : ℕ → Bool → ℕ → Timer → Rc × Timer
arch_systick_init core_timer_hz given period_cycles t =
    if given
    then (
      success,
      record t {
        tick = record {
          frequency = core_timer_hz;
          period = period_cycles;
          counter = 0;
          compare = period_cycles;
          initialized = true;
        };
        compare_reg = period_cycles;
      },
    )
    else (failure, t)

unfoldable pub arch_systick_set_period : Bool → ℕ → Timer → Timer
arch_systick_set_period given period_cycles t =
    if given
    then record t {
      tick = record (t.tick) {
        period = period_cycles;
        compare = add32 t.compare_reg period_cycles;
      };
      compare_reg = add32 t.compare_reg period_cycles;
    }
    else t

-- The priority of the interrupt is not modelled.
unfoldable pub arch_systick_enable_interrupt : Bool → Timer → Timer
arch_systick_enable_interrupt given t =
    if given then record t { pending = false; enabled = true } else t

unfoldable pub arch_systick_clear_interrupt : Bool → Timer → Timer
arch_systick_clear_interrupt given t = if given then record t { pending = false } else t

unfoldable pub arch_systick_start : Bool → ℕ → Timer → Timer
arch_systick_start given count t =
    if given
    then if leb t.compare_reg count then record t { compare_reg = add32 count t.tick.period } else t
    else t

unfoldable pub arch_systick_stop : Bool → Timer → Timer
arch_systick_stop given t = if given then record t { enabled = false } else t

unfoldable pub arch_systick_tick : Bool → Timer → Timer
arch_systick_tick given t = if not given || not t.tick.initialized then t else record t {
  tick = record (t.tick) { compare = add32 t.compare_reg t.tick.period };
  compare_reg = add32 t.compare_reg t.tick.period;
}
