-- ===== src/Tick.antt =====
-- The tick of the kernel: kernel/timer/kernel_tick.c, arch/arch_core_timer.c and
-- arch/mips/impl/harmony/core_timer_impl.c, over the timer of Systick. `has_timer` is
-- `arch_has_core_timer`.
use xhopin.Base.{ℕ, ◌+◌, ◌≡◌, Bool, true, false, refl, if◌then◌else◌, Rc, success, failure}
use xhopin.Systick.{Timer, arch_systick_init, arch_systick_enable_interrupt}

-- `timer_context.counter` and `c`
pub record Counters : Type 0 where
  pub counter : ℕ
  pub c : ℕ

-- An overflow of `long` has no meaning in C and is not modelled.
unfoldable pub callback : Counters → Counters
callback k = record { counter = k.counter + 1; c = k.c + 1 }

-- The answer of `arch_systick_init` is not looked at.
unfoldable pub arch_core_timer_impl_init : ℕ → Timer → Timer
unfolding arch_systick_init
arch_core_timer_impl_init core_timer_hz t = (arch_systick_init core_timer_hz true 400000 t).1

-- The callback and its context are not kept.
unfoldable pub arch_core_timer_impl_set_callback : ℕ → ℕ → Timer → Timer
arch_core_timer_impl_set_callback cb context t = t

unfoldable pub arch_core_timer_impl_enable_interrupt : Timer → Timer
unfolding arch_systick_enable_interrupt
arch_core_timer_impl_enable_interrupt t = arch_systick_enable_interrupt true t

-- It returns no value, and none is used.
unfoldable pub arch_core_timer_init : ℕ → Timer → Timer
unfolding arch_core_timer_impl_init
arch_core_timer_init core_timer_hz t = arch_core_timer_impl_init core_timer_hz t

unfoldable pub arch_core_timer_set_callback : Bool → ℕ → ℕ → Timer → Rc × Timer
unfolding arch_core_timer_impl_set_callback
arch_core_timer_set_callback has_timer cb ptr t =
    if has_timer then (success, arch_core_timer_impl_set_callback cb ptr t) else (failure, t)

unfoldable pub arch_core_timer_enable_interrupt : Timer → Timer
unfolding arch_core_timer_impl_enable_interrupt
arch_core_timer_enable_interrupt t = arch_core_timer_impl_enable_interrupt t

-- `cb` and `cxt` are the addresses of `callback` and of `timer_context`.
unfoldable pub systick_init : ℕ → Bool → ℕ → ℕ → Timer → Timer
unfolding arch_core_timer_init arch_core_timer_set_callback
systick_init core_timer_hz has_timer cb cxt t =
    (arch_core_timer_set_callback has_timer cb cxt (arch_core_timer_init core_timer_hz t)).1

-- The start of the tick sets the timer up for a period of 400000 cycles, whether the processor has a
-- core timer or not, and is the same whatever callback is given.
systick_init_lem :
    (core_timer_hz : ℕ) (has_timer : Bool) (cb cxt : ℕ) (t : Timer)
    → systick_init core_timer_hz has_timer cb cxt t
      ≡ (arch_systick_init core_timer_hz true 400000 t).1
unfolding systick_init
systick_init_lem core_timer_hz true cb cxt t = refl
systick_init_lem core_timer_hz false cb cxt t = refl
