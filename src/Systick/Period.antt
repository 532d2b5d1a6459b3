-- ===== src/Systick/Period.antt =====
-- The period of the tick (arch/mips/impl/pic32mx_systick_impl.c), in cycles of the processor's core
-- timer, which is a parameter: its 32-bit register Count counts the cycles, and there is an interrupt
-- when it comes to what the register Compare holds.
use xhopin.Base.{
  ℕ, zero, suc, ◌+◌, ◌%◌, ◌≡◌, ◌∙◌, ◌<◌, ◌≤◌, refl, ap, true, List, [], ◌∷◌, All, length, arith,
  success,
}
use xhopin.Word.{w32, add32}
use xhopin.Systick.{Timer, arch_systick_init, arch_systick_tick}

-- The hardware: the first cycle after `now` at which Count shows `compare`. Cycles are numbered without
-- end, and Count shows the low 32 bits.
pub record CoreTimer : Type 0 where
  pub match : ℕ → ℕ → ℕ
  pub later : (now compare : ℕ) → now < match now compare
  pub shows : (now compare : ℕ) → compare < w32 → match now compare % w32 ≡ compare
  pub first :
      (now compare cycle : ℕ) → now < cycle → cycle % w32 ≡ compare → match now compare ≤ cycle

-- The cycles `due`, `due + period` and so on, `n` more of them.
pub beats : ℕ → ℕ → ℕ → List ℕ
beats due period zero = due ∷ []
beats due period (suc n) = due ∷ beats (due + period) period n

-- What holds between two interrupts: the structure agrees with the register.
record IsRunning (period : ℕ) (t : Timer) : Type 0 where
  ready : t.tick.initialized ≡ true
  period_kept : t.tick.period ≡ period
  word : t.compare_reg < w32

arch_systick_tick-IsRunning :
    (period : ℕ) (t : Timer)
    → IsRunning period t
    → IsRunning period (arch_systick_tick true t)
      × ((arch_systick_tick true t).compare_reg ≡ add32 t.compare_reg period)
unfolding arch_systick_tick
arch_systick_tick-IsRunning period t h = ground arith

module _ (T : CoreTimer) where
  open T use {match, later, shows, first}

  -- The cycles of the interrupts, from `due` on. Each of the `delays` is how many cycles after its
  -- interrupt `arch_systick_tick` is called.
  pub interrupts : List ℕ → ℕ → Timer → List ℕ
  interrupts [] due t = due ∷ []
  interrupts (delay ∷ delays) due t =
      let t' = arch_systick_tick true t in
      due ∷ interrupts delays (match (due + delay) t'.compare_reg) t'

  match-on_time :
      (due delay period compare : ℕ)
      → due % w32 ≡ compare
      → period < w32
      → delay < period
      → match (due + delay) (add32 compare period) ≡ due + period
  match-on_time due delay period compare at small on_time =
      let after = later (due + delay) (add32 compare period) in
      let shown = shows (due + delay) (add32 compare period) (omega arith) in
      let least =
        first (due + delay) (add32 compare period) (due + period) (omega arith) (omega arith) in
      omega (arith, after, shown, least)

  match-late :
      (due delay period compare : ℕ)
      → due % w32 ≡ compare
      → period ≤ delay
      → delay < period + w32
      → match (due + delay) (add32 compare period) ≡ due + period + w32
  match-late due delay period compare at late bounded =
      let after = later (due + delay) (add32 compare period) in
      let shown = shows (due + delay) (add32 compare period) (omega arith) in
      let least =
        first (due + delay) (add32 compare period) (due + period + w32) (omega arith)
          (omega arith) in
      omega (arith, after, shown, least)

  interrupts-beats :
      (period : ℕ) (delays : List ℕ) (due : ℕ) (t : Timer)
      → IsRunning period t
      → due % w32 ≡ t.compare_reg
      → period < w32
      → All (λ d. d < period) delays
      → interrupts delays due t ≡ beats due period (length delays)
  unfolding interrupts beats
  interrupts-beats period [] due t h at small ok = refl
  interrupts-beats period (d ∷ delays) due t h at small (on_time, rest) =
      let t' = arch_systick_tick true t in
      let (h', next) = arch_systick_tick-IsRunning period t h in
      let exact : match (due + d) t'.compare_reg ≡ due + period =
        ap (match (due + d)) next ∙ match-on_time due d period t.compare_reg at small on_time in
      ap (λ c. due ∷ interrupts delays c t') exact
      ∙ ap (λ xs. due ∷ xs)
          (interrupts-beats period delays (due + period) t' h' (omega (arith, next)) small rest)

  -- After the initialisation with a period below 2^32: if each interrupt is served less than a period
  -- after it came, the interrupts come exactly a period apart, from the first at which the counter shows
  -- the period, so that the delays do not add up; but when the first is served a period or more after it
  -- came, and less than 2^32 cycles after that, the second comes 2^32 cycles later than it should.
  pub interrupts-arch_systick_init :
      (hz period start late : ℕ) (delays : List ℕ) (t : Timer)
      → period < w32
      → All (λ d. d < period) delays
      → period ≤ late
      → late < period + w32
      → let (r, t') = arch_systick_init hz true period t in
        let due = match start period in
        (r ≡ success)
        × (interrupts delays due t' ≡ beats due period (length delays))
        × (interrupts (late ∷ []) due t' ≡ due ∷ (due + period + w32) ∷ [])
  unfolding arch_systick_init interrupts
  interrupts-arch_systick_init hz period start late delays t small on_time too_late bounded =
      let t' = (arch_systick_init hz true period t).1 in
      let due = match start period in
      let h : IsRunning period t' = record { ready = refl; period_kept = refl; word = small } in
      let at : due % w32 ≡ period = shows start period small in
      let (_, next) = arch_systick_tick-IsRunning period t' h in
      (
        refl,
        interrupts-beats period delays due t' h at small on_time,
        ap (λ c. due ∷ c ∷ [])
            (ap (match (due + late)) next ∙ match-late due late period period at too_late bounded),
      )
