-- ===== src/Sched/Clock.antt =====
-- The clock of the scheduler: `task_get_system_cycles` and `timer_callback` of
-- kernel/scheduler/scheduler.c. What the counter of the core timer shows is an argument.
use xhopin.Base.{
  ℕ, ◌+◌, ◌-◌, ◌%◌, ◌^◌, ◌≡◌, ◌≢◌, ◌≤◌, ◌<◌, ◌==◌, if◌then◌else◌, false, List, [], ◌∷◌, Run, refl,
  ◌∙◌, ap, arith,
}
use xhopin.Word.{sub32}
use xhopin.Kernel.{Kernel}
use xhopin.Sched.{switch_to_next}

-- The static variables of `task_get_system_cycles`.
pub record SystemCycles : Type 0 where
  pub system_cycles : ℕ
  pub last_system_count : ℕ

unfoldable pub task_get_system_cycles : ℕ → SystemCycles → ℕ × SystemCycles
task_get_system_cycles now s =
    let total =
      if s.last_system_count == 0
      then s.system_cycles
      else (s.system_cycles + sub32 now s.last_system_count) % 2 ^ 64 in
    (total, record { system_cycles = total; last_system_count = now })

unfoldable pub timer_callback : {Mem : Type 0} → ℕ → ℕ → Kernel Mem → Run (Kernel Mem)
unfolding switch_to_next
timer_callback now now' k = switch_to_next now now' k

-- Calls at the cycles `ts`, of which the counter shows the low 32 bits: the state after them.
unfoldable pub calls : List ℕ → SystemCycles → SystemCycles
unfolding task_get_system_cycles
calls [] s = s
calls (t ∷ ts) s = calls ts (task_get_system_cycles (t % 2 ^ 32) s).1

-- Each call comes less than 2 ^ 32 cycles after the one before, and at none the counter shows 0.
abbrev pub Frequent : ℕ → List ℕ → Type 0
Frequent t [] = Unit
Frequent t (t' ∷ ts) = (t ≤ t') × (t' < t + 2 ^ 32) × (t' % 2 ^ 32 ≢ 0) × Frequent t' ts

abbrev pub last_time : ℕ → List ℕ → ℕ
last_time t [] = t
last_time t (t' ∷ ts) = last_time t' ts

last_time-Frequent : (t : ℕ) (ts : List ℕ) → Frequent t ts → t ≤ last_time t ts
last_time-Frequent t [] f = omega arith
last_time-Frequent t (t' ∷ ts) (le, lt, ne, f) =
    let rest = last_time-Frequent t' ts f in omega arith

one_call :
    (t t' total : ℕ)
    → t ≤ t'
    → t' < t + 2 ^ 32
    → t % 2 ^ 32 ≢ 0
    → (task_get_system_cycles
        (t' % 2 ^ 32)
        (record { system_cycles = total; last_system_count = t % 2 ^ 32 })).1
      ≡ record { system_cycles = (total + (t' - t)) % 2 ^ 64; last_system_count = t' % 2 ^ 32 }
unfolding task_get_system_cycles
one_call t t' total le lt ne =
    let later : (t % 2 ^ 32 == 0) ≡ false = ground arith in
    let gap : sub32 (t' % 2 ^ 32) (t % 2 ^ 32) ≡ t' - t = omega arith in rw (later, gap) refl

calls-elapsed :
    (t : ℕ) (ts : List ℕ) (total : ℕ)
    → t % 2 ^ 32 ≢ 0
    → total < 2 ^ 64
    → Frequent t ts
    → (calls ts (record { system_cycles = total; last_system_count = t % 2 ^ 32 })).system_cycles
      ≡ (total + (last_time t ts - t)) % 2 ^ 64
unfolding calls
calls-elapsed t [] total ne small f = omega arith
calls-elapsed t (t' ∷ ts) total ne small (le, lt, ne', f) =
    let after = last_time-Frequent t' ts f in
    ap (λ s. (calls ts s).system_cycles) (one_call t t' total le lt ne)
    ∙ calls-elapsed t' ts ((total + (t' - t)) % 2 ^ 64) ne' (omega arith) f
    ∙ omega arith

-- After calls that each come less than 2 ^ 32 cycles after the one before, none of them when the
-- counter shows 0, task_get_system_cycles has counted the cycles from the first call to the last, as a
-- 64-bit number, however often the 32-bit counter has wrapped round.
pub task_get_system_cycles-elapsed :
    (t : ℕ) (ts : List ℕ)
    → t % 2 ^ 32 ≢ 0
    → Frequent t ts
    → (calls (t ∷ ts) (record { system_cycles = 0; last_system_count = 0 })).system_cycles
      ≡ (last_time t ts - t) % 2 ^ 64
unfolding calls
task_get_system_cycles-elapsed t ts ne f = calls-elapsed t ts 0 ne (omega arith) f ∙ omega arith
