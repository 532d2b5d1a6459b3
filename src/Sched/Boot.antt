-- ===== src/Sched/Boot.antt =====
-- The start of the tasks: `scheduler_init` of kernel/scheduler/scheduler.c, `event_system_init` of
-- kernel/event/event.c, and the first switch.
use xhopin.Base.{
  ℕ, ◌≡◌, ◌≢◌, refl, sym, ◌∙◌, inl, arith, subst, [], ◌∷◌, ok, spin, Run, ◌>>=◌, ◌==◌, false,
  if◌then◌else◌,
}
use xhopin.Kernel.{Kernel, Allocator}
use xhopin.Sched.{task_create, scheduler_init, switch_to_next}
use xhopin.Sched.Ring.{IsRing}
use xhopin.Sched.Switch.{switch_to_next-IsRing}
use xhopin.Sched.Create.{HasRoom, task_create-first, task_create-IsRing}

module _ (A : Allocator) where
  open A use {Mem}

  -- The code of the dispatcher's task is `entry`. The result holds `dispatcher_task`; without a task the
  -- code stays in an empty loop.
  unfoldable pub event_system_init : ℕ → ℕ → Kernel Mem → Run (ℕ × Kernel Mem)
  unfolding task_create
  event_system_init now entry k = do
    (p, k') ← task_create A now entry 0 1024 k
    if p == 0 then spin else ok (p, k')

  scheduler_init-IsRing :
      (now entry idle : ℕ) (k : Kernel Mem) (m : Mem)
      → k.ready_list ≡ 0
      → HasRoom A 1024 k.mem idle m
      → (g : Kernel Mem) × (scheduler_init A now entry k ≡ ok g)
        × IsRing g idle []
        × (g.mem ≡ m)
        × (g.current_task ≡ 0)
  unfolding scheduler_init
  scheduler_init-IsRing now entry idle k m none_yet room =
      let (g, ran, (ring, mem, cur)) =
        task_create-first A now entry 0 1024 idle k m room none_yet in
      let made : (idle == 0) ≡ false = ground (arith, room.task_ne) in
      let linked : (g.ready_list == 0) ≡ false = ground (arith, ring.head, room.task_ne) in
      (
        record g { current_task = 0 },
        rw (ran, made, linked),
        record { head = ring.head; links = ring.links; distinct = ring.distinct },
        mem,
        refl,
      )

  -- From an empty list, and with memory for two tasks, scheduler_init and event_system_init leave a ring
  -- of the idle task and the dispatcher's, of which none has the CPU; the first switch gives it to the
  -- dispatcher.
  pub first_switch :
      (now now' t t' entry entry' idle d : ℕ) (k : Kernel Mem) (m m' : Mem)
      → k.ready_list ≡ 0
      → HasRoom A 1024 k.mem idle m
      → HasRoom A 1024 m d m'
      → d ≢ idle
      → (g h j : Kernel Mem) × (scheduler_init A now entry k ≡ ok g)
        × (event_system_init now' entry' g ≡ ok (d, h))
        × IsRing h idle (d ∷ [])
        × (h.current_task ≡ 0)
        × (switch_to_next t t' h ≡ ok j)
        × IsRing j d (idle ∷ [])
        × (j.current_task ≡ d)
  unfolding event_system_init
  first_switch now now' t t' entry entry' idle d k m m' none_yet room room' ne =
      let (g, began, ring, mem, cur) = scheduler_init-IsRing now entry idle k m none_yet room in
      let (h, ran, (ring', mem', cur')) =
        task_create-IsRing A now' entry' 0 1024 d idle [] g m'
          (subst (λ x. HasRoom A 1024 x d m') (sym mem) room') ring ((λ e. ne (sym e)), tt) in
      let made : (d == 0) ≡ false = ground (arith, room'.task_ne) in
      let (j, switched, ring'', at) =
        switch_to_next-IsRing t t' h idle d [] ring' (inl (cur' ∙ cur)) in
      (g, h, j, began, rw (ran, made), ring', cur' ∙ cur, switched, ring'', at)
