-- ===== src/Sched/Current.antt =====
-- The end of the task that has the CPU: `task_destroy_current` of kernel/scheduler/scheduler.c, which
-- kernel/context/task_exit.c calls.
use mathlib.Core.List.{append-nil}
use xhopin.Base.{
  ℕ, zero, suc, ◌≡◌, ◌≢◌, ◌≤◌, refl, sym, ◌∙◌, ap, subst, some, arith, List, [], ◌∷◌, ok, wild,
  ◌==◌, false, true, length,
}
use xhopin.Kernel.{Kernel, Task, Allocator}
use xhopin.Store.{Store, load, put, load-some, load-drop_self, load-put_ne}
use xhopin.Sched.{
  task_destroy_current, task_exit_handler, find_prev, unlink_current, free_task, set_next,
}
use xhopin.Sched.Ring.{HasNext, Links, IsRing, Avoids, Distinct, Links-drop, load-HasNext}
use xhopin.Sched.Relink.{last_of, relink, last_of-Avoids_all}
use xhopin.Sched.Remove.{HoldsVm, free_task-SameList}

find_prev_end :
    (tasks : Store Task) (n r z : ℕ) → HasNext tasks z r → find_prev (suc n) tasks r r z ≡ ok z
unfolding find_prev
find_prev_end tasks n r z h =
    let end : (h.task.next == r) ≡ true = ground (arith, h.next) in
    rw (load-HasNext h, find_prev)
      (ap
        (λ b. elim b [
          | true ↦ ok z
          | false ↦ elim (h.task.next == r) [
            | true ↦ ok h.task.next
            | false ↦ find_prev n tasks r r h.task.next
          ]
        ])
        end)

find_prev_on :
    (tasks : Store Task) (n r z q : ℕ)
    → HasNext tasks z q
    → q ≢ r
    → find_prev (suc n) tasks r r z ≡ find_prev n tasks r r q
unfolding find_prev
find_prev_on tasks n r z q h ne =
    let on : (h.task.next == r) ≡ false = ground (arith, h.next) in
    rw (load-HasNext h, find_prev)
      (ap
          (λ b. elim b [
            | true ↦ ok z
            | false ↦ elim (h.task.next == r) [
              | true ↦ ok h.task.next
              | false ↦ find_prev n tasks r r h.task.next
            ]
          ])
          on
        ∙ ap (λ b. elim b [ true ↦ ok h.task.next | false ↦ find_prev n tasks r r h.task.next ]) on
        ∙ ap (find_prev n tasks r r) h.next)

-- The walk ends at the last task of the ring.
find_prev-last :
    (tasks : Store Task) (n r z : ℕ) (zs : List ℕ)
    → Links tasks (z ∷ zs) r
    → Avoids r zs
    → length (z ∷ zs) ≤ n
    → find_prev n tasks r r z ≡ ok (last_of z zs)
find_prev-last tasks zero r z zs l av fuel = absurd (omega arith)
find_prev-last tasks (suc n) r z [] (h, l) av fuel = find_prev_end tasks n r z h
find_prev-last tasks (suc n) r z (x ∷ zs) (h, l) av fuel =
    find_prev_on tasks n r z x h av.0 ∙ find_prev-last tasks n r x zs l av.1 (omega arith)

-- The last task of a list leads to another place.
close :
    (tasks : Store Task) (z : ℕ) (zs : List ℕ) (stop stop' : ℕ)
    → Links tasks (z ∷ zs) stop
    → Distinct (z ∷ zs)
    → (w : Task) × (tasks (last_of z zs) ≡ some w)
      × (last_of z zs ≢ 0)
      × (w.next ≡ stop)
      × Links (put tasks (last_of z zs) (record w { next = stop' })) (z ∷ zs) stop'
close tasks z zs stop stop' l d =
    subst
      (λ ps.
        (w : Task) × (tasks (last_of z zs) ≡ some w)
        × (last_of z zs ≢ 0)
        × (w.next ≡ stop)
        × Links (put tasks (last_of z zs) (record w { next = stop' })) (z ∷ ps) stop')
      (append-nil zs)
      (relink tasks z zs [] [] stop stop'
        (subst (λ ps. Links tasks (z ∷ ps) stop) (sym (append-nil zs)) l)
        (subst (λ ps. Distinct (z ∷ ps)) (sym (append-nil zs)) d) tt tt)

module _ {Mem : Type 0} where
  -- The head, which has the CPU, is taken out from behind the task at `prev`.
  unlink_current-relinked :
      (prev : ℕ) (k : Kernel Mem) (w t : Task)
      → load k.tasks k.current_task ≡ ok t
      → load k.tasks prev ≡ ok w
      → w.next ≡ k.current_task
      → prev ≢ k.current_task
      → k.ready_list ≡ k.current_task
      → t.next ≢ k.current_task
      → unlink_current prev k
        ≡ ok (record k {
          tasks = put k.tasks prev (record w { next = t.next });
          ready_list = t.next;
        })
  unfolding unlink_current set_next
  unlink_current-relinked prev k w t live before n ne head more =
      let leads : (w.next == k.current_task) ≡ true = ground arith in
      let at_head : (k.current_task == k.ready_list) ≡ true = ground arith in
      let others : (t.next == k.current_task) ≡ false = ground arith in
      let still : load (put k.tasks prev (record w { next = t.next })) k.current_task ≡ ok t =
        load-put_ne k.tasks prev k.current_task (record w { next = t.next }) (λ e. ne (sym e))
        ∙ live in
      rw (before, leads, live, still, at_head, others)

module _ (A : Allocator) where
  open A use {Mem}

  task_destroy_current-unlinked :
      (rounds : ℕ) (k k' g : Kernel Mem) (prev : ℕ) (t : Task)
      → (k.current_task == 0) ≡ false
      → find_prev rounds k.tasks k.ready_list k.current_task k.ready_list ≡ ok prev
      → unlink_current prev k ≡ ok k'
      → load k'.tasks k'.current_task ≡ ok t
      → free_task A true k'.current_task t k' ≡ ok g
      → task_destroy_current A rounds k ≡ ok (record g { current_task = 0 })
  unfolding task_destroy_current
  task_destroy_current-unlinked rounds k k' g prev t busy walk cut live freed =
      rw (busy, walk, cut, live, freed)

  -- When the task that has the CPU ends, as the head of a ring of at least two tasks and with private
  -- data that is NULL or a live machine, then in as many rounds as the ring has tasks the handler comes
  -- to its idle loop; the others are a ring in the same order, from the next task on, no task has the
  -- CPU, and the one that ended is freed.
  pub task_exit_handler-IsRing :
      (rounds : ℕ) (k : Kernel Mem) (q : ℕ) (rest : List ℕ) (t : Task)
      → IsRing k k.current_task (q ∷ rest)
      → k.tasks k.current_task ≡ some t
      → HoldsVm A t k
      → length (k.current_task ∷ q ∷ rest) ≤ rounds
      → (g : Kernel Mem) × (task_exit_handler A rounds k ≡ ok g)
        × IsRing g q rest
        × (g.current_task ≡ 0)
        × (load g.tasks k.current_task ≡ wild)
  unfolding task_exit_handler
  task_exit_handler-IsRing rounds k q rest t ring live holds fuel =
      let r = k.current_task in
      let h = ring.links.0 in
      let loaded : load k.tasks r ≡ ok t = load-some k.tasks r t h.ne_null live in
      let t_next : t.next ≡ q = ground (arith, h.live, h.next) in
      let t_ne : t.next ≢ r = λ e. ring.distinct.0.0 (sym t_next ∙ e) in
      let prev = last_of q rest in
      let (w, before, nz, n, links) = close k.tasks q rest r t.next ring.links.1 ring.distinct.1 in
      let ne : prev ≢ r = last_of-Avoids_all r q rest ring.distinct.0 in
      let walk =
        ap (λ p. find_prev rounds k.tasks p r p) ring.head
        ∙ find_prev-last k.tasks rounds r r (q ∷ rest) ring.links ring.distinct.0 fuel in
      let k' : Kernel Mem = record k {
        tasks = put k.tasks prev (record w { next = t.next });
        ready_list = t.next;
      } in
      let still : load k'.tasks r ≡ ok t =
        load-put_ne k.tasks prev r (record w { next = t.next }) (λ e. ne (sym e)) ∙ loaded in
      let (g, ran, tasks, ready, same) = free_task-SameList A true r t k' holds in
      let cut =
        unlink_current-relinked prev k w t loaded (load-some k.tasks prev w nz before) n ne
          ring.head t_ne in
      let closed : Links k'.tasks (q ∷ rest) q = subst (Links k'.tasks (q ∷ rest)) t_next links in
      (
        record g { current_task = 0 },
        task_destroy_current-unlinked rounds k k' g prev t (ground (arith, h.ne_null)) walk cut
            still ran,
        record {
          head = ready ∙ t_next;
          links =
              subst (λ s. Links s (q ∷ rest) q) (sym tasks)
                (Links-drop k'.tasks r (q ∷ rest) q ring.distinct.0 closed);
          distinct = ring.distinct.1;
        },
        refl,
        subst (λ s. load s r ≡ wild) (sym tasks) (load-drop_self k'.tasks r),
      )
