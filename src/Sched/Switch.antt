-- ===== src/Sched/Switch.antt =====
-- The round robin of kernel/scheduler/scheduler.c: what `switch_to_next` does on a ring of tasks.
use mathlib.Core.List.{append_assoc, append-nil}
use xhopin.Base.{
  ℕ, ◌+◌, ◌%◌, ◌^◌, ◌≡◌, refl, some, arith, List, [], ◌∷◌, ◌++◌, Run, ok, ◌>>=◌, ◌==◌, false, true,
  ◌⊎◌, inl, inr, length,
}
use xhopin.Word.{sub32}
use xhopin.Kernel.{Kernel, Task}
use xhopin.Store.{load, put}
use xhopin.Sched.{switch_to_next, charge}
use xhopin.Sched.Ring.{
  HasNext, IsRing, first, Links-put_same, Links-append, Distinct-rotate, load-HasNext,
}

module _ {Mem : Type 0} where
  -- The task that has the CPU is the head of the ring, or there is none.
  abbrev pub AtHead : Kernel Mem → ℕ → Type 0
  AtHead k r = (k.current_task ≡ 0) ⊎ (k.current_task ≡ r)

  -- Charging the current task changes its account alone.
  charge-IsRing :
      (now : ℕ) (k : Kernel Mem) (r : ℕ) (rest : List ℕ)
      → IsRing k r rest
      → AtHead k r
      → (g : Kernel Mem) × (charge now k ≡ ok g)
        × IsRing g r rest
        × (g.current_task ≡ k.current_task)
  unfolding charge
  charge-IsRing now k r rest ring (inl none) =
      let idle : (k.current_task == 0) ≡ true = ground arith in (k, rw idle, ring, refl)
  charge-IsRing now k r rest ring (inr at) = (
    record k { tasks = put k.tasks k.current_task charged },
    rw (busy, live),
    record {
      head = ring.head;
      links =
          Links-put_same k.tasks k.current_task h.task charged (r ∷ rest) r found refl ring.links;
      distinct = ring.distinct;
    },
    refl,
  )
    where
      h : HasNext k.tasks r (first rest r)
      h = ring.links.0

      busy : (k.current_task == 0) ≡ false
      busy = ground (arith, h.ne_null)

      found : k.tasks k.current_task ≡ some h.task
      found = rw at h.live

      live : load k.tasks k.current_task ≡ ok h.task
      live = rw at (load-HasNext h)

      charged : Task
      charged = record (h.task) {
        total_cycles = (h.task.total_cycles + sub32 now h.task.last_count) % 2 ^ 64;
      }

  -- A switch on a ring of at least two tasks, of which the head or none has the CPU, gives the CPU
  -- to the task behind the head, which becomes the head; the old head goes to the end of the ring.
  pub switch_to_next-IsRing :
      (now now' : ℕ) (k : Kernel Mem) (r q : ℕ) (rest : List ℕ)
      → IsRing k r (q ∷ rest)
      → AtHead k r
      → (g : Kernel Mem) × (switch_to_next now now' k ≡ ok g)
        × IsRing g q (rest ++ (r ∷ []))
        × (g.current_task ≡ q)
  unfolding switch_to_next
  switch_to_next-IsRing now now' k r q rest ring at =
      let (c, charged, ring', same) = charge-IsRing now k r (q ∷ rest) ring at in
      let h = ring'.links.0 in
      let b = ring'.links.1.0 in
      let t : Task = record (b.task) { last_count = now' } in
      let busy : (k.ready_list == 0) ≡ false = ground (arith, ring.head, ring.links.0.ne_null) in
      let fresh : (h.task.next == c.current_task) ≡ false =
        ground (arith, h.next, same, at, b.ne_null, ring.distinct.0.0) in
      (
        record c { ready_list = q; current_task = q; tasks = put c.tasks q t },
        rw (busy, charged, ring'.head, load-HasNext h, fresh, h.next, load-HasNext b),
        record {
          head = refl;
          links =
              Links-put_same c.tasks q b.task t (q ∷ (rest ++ (r ∷ []))) q b.live refl
                (Links-append c.tasks (q ∷ rest) r q ring'.links.1 h);
          distinct = Distinct-rotate r (q ∷ rest) ring'.distinct;
        },
        refl,
      )

  -- One switch for each pair of counter readings, and which task had the CPU after each.
  pub switches : List (ℕ × ℕ) → Kernel Mem → Run (List ℕ × Kernel Mem)
  switches [] k = ok ([], k)
  switches ((now, now') ∷ clock) k = do
    g ← switch_to_next now now' k
    (rs, g') ← switches clock g
    ok (g.current_task ∷ rs, g')

  switches-in_order :
      (clock : List (ℕ × ℕ)) (k : Kernel Mem) (r : ℕ) (ys zs : List ℕ)
      → IsRing k r (ys ++ zs)
      → AtHead k r
      → length clock ≡ length ys
      → (g : Kernel Mem) × (switches clock k ≡ ok (ys, g))
  unfolding switches
  switches-in_order [] k r [] zs ring at e = (k, refl)
  switches-in_order [] k r (y ∷ ys) zs ring at e = absurd (omega arith)
  switches-in_order (c ∷ clock) k r [] zs ring at e = absurd (omega arith)
  switches-in_order ((now, now') ∷ clock) k r (y ∷ ys) zs ring at e =
      let (g, ran, ring', cur) = switch_to_next-IsRing now now' k r y (ys ++ zs) ring at in
      let (g', rest) =
        switches-in_order clock g y ys (zs ++ (r ∷ [])) (rw append_assoc at ring') (inr cur)
          (omega arith) in
      (g', rw (ran, rest, cur))

  -- On a ring of which the head or no task has the CPU, in as many switches as the ring has other
  -- tasks, each of them gets the CPU once, in the order of the ring, whatever the counter shows.
  pub switches-round_robin :
      (clock : List (ℕ × ℕ)) (k : Kernel Mem) (r : ℕ) (rest : List ℕ)
      → IsRing k r rest
      → AtHead k r
      → length clock ≡ length rest
      → (g : Kernel Mem) × (switches clock k ≡ ok (rest, g))
  switches-round_robin clock k r rest ring at e =
      switches-in_order clock k r rest [] (rw append-nil ring) at e
