-- ===== src/Sched/Unlink.antt =====
-- The removal by its id of a task that is not the head (kernel/scheduler/scheduler.c).
use xhopin.Base.{
  ℕ, zero, suc, ◌≡◌, ◌≢◌, ◌<◌, sym, ◌∙◌, ap, subst, some, arith, List, [], ◌∷◌, ◌++◌, All, ok, wild,
  ◌==◌, false, true, length, success,
}
use xhopin.Kernel.{Kernel, Task, Allocator}
use xhopin.Store.{Store, load, put, load-some, load-drop_self, load-put_ne}
use xhopin.Sched.{task_destroy_by_id, finish_destroy, find_target, unlink_behind, is_self, set_next}
use xhopin.Sched.Ring.{Links, IsRing, Avoids, first, Links-drop, load-HasNext}
use xhopin.Sched.Relink.{last_of, relink, Links-middle, Distinct-cut, last_of-Avoids}
use xhopin.Sched.Remove.{HoldsVm, finish_destroy-freed}

-- No live task of the list has the id.
abbrev pub NoneHas : Store Task → ℕ → List ℕ → Type 0
NoneHas tasks id ps = All (λ p. (t : Task) → tasks p ≡ some t → t.id ≢ id) ps

find_target-hit :
    (tasks : Store Task) (n ready id prev p : ℕ) (t : Task)
    → p ≢ ready
    → load tasks p ≡ ok t
    → t.id ≡ id
    → find_target (suc n) tasks ready id prev p ≡ ok (some (prev, p))
unfolding find_target
find_target-hit tasks n ready id prev p t ne live same =
    let on : (p == ready) ≡ false = ground arith in
    let hit : (t.id == id) ≡ true = ground arith in
    rw (on, live, find_target)
      (ap
        (λ b. elim b [ true ↦ ok (some (prev, p)) | false ↦ find_target n tasks ready id p t.next ])
        hit)

find_target-on :
    (tasks : Store Task) (n ready id prev p : ℕ) (t : Task)
    → p ≢ ready
    → load tasks p ≡ ok t
    → t.id ≢ id
    → find_target (suc n) tasks ready id prev p ≡ find_target n tasks ready id p t.next
unfolding find_target
find_target-on tasks n ready id prev p t ne live other =
    let on : (p == ready) ≡ false = ground arith in
    let miss : (t.id == id) ≡ false = ground arith in
    rw (on, live, find_target)
      (ap
        (λ b. elim b [ true ↦ ok (some (prev, p)) | false ↦ find_target n tasks ready id p t.next ])
        miss)

-- The search behind the head finds the task, and the one before it.
find_target-found :
    (tasks : Store Task) (rounds ready id prev : ℕ) (xs : List ℕ) (p : ℕ) (ys : List ℕ) (t : Task)
    → Links tasks (xs ++ (p ∷ ys)) ready
    → Avoids ready (xs ++ (p ∷ ys))
    → NoneHas tasks id xs
    → tasks p ≡ some t
    → t.id ≡ id
    → length xs < rounds
    → find_target rounds tasks ready id prev (first (xs ++ (p ∷ ys)) ready)
      ≡ ok (some (last_of prev xs, p))
find_target-found tasks zero ready id prev xs p ys t l av ids live same fuel = absurd (omega arith)
find_target-found tasks (suc n) ready id prev [] p ys t l av ids live same fuel =
    find_target-hit tasks n ready id prev p t av.0 (load-some tasks p t l.0.ne_null live) same
find_target-found tasks (suc n) ready id prev (x ∷ xs) p ys t (h, l) av ids live same fuel =
    find_target-on tasks n ready id prev x h.task av.0 (load-HasNext h) (ids.0 h.task h.live)
    ∙ ap (find_target n tasks ready id x) h.next
    ∙ find_target-found tasks n ready id x xs p ys t l av.1 ids.1 live same (omega arith)

module _ (A : Allocator) where
  open A use {Mem}

  task_destroy_by_id-found :
      (rounds id : ℕ) (k k' : Kernel Mem) (r : Task) (prev p : ℕ)
      → is_self id k ≡ ok false
      → (k.ready_list == 0) ≡ false
      → load k.tasks k.ready_list ≡ ok r
      → (r.id == id) ≡ false
      → find_target rounds k.tasks k.ready_list id k.ready_list r.next ≡ ok (some (prev, p))
      → unlink_behind prev p k ≡ ok k'
      → task_destroy_by_id A rounds id k ≡ finish_destroy A p k'
  unfolding task_destroy_by_id
  task_destroy_by_id-found rounds id k k' r prev p self busy loaded other found cut =
      rw (self, loaded, busy, other, found, cut)

  -- `t` at `p` is taken out from behind the task at `prev`.
  unlink_behind-relinked :
      (prev p : ℕ) (k : Kernel Mem) (w t : Task)
      → load k.tasks p ≡ ok t
      → load k.tasks prev ≡ ok w
      → unlink_behind prev p k
        ≡ ok (record k { tasks = put k.tasks prev (record w { next = t.next }) })
  unfolding unlink_behind set_next
  unlink_behind-relinked prev p k w t live before = rw (live, before)

  -- Destroying by its id a live task of a ring that is not the head, and not the one that has the CPU,
  -- with private data that is NULL or a live machine, and no task with the id before it, succeeds in as
  -- many rounds as the task has others before it, and leaves a ring of the other tasks, in the same
  -- order and with the same head; the task itself is freed.
  pub task_destroy_by_id-behind :
      (rounds id : ℕ) (k : Kernel Mem) (r : ℕ) (xs : List ℕ) (p : ℕ) (ys : List ℕ) (t : Task)
      → IsRing k r (xs ++ (p ∷ ys))
      → is_self id k ≡ ok false
      → k.tasks p ≡ some t
      → t.id ≡ id
      → NoneHas k.tasks id (r ∷ xs)
      → HoldsVm A t k
      → length xs < rounds
      → (g : Kernel Mem) × (task_destroy_by_id A rounds id k ≡ ok (success, g))
        × IsRing g r (xs ++ ys)
        × (load g.tasks p ≡ wild)
  task_destroy_by_id-behind rounds id k r xs p ys t ring self live same ids holds fuel =
      let h = ring.links.0 in
      let middle = Links-middle k.tasks xs p ys r ring.links.1 in
      let loaded : load k.tasks p ≡ ok t = load-some k.tasks p t middle.0.ne_null live in
      let (apart, prev_ne) = last_of-Avoids r xs p ys ring.distinct in
      let (w, before, nz, n, links) =
        relink k.tasks r xs (p ∷ ys) ys r r ring.links ring.distinct middle.1 apart in
      let t_next : t.next ≡ first ys r = ground (arith, middle.0.live, middle.0.next) in
      let prev = last_of r xs in
      let k' : Kernel Mem = record k { tasks = put k.tasks prev (record w { next = t.next }) } in
      let cut = unlink_behind-relinked prev p k w t loaded (load-some k.tasks prev w nz before) in
      let still : load k'.tasks p ≡ ok t =
        load-put_ne k.tasks prev p (record w { next = t.next }) (λ e. prev_ne (sym e)) ∙ loaded in
      let (g, ran, tasks, ready) = finish_destroy-freed A k' p t still holds in
      let found =
        ap (λ q. find_target rounds k.tasks q id q h.task.next) ring.head
        ∙ ap (find_target rounds k.tasks r id r) h.next
        ∙ find_target-found k.tasks rounds r id r xs p ys t ring.links.1 ring.distinct.0 ids.1 live
            same fuel in
      let (others, nowhere) = Distinct-cut (r ∷ xs) p ys ring.distinct in
      let relinked : Links k'.tasks (r ∷ (xs ++ ys)) r =
        subst (λ q. Links (put k.tasks prev (record w { next = q })) (r ∷ (xs ++ ys)) r)
          (sym t_next) links in
      (
        g,
        task_destroy_by_id-found rounds id k k' h.task prev p self
              (ground (arith, ring.head, h.ne_null))
              (subst (λ q. load k.tasks q ≡ ok h.task) (sym ring.head) (load-HasNext h))
              (ground (arith, ids.0 h.task h.live)) found cut
            ∙ ran,
        record {
          head = ready ∙ ring.head;
          links =
              subst (λ s. Links s (r ∷ (xs ++ ys)) r) (sym tasks)
                (Links-drop k'.tasks p (r ∷ (xs ++ ys)) r nowhere relinked);
          distinct = others;
        },
        subst (λ s. load s p ≡ wild) (sym tasks) (load-drop_self k'.tasks p),
      )
