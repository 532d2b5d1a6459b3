-- ===== src/Sched/Cycles.antt =====
-- The walk of `task_get_cycles` (kernel/scheduler/scheduler.c) round the ready list.
use xhopin.Base.{
  ℕ, zero, suc, ◌≡◌, ◌≢◌, ◌<◌, ◌≤◌, ◌∙◌, arith, List, [], ◌∷◌, All, some, ok, wild, ◌==◌,
  if◌then◌else◌, false, true, Bool-cases, inl, inr, length, ap,
}
use xhopin.Kernel.{Kernel, Task}
use xhopin.Store.{Store, load}
use xhopin.Sched.{find_cycles, task_get_cycles}
use xhopin.Sched.Ring.{HasNext, Links, Avoids, IsRing, load-HasNext}

find_cycles-on :
    (tasks : Store Task) (n ready id p q : ℕ) (h : HasNext tasks p q)
    → h.task.id ≢ id
    → q ≢ ready
    → find_cycles (suc n) tasks ready id p ≡ find_cycles n tasks ready id q
unfolding find_cycles
find_cycles-on tasks n ready id p q h other ne =
    let miss : (h.task.id == id) ≡ false = ground arith in
    let on : (h.task.next == ready) ≡ false = ground (arith, h.next) in
    rw (load-HasNext h) (
      ap
        (λ b. elim b [
          | true ↦ ok h.task.total_cycles
          | false ↦ elim (h.task.next == ready) [
            | true ↦ ok 0
            | false ↦ find_cycles n tasks ready id h.task.next
          ]
        ])
        miss
      ∙ ap (λ b. elim b [ true ↦ ok 0 | false ↦ find_cycles n tasks ready id h.task.next ]) on
      ∙ ap (find_cycles n tasks ready id) h.next)

find_cycles-gone :
    (tasks : Store Task) (n ready id p : ℕ)
    → load tasks p ≡ wild
    → find_cycles (suc n) tasks ready id p ≡ wild
unfolding find_cycles
find_cycles-gone tasks n ready id p gone = rw gone

-- A search for the cycles of a task along links that end at a freed task, and meet the head
-- nowhere, reads the freed task, if none of the linked tasks has the id and there are more rounds
-- than linked tasks.
find_cycles-dangling :
    (tasks : Store Task) (rounds ready id r q : ℕ) (rest : List ℕ)
    → Links tasks (q ∷ rest) r
    → load tasks r ≡ wild
    → r ≢ ready
    → Avoids ready rest
    → All (λ p. (t : Task) → tasks p ≡ some t → t.id ≢ id) (q ∷ rest)
    → length (q ∷ rest) < rounds
    → find_cycles rounds tasks ready id q ≡ wild
find_cycles-dangling tasks zero ready id r q rest l gone ne av ids fuel = absurd (omega arith)
find_cycles-dangling tasks (suc zero) ready id r q rest l gone ne av ids fuel = absurd (omega arith)
find_cycles-dangling tasks (suc (suc n)) ready id r q [] (h, l) gone ne av ids fuel =
    find_cycles-on tasks (suc n) ready id q r h (ids.0 h.task h.live) ne
    ∙ find_cycles-gone tasks n ready id r gone
find_cycles-dangling tasks (suc (suc n)) ready id r q (x ∷ rest) (h, l) gone ne (av, avs) ids fuel =
    find_cycles-on tasks (suc n) ready id q x h (ids.0 h.task h.live) av
    ∙ find_cycles-dangling tasks (suc n) ready id r x rest l gone ne avs ids.1 (omega arith)

find_cycles-hit :
    (tasks : Store Task) (n ready id p q : ℕ) (h : HasNext tasks p q)
    → (h.task.id == id) ≡ true
    → find_cycles (suc n) tasks ready id p ≡ ok h.task.total_cycles
unfolding find_cycles
find_cycles-hit tasks n ready id p q h hit = rw (load-HasNext h) (
    ap
      (λ b. elim b [
        | true ↦ ok h.task.total_cycles
        | false ↦ elim (h.task.next == ready) [
          | true ↦ ok 0
          | false ↦ find_cycles n tasks ready id h.task.next
        ]
      ])
      hit)

find_cycles-last :
    (tasks : Store Task) (n ready id p : ℕ) (h : HasNext tasks p ready)
    → (h.task.id == id) ≡ false
    → find_cycles (suc n) tasks ready id p ≡ ok 0
unfolding find_cycles
find_cycles-last tasks n ready id p h miss =
    let end : (h.task.next == ready) ≡ true = ground (arith, h.next) in
    rw (load-HasNext h) (
      ap
        (λ b. elim b [
          | true ↦ ok h.task.total_cycles
          | false ↦ elim (h.task.next == ready) [
            | true ↦ ok 0
            | false ↦ find_cycles n tasks ready id h.task.next
          ]
        ])
        miss
      ∙ ap (λ b. elim b [ true ↦ ok 0 | false ↦ find_cycles n tasks ready id h.task.next ]) end)

-- The account of the first task of the list that has the id, or 0.
abbrev pub account : (tasks : Store Task) (ps : List ℕ) (stop id : ℕ) → Links tasks ps stop → ℕ
account tasks [] stop id l = 0
account tasks (p ∷ ps) stop id (h, l) =
    if h.task.id == id then h.task.total_cycles else account tasks ps stop id l

find_cycles-account :
    (tasks : Store Task) (rounds r id p : ℕ) (ps : List ℕ) (l : Links tasks (p ∷ ps) r)
    → Avoids r ps
    → length (p ∷ ps) ≤ rounds
    → find_cycles rounds tasks r id p ≡ ok (account tasks (p ∷ ps) r id l)
find_cycles-account tasks zero r id p ps l av fuel = absurd (omega arith)
find_cycles-account tasks (suc n) r id p [] (h, l) av fuel = elim (Bool-cases (h.task.id == id)) [
  | inl hit ↦ rw hit (find_cycles-hit tasks n r id p r h hit)
  | inr miss ↦ rw miss (find_cycles-last tasks n r id p h miss)
]
find_cycles-account tasks (suc n) r id p (x ∷ ps) (h, l) (ne, av) fuel =
    elim (Bool-cases (h.task.id == id)) [
      | inl hit ↦ rw hit (find_cycles-hit tasks n r id p x h hit)
      | inr miss ↦ rw miss (
          find_cycles-on tasks n r id p x h (ground arith) ne
          ∙ find_cycles-account tasks n r id x ps l av (omega arith))
    ]

-- On a ring, and with a round for each of its tasks, task_get_cycles returns the account of the
-- first task that has the id, from the head on, or 0 if none has it.
pub task_get_cycles-account :
    {Mem : Type 0} (rounds id : ℕ) (k : Kernel Mem) (r : ℕ) (rest : List ℕ) (ring : IsRing k r rest)
    → length (r ∷ rest) ≤ rounds
    → task_get_cycles rounds id k ≡ ok (account k.tasks (r ∷ rest) r id ring.links)
unfolding task_get_cycles
task_get_cycles-account rounds id k r rest ring fuel =
    let busy : (r == 0) ≡ false = ground (arith, ring.links.0.ne_null) in
    rw (ring.head, busy)
      (find_cycles-account k.tasks rounds r id r rest ring.links ring.distinct.0 fuel)
