-- ===== src/Sched/Create.antt =====
-- The creation of a task (kernel/scheduler/scheduler.c), and the ring with it.
use xhopin.Base.{
  ℕ, ◌≡◌, ◌≢◌, refl, some, arith, List, [], ◌∷◌, ok, Post, Post_any, Post-bind, Post-if, Post-ok,
  ◌==◌, false,
}
use xhopin.Word.{add32}
use xhopin.Kernel.{Kernel, Task, Allocator}
use xhopin.Store.{Store, load, put, load-some, put_self}
use xhopin.Sched.{insert_task, set_next, task_create, new_task}
use xhopin.Sched.Ring.{IsRing, Avoids, HasNext-put_self, Links-put_ne, insert_task-IsRing}

-- Only the tasks and the head of the list may differ.
pub record Kept {Mem : Type 0} (k g : Kernel Mem) : Type 0 where
  pub mem : g.mem ≡ k.mem
  pub vms : g.vms ≡ k.vms
  pub current_task : g.current_task ≡ k.current_task

module _ {Mem : Type 0} where
  all-Kept :
      (k : Kernel Mem) (tasks : Store Task) (head : ℕ)
      → Kept k (record k { tasks = tasks; ready_list = head })
  all-Kept k tasks head = record { mem = refl; vms = refl; current_task = refl }

  pub insert_task-Kept : (p : ℕ) (k : Kernel Mem) → Post (Kept k) (insert_task p k)
  unfolding insert_task
  insert_task-Kept p k =
      Post-if (Kept k) (k.ready_list == 0) _ _
        (λ e.
          Post-bind (λ _. Unit {0}) (Kept k) (set_next p p k.tasks) _ (Post_any _)
            (λ tasks _. all-Kept k tasks p))
        (λ e.
          Post-bind (λ _. Unit {0}) (Kept k) (load k.tasks k.ready_list) _ (Post_any _)
            λ r _.
              Post-bind (λ _. Unit {0}) (Kept k) (set_next p r.next k.tasks) _ (Post_any _)
                λ a _.
                  Post-bind (λ _. Unit {0}) (Kept k) (set_next k.ready_list p a) _ (Post_any _)
                    (λ b _. all-Kept k b k.ready_list))

  -- The first task is a ring by itself.
  insert_task-first :
      (k : Kernel Mem) (p : ℕ) (t : Task)
      → k.ready_list ≡ 0
      → p ≢ 0
      → k.tasks p ≡ some t
      → (g : Kernel Mem) × (insert_task p k ≡ ok g) × IsRing g p []
  unfolding insert_task set_next
  insert_task-first k p t none_yet ne live = (
    record k { ready_list = p; tasks = put k.tasks p (record t { next = p }) },
    rw (none_yet, load-some k.tasks p t ne live),
    record {
      head = refl;
      links = (HasNext-put_self k.tasks p (record t { next = p }) ne, tt);
      distinct = (tt, tt);
    },
  )

module _ (A : Allocator) where
  open A use {Mem, alloc, free}

  -- The allocator has memory for a task at `p` with a stack of `stack_size` bytes, and is at `m'` then.
  pub record HasRoom (stack_size : ℕ) (m : Mem) (p : ℕ) (m' : Mem) : Type 0 where
    pub stack : ℕ
    pub context : ℕ
    pub mem1 : Mem
    pub mem2 : Mem
    pub task_at : alloc 48 m ≡ (p, mem1)
    pub stack_at : alloc stack_size mem1 ≡ (stack, mem2)
    pub context_at : alloc 132 mem2 ≡ (context, m')
    pub task_ne : p ≢ 0
    pub stack_ne : stack ≢ 0
    pub context_ne : context ≢ 0

  -- The kernel in which `task_create` calls `insert_task`.
  abbrev with_task :
      (now entry arg stack_size p : ℕ) (k : Kernel Mem) (m' : Mem)
      → HasRoom stack_size k.mem p m'
      → Kernel Mem
  with_task now entry arg stack_size p k m' room = record k {
    mem = m';
    tasks =
        put k.tasks p (new_task A room.context room.stack stack_size entry arg k.next_task_id now);
    next_task_id = add32 k.next_task_id 1;
  }

  task_create-inserted :
      (now entry arg stack_size p : ℕ) (k g : Kernel Mem) (m' : Mem)
      → (room : HasRoom stack_size k.mem p m')
      → insert_task p (with_task now entry arg stack_size p k m' room) ≡ ok g
      → task_create A now entry arg stack_size k ≡ ok (p, g)
  unfolding task_create
  task_create-inserted now entry arg stack_size p k g m' room ran =
      let some_task : (p == 0) ≡ false = ground (arith, room.task_ne) in
      let some_stack : (room.stack == 0) ≡ false = ground (arith, room.stack_ne) in
      let some_context : (room.context == 0) ≡ false = ground (arith, room.context_ne) in
      rw (room.task_at, room.stack_at, room.context_at, some_task, some_stack, some_context, ran)

  -- What `task_create` leaves: the task stands right behind the head `r`, or is the first one.
  abbrev pub Created : ℕ → ℕ → List ℕ → Kernel Mem → Mem → Kernel Mem → Type 0
  Created p r rest k m' g = IsRing g r rest × (g.mem ≡ m') × (g.current_task ≡ k.current_task)

  pub task_create-first :
      (now entry arg stack_size p : ℕ) (k : Kernel Mem) (m' : Mem)
      → HasRoom stack_size k.mem p m'
      → k.ready_list ≡ 0
      → (g : Kernel Mem) × (task_create A now entry arg stack_size k ≡ ok (p, g))
        × Created p p [] k m' g
  task_create-first now entry arg stack_size p k m' room none_yet =
      let k' = with_task now entry arg stack_size p k m' room in
      let (g, ran, ring) = insert_task-first k' p _ none_yet room.task_ne (put_self k.tasks p _) in
      let kept = Post-ok (Kept k') (insert_task p k') g (insert_task-Kept p k') ran in
      (
        g,
        task_create-inserted now entry arg stack_size p k g m' room ran,
        (ring, kept.mem, kept.current_task),
      )

  pub task_create-IsRing :
      (now entry arg stack_size p r : ℕ) (rest : List ℕ) (k : Kernel Mem) (m' : Mem)
      → HasRoom stack_size k.mem p m'
      → IsRing k r rest
      → Avoids p (r ∷ rest)
      → (g : Kernel Mem) × (task_create A now entry arg stack_size k ≡ ok (p, g))
        × Created p r (p ∷ rest) k m' g
  task_create-IsRing now entry arg stack_size p r rest k m' room ring av =
      let k' = with_task now entry arg stack_size p k m' room in
      let ring' : IsRing k' r rest = record {
        head = ring.head;
        links = Links-put_ne k.tasks p _ (r ∷ rest) r av ring.links;
        distinct = ring.distinct;
      } in
      let (g, ran, ring'') =
        insert_task-IsRing k' r p rest _ ring' room.task_ne (put_self k.tasks p _) av in
      let kept = Post-ok (Kept k') (insert_task p k') g (insert_task-Kept p k') ran in
      (
        g,
        task_create-inserted now entry arg stack_size p k g m' room ran,
        (ring'', kept.mem, kept.current_task),
      )
