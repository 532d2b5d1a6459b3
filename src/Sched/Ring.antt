-- ===== src/Sched/Ring.antt =====
-- The circular ready list of kernel/scheduler/scheduler.c: which tasks it holds, in what order.
use xhopin.Base.{
  ℕ, ◌≡◌, ◌≢◌, refl, sym, ◌∙◌, some, arith, List, [], ◌∷◌, ◌++◌, All, ok, ◌==◌, false, Bool-cases,
  inl, inr, subst,
}
use xhopin.Kernel.{Kernel, Task}
use xhopin.Store.{Store, load, put, drop, load-some, put_self, put_ne, load-put_ne, drop_ne}
use xhopin.Sched.{insert_task, set_next}

-- A live task at `p` whose successor is `q`.
pub record HasNext (tasks : Store Task) (p q : ℕ) : Type 0 where
  pub ne_null : p ≢ 0
  pub task : Task
  pub live : tasks p ≡ some task
  pub next : task.next ≡ q

abbrev pub first : List ℕ → ℕ → ℕ
first [] stop = stop
first (p ∷ ps) stop = p

-- The tasks of the list are linked in order, and the last leads to `stop`.
abbrev pub Links : Store Task → List ℕ → ℕ → Type 0
Links tasks [] stop = Unit
Links tasks (p ∷ ps) stop = HasNext tasks p (first ps stop) × Links tasks ps stop

abbrev pub Avoids : ℕ → List ℕ → Type 0
Avoids p ps = All (λ q. q ≢ p) ps

-- No address stands twice.
abbrev pub Distinct : List ℕ → Type 0
Distinct [] = Unit
Distinct (p ∷ ps) = Avoids p ps × Distinct ps

-- The ready list leads from `r` through `rest` back to `r`.
pub record IsRing {Mem : Type 0} (k : Kernel Mem) (r : ℕ) (rest : List ℕ) : Type 0 where
  pub head : k.ready_list ≡ r
  pub links : Links k.tasks (r ∷ rest) r
  pub distinct : Distinct (r ∷ rest)

module _ (tasks : Store Task) where
  pub HasNext-put_ne :
      (p : ℕ) (t : Task) (a b : ℕ) → a ≢ p → HasNext tasks a b → HasNext (put tasks p t) a b
  HasNext-put_ne p t a b ne h = record {
    ne_null = h.ne_null;
    task = h.task;
    live = put_ne tasks p a t ne ∙ h.live;
    next = h.next;
  }

  pub HasNext-put_self : (p : ℕ) (t : Task) → p ≢ 0 → HasNext (put tasks p t) p t.next
  HasNext-put_self p t ne = record {
    ne_null = ne;
    task = t;
    live = put_self tasks p t;
    next = refl;
  }

  -- A write elsewhere keeps the links.
  pub Links-put_ne :
      (p : ℕ) (t : Task) (ps : List ℕ) (stop : ℕ)
      → Avoids p ps
      → Links tasks ps stop
      → Links (put tasks p t) ps stop
  Links-put_ne p t [] stop av l = tt
  Links-put_ne p t (q ∷ ps) stop (ne, av) (h, l) =
      (HasNext-put_ne p t q (first ps stop) ne h, Links-put_ne p t ps stop av l)

  -- So does the release of a task elsewhere.
  pub Links-drop :
      (p : ℕ) (ps : List ℕ) (stop : ℕ)
      → Avoids p ps
      → Links tasks ps stop
      → Links (drop tasks p) ps stop
  Links-drop p [] stop av l = tt
  Links-drop p (q ∷ ps) stop (ne, av) (h, l) = (
    record {
      ne_null = h.ne_null;
      task = h.task;
      live = drop_ne tasks p q ne ∙ h.live;
      next = h.next;
    },
    Links-drop p ps stop av l,
  )

  -- A write that keeps a task's successor keeps the links.
  pub HasNext-put_same :
      (p : ℕ) (old t : Task) (a b : ℕ)
      → tasks p ≡ some old
      → t.next ≡ old.next
      → HasNext tasks a b
      → HasNext (put tasks p t) a b
  HasNext-put_same p old t a b e n h = elim (Bool-cases (a == p)) [
    | inl same ↦
        let q : a ≡ p = ground arith in
        record {
          ne_null = h.ne_null;
          task = t;
          live = rw q (put_self tasks p t);
          next = same_next q;
        }
    | inr other ↦ HasNext-put_ne p t a b (ground arith) h
  ]
    where
      same_next : a ≡ p → t.next ≡ b
      same_next q = n ∙ ground arith

  pub Links-put_same :
      (p : ℕ) (old t : Task) (ps : List ℕ) (stop : ℕ)
      → tasks p ≡ some old
      → t.next ≡ old.next
      → Links tasks ps stop
      → Links (put tasks p t) ps stop
  Links-put_same p old t [] stop e n l = tt
  Links-put_same p old t (q ∷ ps) stop e n (h, l) =
      (HasNext-put_same p old t q (first ps stop) e n h, Links-put_same p old t ps stop e n l)

  pub Links-append :
      (ps : List ℕ) (r stop : ℕ)
      → Links tasks ps r
      → HasNext tasks r stop
      → Links tasks (ps ++ (r ∷ [])) stop
  Links-append [] r stop l h = (h, tt)
  Links-append (p ∷ []) r stop (a, l) h = (a, (h, tt))
  Links-append (p ∷ q ∷ ps) r stop (a, l) h = (a, Links-append (q ∷ ps) r stop l h)

Avoids-append : (p : ℕ) (ps : List ℕ) (q : ℕ) → Avoids p ps → q ≢ p → Avoids p (ps ++ (q ∷ []))
Avoids-append p [] q av ne = (ne, tt)
Avoids-append p (x ∷ ps) q (h, av) ne = (h, Avoids-append p ps q av ne)

-- The head goes to the end.
pub Distinct-rotate : (r : ℕ) (ps : List ℕ) → Distinct (r ∷ ps) → Distinct (ps ++ (r ∷ []))
Distinct-rotate r [] d = (tt, tt)
Distinct-rotate r (p ∷ ps) ((ne, av), (here, d)) =
    (Avoids-append p ps r here (λ e. ne (sym e)), Distinct-rotate r ps (av, d))

pub load-HasNext : {tasks : Store Task} {p q : ℕ} (h : HasNext tasks p q) → load tasks p ≡ ok h.task
load-HasNext {tasks} {p} h = load-some tasks p h.task h.ne_null h.live

-- insert_task puts a live task that is not in the ring right behind its head, and the list is a
-- ring again.
pub insert_task-IsRing :
    {Mem : Type 0} (k : Kernel Mem) (r p : ℕ) (rest : List ℕ) (t : Task)
    → IsRing k r rest
    → p ≢ 0
    → k.tasks p ≡ some t
    → Avoids p (r ∷ rest)
    → (g : Kernel Mem) × (insert_task p k ≡ ok g) × IsRing g r (p ∷ rest)
unfolding insert_task set_next
insert_task-IsRing k r p rest t ring ne live av = (
  record k { tasks = tasks2 },
  rw (
    ring.head,
    busy,
    load-HasNext h,
    load-some k.tasks p t ne live,
    load-put_ne k.tasks p r inserted av.0,
    load-HasNext h,
  ),
  record {
    head = ring.head;
    links = (
      HasNext-put_self tasks1 r (record (h.task) { next = p }) h.ne_null,
      (
        HasNext-put_ne tasks1 r (record (h.task) { next = p }) p (first rest r) other behind,
        Links-put_ne tasks1 r (record (h.task) { next = p }) rest r ring.distinct.0
            (Links-put_ne k.tasks p inserted rest r av.1 ring.links.1),
      ),
    );
    distinct = ((other, ring.distinct.0), (av.1, ring.distinct.1));
  },
)
  where
    h : HasNext k.tasks r (first rest r)
    h = ring.links.0

    busy : (r == 0) ≡ false
    busy = ground (arith, h.ne_null)

    other : p ≢ r
    other e = av.0 (sym e)

    inserted : Task
    inserted = record t { next = h.task.next }

    tasks1 : Store Task
    tasks1 = put k.tasks p inserted

    tasks2 : Store Task
    tasks2 = put tasks1 r (record (h.task) { next = p })

    behind : HasNext tasks1 p (first rest r)
    behind = subst (HasNext tasks1 p) h.next (HasNext-put_self k.tasks p inserted ne)
