-- ===== src/Sched/Relink.antt =====
-- A circular list of tasks (kernel/scheduler/scheduler.c) when one task gets another successor.
use xhopin.Base.{ℕ, ◌≡◌, ◌≢◌, sym, some, List, [], ◌∷◌, ◌++◌}
use xhopin.Kernel.{Task}
use xhopin.Store.{Store, put}
use xhopin.Sched.Ring.{
  Links, Avoids, Distinct, first, HasNext-put_ne, HasNext-put_self, Links-put_ne,
}

-- The last of the addresses.
abbrev pub last_of : ℕ → List ℕ → ℕ
last_of z [] = z
last_of z (x ∷ zs) = last_of x zs

last_of-ne : (q z : ℕ) (zs tail : List ℕ) → Avoids q (z ∷ (zs ++ tail)) → last_of z zs ≢ q
last_of-ne q z [] tail av = av.0
last_of-ne q z (x ∷ zs) tail av = last_of-ne q x zs tail av.1

-- The end of the list from the last task on is replaced.
pub relink :
    (tasks : Store Task) (z : ℕ) (zs tail tail' : List ℕ) (stop stop' : ℕ)
    → Links tasks (z ∷ (zs ++ tail)) stop
    → Distinct (z ∷ (zs ++ tail))
    → Links tasks tail' stop'
    → Avoids (last_of z zs) tail'
    → (w : Task) × (tasks (last_of z zs) ≡ some w)
      × (last_of z zs ≢ 0)
      × (w.next ≡ first tail stop)
      × Links
          (put tasks (last_of z zs) (record w { next = first tail' stop' }))
          (z ∷ (zs ++ tail'))
          stop'
relink tasks z [] tail tail' stop stop' (h, l) d l' av = (
  h.task,
  h.live,
  h.ne_null,
  h.next,
  (
    HasNext-put_self tasks z (record (h.task) { next = first tail' stop' }) h.ne_null,
    Links-put_ne tasks z (record (h.task) { next = first tail' stop' }) tail' stop' av l',
  ),
)
relink tasks z (x ∷ zs) tail tail' stop stop' (h, l) (avz, d) l' av =
    let (w, live, nz, n, links) = relink tasks x zs tail tail' stop stop' l d l' av in
    (
      w,
      live,
      nz,
      n,
      (
        HasNext-put_ne tasks (last_of x zs) (record w { next = first tail' stop' }) z x
            (λ e. last_of-ne z x zs tail avz (sym e)) h,
        links,
      ),
    )

-- The task in the middle, and what stands behind it.
pub Links-middle :
    (tasks : Store Task) (zs : List ℕ) (p : ℕ) (ys : List ℕ) (stop : ℕ)
    → Links tasks (zs ++ (p ∷ ys)) stop
    → Links tasks (p ∷ ys) stop
Links-middle tasks [] p ys stop l = l
Links-middle tasks (z ∷ zs) p ys stop l = Links-middle tasks zs p ys stop l.1

pub Avoids-cut :
    (q : ℕ) (zs : List ℕ) (p : ℕ) (ys : List ℕ) → Avoids q (zs ++ (p ∷ ys)) → Avoids q (zs ++ ys)
Avoids-cut q [] p ys av = av.1
Avoids-cut q (z ∷ zs) p ys (ne, av) = (ne, Avoids-cut q zs p ys av)

Avoids-middle : (q : ℕ) (zs : List ℕ) (p : ℕ) (ys : List ℕ) → Avoids q (zs ++ (p ∷ ys)) → p ≢ q
Avoids-middle q [] p ys av = av.0
Avoids-middle q (z ∷ zs) p ys av = Avoids-middle q zs p ys av.1

-- Without the task in the middle no address stands twice, and its own stands nowhere.
pub Distinct-cut :
    (zs : List ℕ) (p : ℕ) (ys : List ℕ)
    → Distinct (zs ++ (p ∷ ys))
    → Distinct (zs ++ ys) × Avoids p (zs ++ ys)
Distinct-cut [] p ys d = (d.1, d.0)
Distinct-cut (z ∷ zs) p ys (av, d) =
    let (d', av') = Distinct-cut zs p ys d in
    ((Avoids-cut z zs p ys av, d'), (λ e. Avoids-middle z zs p ys av (sym e), av'))

pub last_of-Avoids :
    (z : ℕ) (zs : List ℕ) (p : ℕ) (ys : List ℕ)
    → Distinct (z ∷ (zs ++ (p ∷ ys)))
    → Avoids (last_of z zs) ys × (last_of z zs ≢ p)
last_of-Avoids z [] p ys (av, d) = (av.1, λ e. av.0 (sym e))
last_of-Avoids z (x ∷ zs) p ys (av, d) = last_of-Avoids x zs p ys d

pub last_of-Avoids_all : (p z : ℕ) (zs : List ℕ) → Avoids p (z ∷ zs) → last_of z zs ≢ p
last_of-Avoids_all p z [] av = av.0
last_of-Avoids_all p z (x ∷ zs) av = last_of-Avoids_all p x zs av.1
