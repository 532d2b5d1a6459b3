-- ===== src/Event/Links.antt =====
-- The links of the event queue of kernel/event/event.c, from its head to its tail.
use mathlib.Core.Option.{none-ne-some}
use xhopin.Base.{
  ℕ, ◌≡◌, ◌≢◌, refl, sym, ap, ◌∙◌, false, ◌==◌, List, [], ◌∷◌, ◌++◌, All, none, some, arith,
  ==_self,
}
use xhopin.Kernel.{EventEntry}
use xhopin.Store.{Store, put, put_self, put_ne, drop, drop_ne}
use xhopin.Event.{link}

-- An event as its handlers see it.
pub record Event : Type 0 where
  pub type : ℕ
  pub payload : ℕ

abbrev pub first : List ℕ → ℕ
first [] = 0
first (p ∷ ps) = p

abbrev pub last : List ℕ → ℕ
last [] = 0
last (p ∷ []) = p
last (p ∷ q ∷ ps) = last (q ∷ ps)

abbrev pub entry_of : Event → ℕ → EventEntry
entry_of e next = record { type = e.type; payload = e.payload; next = next }

-- The addresses are those of the events, each a live entry of its own that leads to the next, and the
-- last to NULL.
abbrev pub Holds : Store EventEntry → List ℕ → List Event → Type 0
Holds s [] [] = Unit
Holds s [] (e ∷ es) = ⊥
Holds s (p ∷ ps) [] = ⊥
Holds s (p ∷ ps) (e ∷ es) =
    (p ≢ 0) × (s p ≡ some (entry_of e (first ps))) × All (λ q. q ≢ p) ps × Holds s ps es

pub Holds-drop :
    (s : Store EventEntry) (p : ℕ) (ps : List ℕ) (es : List Event)
    → All (λ q. q ≢ p) ps
    → Holds s ps es
    → Holds (drop s p) ps es
Holds-drop s p [] [] other h = tt
Holds-drop s p [] (e ∷ es) other h = h
Holds-drop s p (q ∷ ps) [] other h = h
Holds-drop s p (q ∷ ps) (e ∷ es) (ne, other) (nz, at, apart, rest) =
    (nz, drop_ne s p q ne ∙ at, apart, Holds-drop s p ps es other rest)

All-snoc : (P : ℕ → Type 0) (ps : List ℕ) (p : ℕ) → All P ps → P p → All P (ps ++ (p ∷ []))
All-snoc P [] p h k = (k, tt)
All-snoc P (q ∷ ps) p (a, h) k = (a, All-snoc P ps p h k)

last_ne : (q : ℕ) (p : ℕ) (ps : List ℕ) → All (λ r. r ≢ q) (p ∷ ps) → last (p ∷ ps) ≢ q
last_ne q p [] (ne, _) = ne
last_ne q p (r ∷ ps) (_, other) = last_ne q r ps other

pub last-snoc : (ps : List ℕ) (p : ℕ) → last (ps ++ (p ∷ [])) ≡ p
last-snoc [] p = refl
last-snoc (q ∷ []) p = refl
last-snoc (q ∷ r ∷ ps) p = last-snoc (r ∷ ps) p

module _ (s : Store EventEntry) (p : ℕ) (v : EventEntry) where
  link-ne : (q a : ℕ) → a ≢ q → a ≢ p → link q p (put s p v) a ≡ s a
  unfolding link
  link-ne q a ne ne' = let miss : (a == q) ≡ false = ground arith in rw miss (put_ne s p a v ne')

  link-at :
      (q : ℕ) (e : Event)
      → q ≢ p
      → s q ≡ some (entry_of e 0)
      → link q p (put s p v) q ≡ some (entry_of e p)
  unfolding link
  link-at q e ne at = rw (==_self q, put_ne s p q v ne, at) refl

  link-new : (q : ℕ) → p ≢ q → link q p (put s p v) p ≡ some v
  unfolding link
  link-new q ne = let miss : (p == q) ≡ false = ground arith in rw miss (put_self s p v)

-- A new entry that the last one is made to lead to goes to the end.
pub Holds-snoc :
    (s : Store EventEntry) (p : ℕ) (v : Event) (q : ℕ) (ps : List ℕ) (es : List Event)
    → p ≢ 0
    → All (λ a. a ≢ p) (q ∷ ps)
    → Holds s (q ∷ ps) es
    → Holds
        (link (last (q ∷ ps)) p (put s p (entry_of v 0)))
        (q ∷ (ps ++ (p ∷ [])))
        (es ++ (v ∷ []))
Holds-snoc s p v q ps [] nz other h = absurd h
Holds-snoc s p v q [] (e ∷ []) nz (ne, _) (nz', at, _, _) = (
  nz',
  link-at s p (entry_of v 0) q e ne at,
  (λ t. ne (sym t), tt),
  (nz, link-new s p (entry_of v 0) q (λ t. ne (sym t)), tt, tt),
)
Holds-snoc s p v q [] (e ∷ e' ∷ es) nz other (_, _, _, rest) = absurd rest
Holds-snoc s p v q (r ∷ ps) (e ∷ es) nz (ne, other) (nz', at, apart, rest) = (
  nz',
  link-ne s p (entry_of v 0) (last (r ∷ ps)) q (λ t. last_ne q r ps apart (sym t)) ne ∙ at,
  All-snoc (λ a. a ≢ q) (r ∷ ps) p apart (λ t. ne (sym t)),
  Holds-snoc s p v r ps es nz other rest,
)

-- An address at which nothing lives is in no queue.
pub Holds-none :
    (s : Store EventEntry) (p : ℕ) (ps : List ℕ) (es : List Event)
    → s p ≡ none
    → Holds s ps es
    → All (λ q. q ≢ p) ps
Holds-none s p [] es e h = tt
Holds-none s p (q ∷ ps) [] e h = absurd h
Holds-none s p (q ∷ ps) (v ∷ es) e (_, at, _, rest) = (
  λ same. none-ne-some (entry_of v (first ps)) (sym e ∙ sym (ap s same) ∙ at),
  Holds-none s p ps es e rest,
)

pub last_nz :
    (s : Store EventEntry) (q : ℕ) (ps : List ℕ) (es : List Event)
    → Holds s (q ∷ ps) es
    → last (q ∷ ps) ≢ 0
last_nz s q ps [] h = absurd h
last_nz s q [] (e ∷ es) (nz, _, _, _) = nz
last_nz s q (r ∷ ps) (e ∷ es) (_, _, _, rest) = last_nz s r ps es rest
