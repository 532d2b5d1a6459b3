-- ===== src/Store.antt =====
-- Objects by their address. Address 0 is NULL, and no object lives there.
use xhopin.Base.{
  ℕ, ◌≡◌, ◌≢◌, Option, none, some, Run, ok, wild, or_wild, ◌==◌, if◌then◌else◌, arith,
}

abbrev pub Store {ℓ} : Type ℓ → Type ℓ
Store A = ℕ → Option A

module _ {ℓ} {A : Type ℓ} where
  -- `*p`
  unfoldable pub load : Store A → ℕ → Run A
  load s p = if p == 0 then wild else or_wild (s p)

  -- `*p = v`, for an object that lives at `p` or is made there
  unfoldable pub put : Store A → ℕ → A → Store A
  put s p v q = if q == p then some v else s q

  -- The object at `p` is given back.
  unfoldable pub drop : Store A → ℕ → Store A
  drop s p q = if q == p then none else s q

  pub load-some : (s : Store A) (p : ℕ) (v : A) → p ≢ 0 → s p ≡ some v → load s p ≡ ok v
  unfolding load
  load-some s p v ne e = ground arith

  pub put_self : (s : Store A) (p : ℕ) (v : A) → put s p v p ≡ some v
  unfolding put
  put_self s p v = ground arith

  pub put_ne : (s : Store A) (p q : ℕ) (v : A) → q ≢ p → put s p v q ≡ s q
  unfolding put
  put_ne s p q v ne = ground arith

  pub drop_self : (s : Store A) (p : ℕ) → drop s p p ≡ none
  unfolding drop
  drop_self s p = ground arith

  pub drop_ne : (s : Store A) (p q : ℕ) → q ≢ p → drop s p q ≡ s q
  unfolding drop
  drop_ne s p q ne = ground arith

  pub load-put_self : (s : Store A) (p : ℕ) (v : A) → p ≢ 0 → load (put s p v) p ≡ ok v
  unfolding load put
  load-put_self s p v ne = ground arith

  pub load-put_ne : (s : Store A) (p q : ℕ) (v : A) → q ≢ p → load (put s p v) q ≡ load s q
  unfolding load put
  load-put_ne s p q v ne = ground arith

  pub load-drop_self : (s : Store A) (p : ℕ) → load (drop s p) p ≡ wild
  unfolding load drop
  load-drop_self s p = ground arith

  pub load-drop_ne : (s : Store A) (p q : ℕ) → q ≢ p → load (drop s p) q ≡ load s q
  unfolding load drop
  load-drop_ne s p q ne = ground arith
