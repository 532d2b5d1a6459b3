-- ===== src/Base/Outcome.antt =====
-- The outcome of a run of C code.
use mathlib.Core.Path.{◌≡◌, refl, subst}
use mathlib.Core.Option.{Option, none, some}
use mathlib.Core.Bool.{Bool, true, false}
use xhopin.Base.Tests.{if◌then◌else◌}

-- `wild` is an access outside the objects that the code names, which C leaves undefined: a NULL or
-- dangling pointer, an index past the end of an array. `spin` is a loop that used up its rounds.
pub data Run {ℓ} (A : Type ℓ) : Type ℓ where
  ok : A → Run A
  wild : Run A
  spin : Run A

-- The second part runs on the value of the first, if there is one.
abbrev pub ◌>>=◌ {ℓ κ} : {X : Type ℓ} {Y : Type κ} → Run X → (X → Run Y) → Run Y
wild >>= next = wild
spin >>= next = spin
ok x >>= next = next x

infixl 5 ◌>>=◌
-- A place of an array, or a place outside it.
abbrev pub or_wild {ℓ} : {A : Type ℓ} → Option A → Run A
or_wild none = wild
or_wild (some a) = ok a

-- What holds of the value, whenever the run has one.
abbrev pub Post {ℓ κ} : {A : Type ℓ} → (A → Type κ) → Run A → Type κ
Post P (ok a) = P a
Post P wild = Unit
Post P spin = Unit

pub Post-bind {ℓ κ ι μ} :
    {A : Type ℓ} {B : Type κ} (P : A → Type ι) (Q : B → Type μ) (m : Run A) (f : A → Run B)
    → Post P m
    → ((a : A) → P a → Post Q (f a))
    → Post Q (m >>= f)
Post-bind P Q (ok a) f h k = k a h
Post-bind P Q wild f h k = tt
Post-bind P Q spin f h k = tt

-- Nothing need be known of the value of the first part.
pub Post-bind_any {ℓ κ μ} :
    {A : Type ℓ} {B : Type κ} (Q : B → Type μ) (m : Run A) (f : A → Run B)
    → ((a : A) → Post Q (f a))
    → Post Q (m >>= f)
Post-bind_any Q (ok a) f k = k a
Post-bind_any Q wild f k = tt
Post-bind_any Q spin f k = tt

pub ok-injective {ℓ} : {A : Type ℓ} {a b : A} → ok a ≡ ok b → a ≡ b
ok-injective h = cc

-- A run in two parts that has a value has one in each.
pub bind_value {ℓ κ} :
    {A : Type ℓ} {B : Type κ} (m : Run A) (f : A → Run B) (b : B)
    → (m >>= f) ≡ ok b
    → (a : A) × (m ≡ ok a) × (f a ≡ ok b)
bind_value (ok a) f b h = (a, refl, h)
bind_value wild f b h = absurd (cc)
bind_value spin f b h = absurd (cc)

-- What follows may use where its value is from.
pub Post-bind_eq {ℓ κ μ} :
    {A : Type ℓ} {B : Type κ} (Q : B → Type μ) (m : Run A) (f : A → Run B)
    → ((a : A) → m ≡ ok a → Post Q (f a))
    → Post Q (m >>= f)
Post-bind_eq Q (ok a) f k = k a refl
Post-bind_eq Q wild f k = tt
Post-bind_eq Q spin f k = tt

pub Post-ok {ℓ κ} : {A : Type ℓ} (P : A → Type κ) (m : Run A) (a : A) → Post P m → m ≡ ok a → P a
Post-ok P m a h e = subst (λ r. Post P r) e h

pub Post-if {ℓ κ} :
    {A : Type ℓ} (P : A → Type κ) (b : Bool) (x y : Run A)
    → (b ≡ true → Post P x)
    → (b ≡ false → Post P y)
    → Post P (if b then x else y)
Post-if P true x y f g = f refl
Post-if P false x y f g = g refl

pub Post-or_wild {ℓ κ} :
    {A : Type ℓ} (P : A → Type κ) (o : Option A) → ((a : A) → o ≡ some a → P a) → Post P (or_wild o)
Post-or_wild P none f = tt
Post-or_wild P (some a) f = f a refl

pub Post-case {ℓ κ} :
    {B : Type ℓ} (P : B → Type κ) (b : Bool) (x y : Run B)
    → Post P x
    → Post P y
    → Post P (elim b [ true ↦ x | false ↦ y ])
Post-case P true x y h k = h
Post-case P false x y h k = k

pub Post-option {ℓ κ ι} :
    {A : Type ℓ} {B : Type κ} (P : B → Type ι) (o : Option A) (x : Run B) (f : A → Run B)
    → Post P x
    → ((a : A) → Post P (f a))
    → Post P (elim o [ none ↦ x | some a ↦ f a ])
Post-option P none x f h k = h
Post-option P (some a) x f h k = k a

-- A search, and what follows on what it finds.
pub Post-bind_option {ℓ κ ι μ} :
    {A : Type ℓ} {B : Type κ} (Q : Option A → Type ι) (P : B → Type μ) (m : Run (Option A))
    (x : Run B) (f : A → Run B)
    → Post Q m
    → Post P x
    → ((a : A) → Q (some a) → Post P (f a))
    → Post P (m >>= λ o. elim o [ none ↦ x | some a ↦ f a ])
Post-bind_option Q P (ok none) x f q h k = h
Post-bind_option Q P (ok (some a)) x f q h k = k a q
Post-bind_option Q P wild x f q h k = tt
Post-bind_option Q P spin x f q h k = tt

pub Post-and {ℓ κ ι} :
    {A : Type ℓ} (P : A → Type κ) (Q : A → Type ι) (m : Run A)
    → Post P m
    → Post Q m
    → Post (λ a. P a × Q a) m
Post-and P Q (ok a) h k = (h, k)
Post-and P Q wild h k = tt
Post-and P Q spin h k = tt

pub Post-mono {ℓ κ ι} :
    {A : Type ℓ} (P : A → Type κ) (Q : A → Type ι) (m : Run A)
    → Post P m
    → ((a : A) → P a → Q a)
    → Post Q m
Post-mono P Q (ok a) h f = f a h
Post-mono P Q wild h f = tt
Post-mono P Q spin h f = tt

pub Post_any {ℓ} : {A : Type ℓ} (m : Run A) → Post (λ _. Unit {0}) m
Post_any (ok a) = tt
Post_any wild = tt
Post_any spin = tt

-- The run has a value.
abbrev pub Total {ℓ} : {A : Type ℓ} → Run A → Type 0
Total (ok a) = Unit
Total wild = ⊥
Total spin = ⊥

pub Total-bind {ℓ κ} :
    {A : Type ℓ} {B : Type κ} (m : Run A) (f : A → Run B)
    → Total m
    → ((a : A) → m ≡ ok a → Total (f a))
    → Total (m >>= f)
Total-bind (ok a) f h k = k a refl
Total-bind wild f h k = absurd h
Total-bind spin f h k = absurd h

pub Total-if {ℓ} :
    {A : Type ℓ} (b : Bool) (x y : Run A)
    → (b ≡ true → Total x)
    → (b ≡ false → Total y)
    → Total (if b then x else y)
Total-if true x y f g = f refl
Total-if false x y f g = g refl

pub Total-ok {ℓ} : {A : Type ℓ} (m : Run A) → Total m → (a : A) × (m ≡ ok a)
Total-ok (ok a) h = (a, refl)
Total-ok wild h = absurd h
Total-ok spin h = absurd h

-- An `int` result that is 0 or -1.
pub data Rc : Type 0 where
  success failure : Rc
