-- ===== src/Asm/Layout.antt =====
-- Words and names in a file of the assembler (asm/vm_asm.c), as they are read back.
use native.Mathlib.Nat.{zero-add}
use xhopin.Base.{
  ℕ, zero, suc, ◌+◌, ◌%◌, ◌<◌, ◌≡◌, refl, ap, ◌∙◌, ◌==◌, List, [], ◌∷◌, ◌++◌, get_elem?, length, ok,
  arith, replicate, Bool-cases, inl, inr, length-replicate,
}
use xhopin.Base.Lists
use xhopin.Word.{w32, read_word}
use xhopin.Life.{strncpy}
use xhopin.Asm.Line.{word_bytes}

replicate-append : (n : ℕ) → replicate {A = ℕ} (suc n) 0 ≡ replicate n 0 ++ (0 ∷ [])
replicate-append zero = refl
replicate-append (suc n) = ap (λ l. 0 ∷ l) (replicate-append n)

-- The name is read back as it was written.
pub strncpy-strncpy :
    (n : ℕ) (s r : List ℕ)
    → strncpy (suc n) ((strncpy n s ++ (0 ∷ [])) ++ r) ≡ strncpy n s ++ (0 ∷ [])
unfolding strncpy
strncpy-strncpy zero s r = refl
strncpy-strncpy (suc n) [] r = replicate-append (suc n)
strncpy-strncpy (suc n) (c ∷ s) r = elim (Bool-cases (c == 0)) [
  | inl e ↦ rw e (replicate-append (suc n))
  | inr e ↦ rw (e, e) (ap (λ l. c ∷ l) (strncpy-strncpy n s r))
]

pub length-strncpy : (n : ℕ) (s : List ℕ) → length (strncpy n s) ≡ n
unfolding strncpy
length-strncpy zero s = refl
length-strncpy (suc n) [] = length-replicate (suc n) 0
length-strncpy (suc n) (c ∷ s) = elim (Bool-cases (c == 0)) [
  | inl e ↦ rw e (length-replicate (suc n) 0)
  | inr e ↦ rw e (ap suc (length-strncpy n s))
]

pub get_elem?-append :
    (xs ys : List ℕ) (a : ℕ) → get_elem? (xs ++ ys) (length xs + a) ≡ get_elem? ys a
get_elem?-append [] ys a = rw zero-add
get_elem?-append (x ∷ xs) ys a =
    let e : suc (length xs) + a ≡ suc (length xs + a) = omega arith in
    rw e (get_elem?-append xs ys a)

pub drop-append : (xs ys : List ℕ) (n : ℕ) → Lists.drop (length xs + n) (xs ++ ys) ≡ Lists.drop n ys
drop-append [] ys n = rw zero-add
drop-append (x ∷ xs) ys n =
    let e : suc (length xs) + n ≡ suc (length xs + n) = omega arith in rw e (drop-append xs ys n)

-- A byte and a word behind other bytes.
get_elem?-behind :
    (xs ys : List ℕ) (n a i : ℕ)
    → length xs ≡ n
    → i ≡ n + a
    → get_elem? (xs ++ ys) i ≡ get_elem? ys a
get_elem?-behind xs ys n a i l e =
    ap (get_elem? (xs ++ ys)) (omega arith) ∙ get_elem?-append xs ys a

pub read_word-append :
    (xs ys : List ℕ) (n a : ℕ)
    → length xs ≡ n
    → n % 4 ≡ 0
    → read_word (xs ++ ys) (n + a) ≡ read_word ys a
unfolding read_word
read_word-append xs ys n a l whole =
    let same : (n + a) % 4 ≡ a % 4 = omega arith in
    let b0 = get_elem?-behind xs ys n a (n + a) l refl in
    let b1 = get_elem?-behind xs ys n (a + 1) (n + a + 1) l (omega arith) in
    let b2 = get_elem?-behind xs ys n (a + 2) (n + a + 2) l (omega arith) in
    let b3 = get_elem?-behind xs ys n (a + 3) (n + a + 3) l (omega arith) in
    rw (same, b0, b1, b2, b3) refl

-- A word at the start.
pub read_word-word_bytes : (w : ℕ) (ys : List ℕ) → w < w32 → read_word (word_bytes w ++ ys) 0 ≡ ok w
unfolding read_word
read_word-word_bytes w ys small = ap ok (omega arith)
