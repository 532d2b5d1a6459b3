-- ===== src/Asm/Text.antt =====
-- What asm/vm_asm.c uses of the C library on strings. A string is the list of its characters, without
-- the NUL at its end. A character above 127 is no space and no digit.
use Prim.Native.Char.{code}
use Prim.Native.String.{String}
use xhopin.Base.{
  ℕ, zero, suc, ◌+◌, ◌-◌, ◌*◌, ◌%◌, ◌^◌, Bool, true, false, ◌&&◌, ◌||◌, not, ltb, leb, ◌==◌,
  if◌then◌else◌, List, [], ◌∷◌, length, Option, none, some, Run, ok, wild,
}
use xhopin.Word.{w32}

-- The characters of a literal.
abbrev pub codes : String → List ℕ
codes String.[] = []
codes (String.◌∷◌ c s) = code c ∷ codes s

abbrev pub is_space : ℕ → Bool
is_space c = c == 32 || (leb 9 c && leb c 13)

abbrev pub is_digit : ℕ → Bool
is_digit c = leb 48 c && leb c 57

-- `s[i]`, which is 0 at the end of the string
abbrev pub char_at : List ℕ → ℕ → ℕ
char_at [] i = 0
char_at (c ∷ s) zero = c
char_at (c ∷ s) (suc i) = char_at s i

-- `strcmp (a, b) == 0`
unfoldable pub str_eq : List ℕ → List ℕ → Bool
str_eq [] [] = true
str_eq [] (y ∷ b) = false
str_eq (x ∷ a) [] = false
str_eq (x ∷ a) (y ∷ b) = x == y && str_eq a b

-- The characters before the first one that fails the test, and those from it on.
unfoldable pub take_while : (ℕ → Bool) → List ℕ → List ℕ
take_while p [] = []
take_while p (c ∷ s) = if p c then c ∷ take_while p s else []

unfoldable pub drop_while : (ℕ → Bool) → List ℕ → List ℕ
drop_while p [] = []
drop_while p (c ∷ s) = if p c then drop_while p s else c ∷ s

unfoldable pub skip_space : List ℕ → List ℕ
unfolding drop_while
skip_space s = drop_while is_space s

abbrev pub differs_from : ℕ → ℕ → Bool
differs_from a c = not (c == a)

-- `strchr (s, c) != NULL`, for a `c` other than NUL
unfoldable pub has_char : ℕ → List ℕ → Bool
has_char c [] = false
has_char c (x ∷ s) = x == c || has_char c s

-- What follows a prefix.
unfoldable pub strip_prefix : List ℕ → List ℕ → Option (List ℕ)
strip_prefix [] s = some s
strip_prefix (x ∷ p) [] = none
strip_prefix (x ∷ p) (c ∷ s) = if x == c then strip_prefix p s else none

abbrev is_some : Option (List ℕ) → Bool
is_some none = false
is_some (some a) = true

-- `strstr (s, part) != NULL`
unfoldable pub contains : List ℕ → List ℕ → Bool
unfolding strip_prefix
contains part [] = is_some (strip_prefix part [])
contains part (c ∷ s) = is_some (strip_prefix part (c ∷ s)) || contains part s

-- A conversion of `sscanf` that found `token`, into an array of `size` characters.
unfoldable pub bounded : ℕ → List ℕ → Run (Option (List ℕ))
bounded size [] = ok none
bounded size (c ∷ token) = if ltb (length (c ∷ token)) size then ok (some (c ∷ token)) else wild

-- `%s`
unfoldable pub word : List ℕ → List ℕ
unfolding skip_space take_while
word s = take_while (λ c. not (is_space c)) (skip_space s)

unfoldable pub after_word : List ℕ → List ℕ
unfolding skip_space drop_while
after_word s = drop_while (λ c. not (is_space c)) (skip_space s)

-- `sscanf (s, "%s %s ...")` with `n` conversions: the words that it finds.
unfoldable pub words : ℕ → List ℕ → List (List ℕ)
unfolding word after_word
words zero s = []
words (suc n) s =
    let rest = words n (after_word s) in elim (word s) [ [] ↦ [] | c ∷ w ↦ (c ∷ w) ∷ rest ]

-- The value of a digit, 36 for any other character.
unfoldable pub digit_value : ℕ → ℕ
digit_value c =
    if is_digit c
    then c - 48
    else if leb 97 c && leb c 122
    then c - 87
    else if leb 65 c && leb c 90
    then c - 55
    else 36

-- The digits at the start of the string, behind those of `acc`.
unfoldable pub digits : ℕ → ℕ → List ℕ → ℕ
unfolding digit_value
digits base acc [] = acc
digits base acc (c ∷ s) =
    if ltb (digit_value c) base then digits base (acc * base + digit_value c) s else acc

abbrev pub tail : List ℕ → List ℕ
tail [] = []
tail (c ∷ s) = s

-- A number in base 0: hexadecimal behind `0x`, octal behind `0`, decimal.
unfoldable pub unsigned : List ℕ → ℕ
unfolding digits digit_value
unsigned s =
    if char_at s 0 == 48
    then (if (char_at s 1 == 120 || char_at s 1 == 88) && ltb (digit_value (char_at s 2)) 16
        then digits 16 0 (tail (tail s))
        else digits 8 0 s)
    else digits 10 0 s

-- `(uint32_t) strtoul (s, NULL, 0)`, for an `unsigned long` of 64 bits
unfoldable pub strtoul : List ℕ → ℕ
unfolding unsigned skip_space
strtoul s =
    let t = skip_space s in
    let negative = char_at t 0 == 45 in
    let signed = negative || char_at t 0 == 43 in
    let v = unsigned (if signed then tail t else t) in
    if leb (2 ^ 64) v then w32 - 1 else if negative then (w32 - v % w32) % w32 else v % w32

-- `atoi (s)` as 32 bits. C leaves open what it is for a number that is no `int`.
unfoldable pub atoi : List ℕ → Run ℕ
unfolding digits skip_space
atoi s =
    let t = skip_space s in
    let negative = char_at t 0 == 45 in
    let signed = negative || char_at t 0 == 43 in
    let v = digits 10 0 (if signed then tail t else t) in
    if negative
    then (if leb v (2 ^ 31) then ok ((w32 - v) % w32) else wild)
    else (if ltb v (2 ^ 31) then ok v else wild)
