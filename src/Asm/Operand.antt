-- ===== src/Asm/Operand.antt =====
-- The operands of a statement: `reg_to_num` and `resolve_value` of asm/vm_asm.c, over its tables of
-- constants and labels.
use xhopin.Base.{
  ℕ, suc, ◌%◌, ◌&&◌, ◌||◌, ltb, ◌==◌, if◌then◌else◌, List, [], ◌∷◌, length, Option, none, some, Run,
  ok, wild, ◌>>=◌,
}
use xhopin.Asm.Text.{
  codes, is_digit, char_at, str_eq, take_while, drop_while, differs_from, has_char, bounded, tail,
  strtoul, atoi,
}

-- `label_t` and `const_t`: a name and its number
pub record Named : Type 0 where
  pub name : List ℕ
  pub value : ℕ

-- The tables, and what the first pass finds besides: the name, of 16 characters, the sizes and the
-- number of bytes of the statements so far.
pub record Tables : Type 0 where
  pub labels : List Named
  pub constants : List Named
  pub app_name : List ℕ
  pub ram_size : ℕ
  pub caps : ℕ
  pub pc : ℕ

-- `regs`
abbrev pub regs : List (List ℕ)
regs =
    codes "zero"
    ∷ codes "at"
    ∷ codes "v0"
    ∷ codes "v1"
    ∷ codes "a0"
    ∷ codes "a1"
    ∷ codes "a2"
    ∷ codes "a3"
    ∷ codes "t0"
    ∷ codes "t1"
    ∷ codes "t2"
    ∷ codes "t3"
    ∷ codes "t4"
    ∷ codes "t5"
    ∷ codes "t6"
    ∷ codes "t7"
    ∷ codes "s0"
    ∷ codes "s1"
    ∷ codes "s2"
    ∷ codes "s3"
    ∷ codes "s4"
    ∷ codes "s5"
    ∷ codes "s6"
    ∷ codes "s7"
    ∷ codes "t8"
    ∷ codes "t9"
    ∷ codes "k0"
    ∷ codes "k1"
    ∷ codes "gp"
    ∷ codes "sp"
    ∷ codes "fp"
    ∷ codes "ra"
    ∷ []

-- The first of the names that is `r`, the first of them with the number `i`.
unfoldable pub reg_index : List (List ℕ) → ℕ → List ℕ → Option ℕ
unfolding str_eq
reg_index [] i r = none
reg_index (name ∷ names) i r = if str_eq r name then some i else reg_index names (suc i) r

-- What `reg_to_num` does with `r`, which `sscanf (name, "%[^,]", r)` filled; where that found nothing,
-- `r` is not initialised.
unfoldable pub reg_of : List ℕ → Run ℕ
unfolding reg_index bounded atoi
reg_of token = do
  found ← bounded 32 token
  elim found [
    | none ↦ wild
    | some r ↦ elim (reg_index regs 0 r) [
      | some i ↦ ok i
      | none ↦
          if char_at r 0 == 114 && is_digit (char_at r 1)
          then (do n ← atoi (tail r); ok (n % 0x100))
          else ok 0
    ]
  ]

-- The `int`, as the `uint8_t` that the callers keep.
unfoldable pub reg_to_num : List ℕ → Run ℕ
unfolding reg_of take_while
reg_to_num name = reg_of (take_while (differs_from 44) name)

-- The number of the first entry with the name.
unfoldable pub lookup : List Named → List ℕ → Option ℕ
unfolding str_eq
lookup [] name = none
lookup (e ∷ es) name = if str_eq e.name name then some (e.value) else lookup es name

-- `clean` has 64 characters.
abbrev fit : List ℕ → Run (List ℕ)
fit s = if ltb (length s) 64 then ok s else wild

-- What `resolve_value` puts into `clean`: what stands between the brackets, or what stands before
-- the comma. Without a closing bracket `clean` is not initialised, and with one before the opening
-- bracket the length is negative.
unfoldable pub clean_of : List ℕ → Run (List ℕ)
unfolding has_char take_while drop_while
clean_of s =
    if has_char 40 s
    then (if has_char 41 (take_while (differs_from 40) s)
        then wild
        else if has_char 41 s
        then fit (take_while (differs_from 41) (tail (drop_while (differs_from 40) s)))
        else wild)
    else fit (take_while (differs_from 44) s)

unfoldable pub resolve_value : Tables → List ℕ → Run ℕ
unfolding clean_of lookup strtoul
resolve_value t s = do
  clean ← clean_of s
  if is_digit (char_at clean 0) || (char_at clean 0 == 45 && is_digit (char_at clean 1))
      then ok (strtoul clean)
      else elim (lookup t.constants clean) [
        | some v ↦ ok v
        | none ↦ elim (lookup t.labels clean) [ some v ↦ ok v | none ↦ ok 0 ]
      ]
