-- ===== src/Asm/Registers.antt =====
-- The names of registers in the operands of a statement (asm/vm_asm.c).
use xhopin.Base.{
  ℕ, ◌<◌, ◌≡◌, refl, ap, ◌∙◌, Bool, true, false, not, ◌==◌, List, [], ◌∷◌, ◌++◌, get_or, Run, ok,
  arith,
}
use xhopin.Base.Tests.{all_below, all_below_lem}
use xhopin.Asm.{loadw}
use xhopin.Asm.Text.{take_while, differs_from, has_char, drop_while, atoi}
use xhopin.Asm.Operand.{Tables, regs, reg_of, reg_to_num}
use xhopin.Asm.Line.{scan_load}

-- The name of a register.
abbrev reg_name : ℕ → List ℕ
reg_name i = get_or regs i []

abbrev is_number : ℕ → Run ℕ → Bool
is_number n (ok m) = m == n
is_number n _ = false

is_number_lem : (n : ℕ) (r : Run ℕ) → is_number n r ≡ true → r ≡ ok n
is_number_lem n (ok m) h = ground arith
is_number_lem n Run.wild h = absurd (cc)
is_number_lem n Run.spin h = absurd (cc)

not-true : (b : Bool) → not b ≡ true → b ≡ false
not-true true h = absurd (cc)
not-true false h = refl

take_while-comma :
    (s rest : List ℕ)
    → has_char 44 s ≡ false
    → take_while (differs_from 44) (s ++ (44 ∷ rest)) ≡ take_while (differs_from 44) s
unfolding take_while has_char
take_while-comma [] rest h = refl
take_while-comma (c ∷ s) rest h = ground (arith, take_while-comma s rest)

no_comma : all_below 32 (λ i. not (has_char 44 (reg_name i))) ≡ true
unfolding all_below has_char
no_comma = refl

found : all_below 32 (λ i. is_number i (reg_to_num (reg_name i))) ≡ true
unfolding all_below reg_to_num
found = refl

bracket : all_below 32 (λ i. is_number 0 (reg_to_num (reg_name i ++ (41 ∷ [])))) ≡ true
unfolding all_below reg_to_num
bracket = refl

-- The name of a register with a comma and anything behind it, or with nothing, has its number.
reg_to_num-reg_name :
    (i : ℕ) (rest : List ℕ)
    → i < 32
    → (reg_to_num (reg_name i) ≡ ok i) × (reg_to_num (reg_name i ++ (44 ∷ rest)) ≡ ok i)
unfolding reg_to_num
reg_to_num-reg_name i rest small =
    let plain : reg_to_num (reg_name i) ≡ ok i =
      is_number_lem i (reg_to_num (reg_name i)) (all_below_lem 32 _ i found small) in
    let clean : has_char 44 (reg_name i) ≡ false =
      not-true (has_char 44 (reg_name i)) (all_below_lem 32 _ i no_comma small) in
    (plain, ap reg_of (take_while-comma (reg_name i) rest clean) ∙ plain)

drop_while-char :
    (c : ℕ) (s rest : List ℕ)
    → has_char c s ≡ false
    → (drop_while (differs_from c) (s ++ (c ∷ rest)) ≡ c ∷ rest)
      × (has_char c (s ++ (c ∷ rest)) ≡ true)
unfolding drop_while has_char
drop_while-char c [] rest h = ground arith
drop_while-char c (x ∷ s) rest h = ground (arith, drop_while-char c s rest)

-- LOAD with a second operand of the form `imm(reg)`, with a register's name, has register zero as its
-- base, whatever the name is.
scan_load-zero_base :
    (t : Tables) (a1 offset : List ℕ) (args : List (List ℕ)) (rd imm i : ℕ)
    → i < 32
    → has_char 40 offset ≡ false
    → reg_to_num a1 ≡ ok rd
    → atoi (offset ++ (40 ∷ (reg_name i ++ (41 ∷ [])))) ≡ ok imm
    → scan_load t (a1 ∷ (offset ++ (40 ∷ (reg_name i ++ (41 ∷ [])))) ∷ args) ≡ ok (loadw rd 0 imm)
unfolding scan_load
scan_load-zero_base t a1 offset args rd imm i small clean dest number =
    let base : reg_to_num (reg_name i ++ (41 ∷ [])) ≡ ok 0 =
      is_number_lem 0 (reg_to_num (reg_name i ++ (41 ∷ []))) (all_below_lem 32 _ i bracket small) in
    let (from, has) = drop_while-char 40 offset (reg_name i ++ (41 ∷ [])) clean in
    rw (dest, has, number, from, base)
