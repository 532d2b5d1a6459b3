-- ===== src/Converter.antt =====
-- The converter of a binary to C text: asm/bin2c.c. The file is the list of its bytes, and the result is
-- what is printed; wrong arguments and a file that cannot be opened are not modelled.
use native.Mathlib.Nat.{pow-suc}
use xhopin.Base.{
  ℕ, zero, suc, ◌+◌, ◌/◌, ◌%◌, ◌≡◌, ◌<◌, refl, ltb, ◌==◌, if◌then◌else◌, List, [], ◌∷◌, ◌++◌,
  length, arith, ap, ◌∙◌, ◌*◌, ◌-◌, ◌^◌, true, Bool-cases, inl, inr,
}
use xhopin.Base.Tests.{all_below, all_below_lem}
use xhopin.Asm.Text.{codes, strtoul}

unfoldable pub hex_digit : ℕ → ℕ
hex_digit d = if ltb d 10 then 48 + d else 87 + d

-- "0x%02x,"
unfoldable pub element : ℕ → List ℕ
unfolding hex_digit
element b = codes "0x" ++ (hex_digit (b / 16) ∷ (hex_digit (b % 16) ∷ codes ","))

-- The loop, from round `i` on. A newline follows every twelfth byte.
unfoldable pub elements : ℕ → List ℕ → List ℕ
unfolding element
elements i [] = []
elements i (b ∷ buf) =
    element b ++ ((if (i + 1) % 12 == 0 then codes "\n" else []) ++ elements (i + 1) buf)

-- The digits of a number of at most `k` of them, in front of `rest`.
unfoldable pub print_digits : ℕ → ℕ → List ℕ → List ℕ
print_digits zero n rest = rest
print_digits (suc k) n rest =
    let more = print_digits k (n / 10) ((48 + n % 10) ∷ rest) in
    if ltb n 10 then (48 + n) ∷ rest else more

-- "%ld", for a number below 2 ^ 63, which has at most nineteen digits.
unfoldable pub decimal : ℕ → List ℕ
unfolding print_digits
decimal n = print_digits 19 n []

-- `main`: `name` is `argv[2]`.
unfoldable pub convert : List ℕ → List ℕ → List ℕ
unfolding elements decimal
convert name buf =
    codes "const unsigned char "
    ++ (name
        ++ (codes "[] = {\n"
            ++ (elements 0 buf
                ++ (codes "\n};\n"
                    ++ (codes "const unsigned int "
                        ++ (name ++ (codes "_len = " ++ (decimal (length buf) ++ codes ";\n"))))))))

element_read : all_below 256 (λ b. strtoul (element b) == b) ≡ true
unfolding all_below strtoul element
element_read = refl

-- Each byte is printed as a number of C that is the byte.
strtoul-element : (b : ℕ) → b < 256 → strtoul (element b) ≡ b
strtoul-element b lt =
    let same = all_below_lem 256 (λ b. strtoul (element b) == b) b element_read lt in ground arith

-- The number whose digits follow those of `acc`.
read_digits : ℕ → List ℕ → ℕ
read_digits acc [] = acc
read_digits acc (c ∷ cs) = read_digits (acc * 10 + (c - 48)) cs

print_digits_lem :
    (k n : ℕ) (rest : List ℕ)
    → n < 10 ^ k
    → read_digits 0 (print_digits k n rest) ≡ read_digits n rest
unfolding print_digits read_digits
print_digits_lem zero n rest lt = ap (λ m. read_digits m rest) (omega arith)
print_digits_lem (suc k) n rest lt =
    let power : 10 ^ suc k ≡ 10 ^ k * 10 = pow-suc 10 k in
    elim (Bool-cases (ltb n 10)) [
      | inl small ↦ rw small (ap (λ m. read_digits m rest) (omega arith))
      | inr large ↦ rw large (
          print_digits_lem k (n / 10) ((48 + n % 10) ∷ rest) (omega arith)
          ∙ ap (λ m. read_digits m rest) (omega arith))
    ]

-- The size that is printed is the size of the file, which is below 2 ^ 63.
read_digits-decimal : (n : ℕ) → n < 2 ^ 63 → read_digits 0 (decimal n) ≡ n
unfolding decimal read_digits
read_digits-decimal n lt = print_digits_lem 19 n [] (omega arith)
