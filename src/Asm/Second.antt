-- ===== src/Asm/Second.antt =====
-- The second pass of the assembler (asm/vm_asm.c): each statement is four bytes behind the code so far.
use mathlib.Core.List.{append-nil, append_assoc}
use xhopin.Base.{
  ℕ, suc, ◌+◌, ◌*◌, ◌≤◌, ◌≡◌, refl, sym, ap, ◌∙◌, true, false, not, ◌&&◌, ◌==◌, ltb, leb, List, [],
  ◌∷◌, ◌++◌, length, length-append, Bool-cases, inl, inr, ok, ◌>>=◌, arith, subst, Post,
  Post-bind_eq, Post-bind, Post-bind_any, Post-if, Post-mono,
}
use xhopin.Word.{add32}
use xhopin.Asm.{encode}
use xhopin.Asm.Text.{
  char_at, is_space, take_while, drop_while, skip_space, differs_from, word, words, after_word,
}
use xhopin.Asm.Operand.{Tables}
use xhopin.Asm.Line.{
  assemble_line, assemble_words, emit, max_code, scan_statement, word_bytes, words_fit,
}
use xhopin.Asm.Passes.{is_comment, line_start, is_statement, pass2}
use xhopin.Asm.First.{statements}

-- `code'` is `code` and `n` more bytes, and fits into the array if `code` did.
abbrev pub Emitted : ℕ → List ℕ → List ℕ → Type 0
Emitted n code code' =
    (more : List ℕ) × (code' ≡ code ++ more)
    × (length more ≡ n)
    × (length code ≤ max_code → length code' ≤ max_code)

Emitted-refl : (code : List ℕ) → Emitted 0 code code
Emitted-refl code = ([], sym (append-nil code), refl, λ h. h)

Emitted-trans : (m n : ℕ) (a b c : List ℕ) → Emitted m a b → Emitted n b c → Emitted (m + n) a c
Emitted-trans m n a b c (x, e, l, f) (y, e', l', f') = (
  x ++ y,
  e' ∙ ap (λ z. z ++ y) e ∙ append_assoc a x y,
  length-append x y ∙ omega arith,
  λ h. f' (f h),
)

emit-Emitted : (code : List ℕ) (instr : ℕ) → Post (Emitted 4 code) (emit code instr)
unfolding emit
emit-Emitted code instr =
    Post-if (Emitted 4 code) (leb (length code + 4) max_code) _ _
      (λ e. (
        word_bytes instr,
        refl,
        refl,
        λ h. let l = length-append code (word_bytes instr) in ground (arith, l),
      ))
      λ e. tt

-- A character at the start of a line is no space.
skip_space-start :
    (s : List ℕ)
    → (char_at (skip_space s) 0 == 0) ≡ false
    → is_space (char_at (skip_space s) 0) ≡ false
unfolding skip_space
skip_space-start [] h = absurd (cc)
skip_space-start (c ∷ s) h = elim (Bool-cases (is_space c)) [
  | inl e ↦ rw (e, drop_while) (skip_space-start s (rw (e, drop_while) at h))
  | inr e ↦ rw (e, drop_while) e
]

word-start :
    (x : ℕ) (p : List ℕ)
    → is_space x ≡ false
    → word (x ∷ p) ≡ x ∷ take_while (λ c. not (is_space c)) p
unfolding word skip_space drop_while take_while
word-start x p s =
    let start : drop_while is_space (x ∷ p) ≡ x ∷ p = rw (s, drop_while) in
    let taken : take_while (λ c. not (is_space c)) (x ∷ p)
        ≡ x ∷ take_while (λ c. not (is_space c)) p =
      rw (s, take_while) in
    ap (take_while (λ c. not (is_space c))) start ∙ taken

words-start :
    (n x : ℕ) (p : List ℕ)
    → is_space x ≡ false
    → words (suc n) (x ∷ p)
      ≡ (x ∷ take_while (λ c. not (is_space c)) p) ∷ words n (after_word (x ∷ p))
unfolding words
words-start n x p s = rw (word-start x p s, words)

assemble_words-Emitted :
    (t : Tables) (x : ℕ) (w : List ℕ) (args : List (List ℕ)) (pc : ℕ) (code : List ℕ)
    → (x == 35) ≡ false
    → (x == 46) ≡ false
    → Post (Emitted 4 code) (assemble_words t ((x ∷ w) ∷ args) pc code)
unfolding assemble_words
assemble_words-Emitted t x w args pc code c d =
    rw (c, d)
      (Post-if (Emitted 4 code) (ltb (length (x ∷ w)) 32 && words_fit args) _ _
        (λ fits.
          Post-bind_any (Emitted 4 code) (scan_statement t (x ∷ w) args) _
            λ st. emit-Emitted code (encode pc st))
        λ fits. tt)

-- The bytes of a line that starts with a character, not a space, a comment or a directive.
assemble_line-Emitted :
    (t : Tables) (p : List ℕ) (pc : ℕ) (code : List ℕ)
    → is_space (char_at p 0) ≡ false
    → is_comment p ≡ false
    → (char_at p 0 == 46) ≡ false
    → Post (Emitted 4 code) (assemble_line t p pc code)
unfolding assemble_line
assemble_line-Emitted t [] pc code s c d = absurd (cc)
assemble_line-Emitted t (x ∷ p) pc code s c d =
    subst (λ ws. Post (Emitted 4 code) (assemble_words t ws pc code)) (sym (words-start 3 x p s))
      (assemble_words-Emitted t x (take_while (λ c. not (is_space c)) p)
        (words 3 (after_word (x ∷ p))) pc code (ground arith) d)

statement-Emitted :
    (t : Tables) (line : List ℕ) (pc : ℕ) (code : List ℕ)
    → is_statement line ≡ true
    → Post (Emitted 4 code) (assemble_line t (line_start line) pc code)
unfolding is_statement line_start
statement-Emitted t line pc code h =
    let s = take_while (differs_from 0) line in
    let p = skip_space s in
    let comment : is_comment p ≡ false = ground arith in
    let some_char : (char_at p 0 == 0) ≡ false = ground arith in
    assemble_line-Emitted t p pc code (skip_space-start s some_char) comment (ground arith)

module _ (t : Tables) (line : List ℕ) (lines : List (List ℕ)) (pc : ℕ) (code : List ℕ) where
  pass2_step :
      is_statement line ≡ true
      → pass2 t (line ∷ lines) pc code
        ≡ (assemble_line t (line_start line) pc code >>= λ c. pass2 t lines (add32 pc 4) c)
  unfolding pass2
  pass2_step e = rw (e, pass2)

  pass2_skip : is_statement line ≡ false → pass2 t (line ∷ lines) pc code ≡ pass2 t lines pc code
  unfolding pass2
  pass2_skip e = rw (e, pass2)

statements_step :
    (line : List ℕ) (lines : List (List ℕ))
    → is_statement line ≡ true
    → 4 + 4 * statements lines ≡ 4 * statements (line ∷ lines)
unfolding statements
statements_step line lines e = rw (e, statements) (omega arith)

statements_skip :
    (line : List ℕ) (lines : List (List ℕ))
    → is_statement line ≡ false
    → statements (line ∷ lines) ≡ statements lines
unfolding statements
statements_skip line lines e = rw (e, statements) (omega arith)

pub pass2-Emitted :
    (t : Tables) (lines : List (List ℕ)) (pc : ℕ) (code : List ℕ)
    → Post (Emitted (4 * statements lines) code) (pass2 t lines pc code)
unfolding pass2 statements
pass2-Emitted t [] pc code = Emitted-refl code
pass2-Emitted t (line ∷ lines) pc code = elim (Bool-cases (is_statement line)) [
  | inl e ↦
      rw (pass2_step t line lines pc code e, ← statements_step line lines e)
        (Post-bind (Emitted 4 code) (Emitted (4 + 4 * statements lines) code)
          (assemble_line t (line_start line) pc code) (λ c. pass2 t lines (add32 pc 4) c)
          (statement-Emitted t line pc code e)
          λ code1 h.
            Post-mono (Emitted (4 * statements lines) code1)
              (Emitted (4 + 4 * statements lines) code) (pass2 t lines (add32 pc 4) code1)
              (pass2-Emitted t lines (add32 pc 4) code1)
              λ code2 h'. Emitted-trans 4 (4 * statements lines) code code1 code2 h h')
  | inr e ↦
      rw (pass2_skip t line lines pc code e, statements_skip line lines e)
        (pass2-Emitted t lines pc code)
]

-- `c` begins with the code of the lines.
abbrev pub StartsWith : Tables → List (List ℕ) → ℕ → List ℕ → List ℕ → Type 0
StartsWith t lines pc code c =
    (c1 : List ℕ) × (pass2 t lines pc code ≡ ok c1) × (more : List ℕ) × (c ≡ c1 ++ more)

-- The code of the lines up to some place is the start of the code of all.
pub pass2-append :
    (t : Tables) (xs ys : List (List ℕ)) (pc : ℕ) (code : List ℕ)
    → Post (StartsWith t xs pc code) (pass2 t (xs ++ ys) pc code)
unfolding pass2
pass2-append t [] ys pc code =
    Post-mono (Emitted (4 * statements ys) code) (StartsWith t [] pc code) (pass2 t ys pc code)
      (pass2-Emitted t ys pc code) λ c (more, e, l, f). (code, refl, more, e)
pass2-append t (line ∷ xs) ys pc code = elim (Bool-cases (is_statement line)) [
  | inl e ↦ rw (pass2_step t line (xs ++ ys) pc code e) (
      Post-bind_eq (StartsWith t (line ∷ xs) pc code) (assemble_line t (line_start line) pc code)
        (λ c. pass2 t (xs ++ ys) (add32 pc 4) c)
        λ code1 h.
          Post-mono (StartsWith t xs (add32 pc 4) code1) (StartsWith t (line ∷ xs) pc code)
            (pass2 t (xs ++ ys) (add32 pc 4) code1) (pass2-append t xs ys (add32 pc 4) code1)
            λ c (c1, run, more, rest). (
              c1,
              pass2_step t line xs pc code e
                  ∙ ap (λ m. m >>= λ c'. pass2 t xs (add32 pc 4) c') h
                  ∙ run,
              more,
              rest,
            ))
  | inr e ↦ rw (pass2_skip t line (xs ++ ys) pc code e) (
      Post-mono (StartsWith t xs pc code) (StartsWith t (line ∷ xs) pc code)
        (pass2 t (xs ++ ys) pc code) (pass2-append t xs ys pc code)
        λ c (c1, run, more, rest). (c1, pass2_skip t line xs pc code e ∙ run, more, rest))
]
