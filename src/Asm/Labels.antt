-- ===== src/Asm/Labels.antt =====
-- The two passes of the assembler (asm/vm_asm.c) together: a label stands for the place in the code at
-- which it is defined.
use xhopin.Base.{
  ℕ, ◌*◌, ◌≤◌, ◌≡◌, refl, sym, ap, ◌∙◌, Bool, true, false, ◌&&◌, ◌||◌, ◌==◌, List, [], ◌∷◌, ◌++◌,
  length, none, some, ok, ok-injective, arith, Post-ok,
}
use xhopin.Asm.Text.{char_at, str_eq, is_digit, has_char}
use xhopin.Asm.Operand.{Named, Tables, lookup, clean_of, resolve_value}
use xhopin.Asm.Line.{max_code}
use xhopin.Asm.Passes.{is_comment, line_start, scan_label, start, pass1, pass2}
use xhopin.Asm.First.{statements, pass1-pc, pass1-append, pass1-label}
use xhopin.Asm.Second.{Emitted, StartsWith, pass2-Emitted, pass2-append}

pass1-length :
    (lines : List (List ℕ)) (t0 t : Tables) (code : List ℕ)
    → pass1 lines start ≡ ok t0
    → pass2 t lines 0 [] ≡ ok code
    → (t0.pc ≡ length code) × (length code ≡ 4 * statements lines) × (length code ≤ max_code)
pass1-length lines t0 t code first second =
    let count = Post-ok _ (pass1 lines start) t0 (pass1-pc lines start (omega arith)) first in
    let (more, e, l, fits) =
      Post-ok (Emitted (4 * statements lines) []) (pass2 t lines 0 []) code
        (pass2-Emitted t lines 0 []) second in
    let long : length code ≡ 4 * statements lines = ap length e ∙ l in
    let bound : length code ≤ max_code = fits (omega arith) in (omega arith, long, bound)

-- If the first pass over some lines ends, and the second with its tables, the first has counted as
-- many bytes as the second writes, four for each statement, and they fit into the array.
pub pass2-pass1 :
    (lines : List (List ℕ)) (t : Tables) (code : List ℕ)
    → pass1 lines start ≡ ok t
    → pass2 t lines 0 [] ≡ ok code
    → (t.pc ≡ length code) × (length code ≡ 4 * statements lines) × (length code ≤ max_code)
pass2-pass1 lines t code first second = pass1-length lines t t code first second

-- The line defines the label: it is no comment and no directive, and has a colon behind the name.
pub record DefinesLabel (line name : List ℕ) : Type 0 where
  pub statement : is_comment (line_start line) ≡ false
  pub no_dot : (char_at (line_start line) 0 == 46) ≡ false
  pub colon : has_char 58 (line_start line) ≡ true
  pub named : scan_label (line_start line) ≡ ok name

-- The test of `resolve_value` for a number.
abbrev pub is_number : List ℕ → Bool
is_number s = is_digit (char_at s 0) || (char_at s 0 == 45 && is_digit (char_at s 1))

str_eq_self : (s : List ℕ) → str_eq s s ≡ true
unfolding str_eq
str_eq_self [] = refl
str_eq_self (c ∷ s) = ground (arith, str_eq_self s)

lookup-append :
    (es more : List Named) (name : List ℕ) (v : ℕ)
    → lookup es name ≡ none
    → lookup (es ++ (record { name = name; value = v } ∷ more)) name ≡ some v
unfolding lookup
lookup-append [] more name v h = rw (str_eq_self name)
lookup-append (e ∷ es) more name v h = ground (arith, lookup-append es more name v)

resolved :
    (t : Tables) (s name : List ℕ) (v : ℕ)
    → clean_of s ≡ ok name
    → is_number name ≡ false
    → lookup t.constants name ≡ none
    → lookup t.labels name ≡ some v
    → resolve_value t s ≡ ok v
unfolding resolve_value
resolved t s name v cl num c l = rw (cl, num, c, l)

-- An operand that is the name of a label, and not of a constant, has as its value the number of bytes
-- of the code before the line that first defines the label, if both passes end.
pub resolve_value-label :
    (before after : List (List ℕ)) (line name s : List ℕ) (t0 t : Tables) (code : List ℕ)
    → pass1 before start ≡ ok t0
    → pass1 (before ++ (line ∷ after)) start ≡ ok t
    → pass2 t (before ++ (line ∷ after)) 0 [] ≡ ok code
    → DefinesLabel line name
    → lookup t0.labels name ≡ none
    → lookup t.constants name ≡ none
    → clean_of s ≡ ok name
    → is_number name ≡ false
    → (c1 more : List ℕ) × (pass2 t before 0 [] ≡ ok c1)
      × (code ≡ c1 ++ more)
      × (resolve_value t s ≡ ok (length c1))
resolve_value-label before after line name s t0 t code run0 first second d fresh no_constant cl
      num =
    let (t1, e1, rest) = pass1-append before (line ∷ after) start t first in
    let same : t0 ≡ t1 = ok-injective (sym run0 ∙ e1) in
    let (ls, labels) =
      pass1-label line after t0 t name d.statement d.no_dot d.colon d.named (rw same rest) in
    let found : lookup t.labels name ≡ some (t0.pc) =
      rw labels (lookup-append t0.labels ls name t0.pc fresh) in
    let (c1, e2, more, split) =
      Post-ok (StartsWith t before 0 []) (pass2 t (before ++ (line ∷ after)) 0 []) code
        (pass2-append t before (line ∷ after) 0 []) second in
    let (as_many, long, bound) = pass1-length before t0 t c1 run0 e2 in
    (c1, more, e2, split, resolved t s name t0.pc cl num no_constant found ∙ ap ok as_many)
