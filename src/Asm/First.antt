-- ===== src/Asm/First.antt =====
-- The first pass of the assembler (asm/vm_asm.c): what it counts, and what it does to its tables.
use mathlib.Core.List.{append-nil, append_assoc}
use xhopin.Base.{
  ℕ, ◌+◌, ◌*◌, ◌%◌, ◌<◌, ◌≡◌, refl, sym, ap, ◌∙◌, true, false, ◌==◌, if◌then◌else◌, List, [], ◌∷◌,
  ◌++◌, Option, none, some, Option-cases, inl, inr, Run, ok, ◌>>=◌, bind_value, arith, Post,
  Post-bind, Post-bind_any, Post-bind_eq, Post-bind_option, Post-if, Post-ok, Post-mono,
}
use xhopin.Word.{w32, add32}
use xhopin.Life.{strncpy}
use xhopin.Asm.Text.{codes, char_at, strip_prefix, has_char, strtoul}
use xhopin.Asm.Operand.{Named, Tables}
use xhopin.Asm.Passes.{
  scan_name, scan_directive, scan_equ, scan_label, add_entry, label_or_statement, equ_or_other,
  caps_or_other, ramsize_or_other, directive, is_comment, line_start, pass1, is_statement,
}

-- The number of statements among the lines.
unfoldable pub statements : List (List ℕ) → ℕ
statements [] = 0
statements (line ∷ lines) = (if is_statement line then 1 else 0) + statements lines

-- Whatever a scan for a directive finds, it finds in a line that starts with a dot.
abbrev Dotted {ℓ} : {A : Type ℓ} → List ℕ → Option A → Type 0
Dotted p none = Unit
Dotted p (some a) = (char_at p 0 == 46) ≡ true

strip_prefix-head :
    (x : ℕ) (r p q : List ℕ) → strip_prefix (x ∷ r) p ≡ some q → (char_at p 0 == x) ≡ true
unfolding strip_prefix
strip_prefix-head x r [] q h = absurd (cc)
strip_prefix-head x r (c ∷ p) q h = ground arith

Dotted-all {ℓ} :
    {A : Type ℓ} (p : List ℕ) (m : Run (Option A)) → (char_at p 0 == 46) ≡ true → Post (Dotted p) m
Dotted-all p (ok none) h = tt
Dotted-all p (ok (some a)) h = h
Dotted-all p Run.wild h = tt
Dotted-all p Run.spin h = tt

scan_name-Dotted : (p : List ℕ) → Post (Dotted p) (scan_name p)
unfolding scan_name
scan_name-Dotted p = elim (Option-cases (strip_prefix (codes ".name") p)) [
  | inl e ↦ rw e tt
  | inr (q, e) ↦ rw e (Dotted-all p _ (strip_prefix-head 46 (codes "name") p q e))
]

scan_directive-Dotted : (r p : List ℕ) → Post (Dotted p) (scan_directive (46 ∷ r) p)
unfolding scan_directive
scan_directive-Dotted r p = elim (Option-cases (strip_prefix (46 ∷ r) p)) [
  | inl e ↦ rw (e, Post, scan_directive) tt
  | inr (q, e) ↦ rw (e, scan_directive) (Dotted-all p _ (strip_prefix-head 46 r p q e))
]

scan_equ-Dotted : (p : List ℕ) → Post (Dotted p) (scan_equ p)
unfolding scan_equ
scan_equ-Dotted p = elim (Option-cases (strip_prefix (codes ".equ") p)) [
  | inl e ↦ rw e tt
  | inr (q, e) ↦ rw e (Dotted-all p _ (strip_prefix-head 46 (codes "equ") p q e))
]

-- What a line does to the count and the labels: a property of the new tables that holds if neither
-- changes, in a line that starts with a dot, is kept by a label, and by a statement.
module _ {κ} (P : Tables → Type κ) (t : Tables) (p : List ℕ) where
  pub record Cases : Type κ where
    pub same :
        (t' : Tables) → (char_at p 0 == 46) ≡ true → t'.pc ≡ t.pc → t'.labels ≡ t.labels → P t'
    pub label :
        (name : List ℕ) (labels : List Named)
        → has_char 58 p ≡ true
        → scan_label p ≡ ok name
        → add_entry t.labels (record { name = name; value = t.pc }) ≡ ok labels
        → P (record t { labels = labels })
    pub statement :
        has_char 58 p ≡ false → (char_at p 0 == 46) ≡ false → P (record t { pc = add32 t.pc 4 })

  label_or_statement-Post : Cases → Post P (label_or_statement t p)
  unfolding label_or_statement
  label_or_statement-Post c =
      Post-if P (has_char 58 p) _ _
        (λ e. Post-bind_eq P (scan_label p) _ λ name n.
          Post-bind_eq P (add_entry t.labels (record { name = name; value = t.pc })) _
            λ labels l. c.label name labels e n l)
        λ e. Post-if P (char_at p 0 == 46) _ _ (λ d. c.same t d refl refl) λ d. c.statement e d

  equ_or_other-Post : Cases → Post P (equ_or_other t p)
  unfolding equ_or_other
  equ_or_other-Post c =
      Post-bind_option (Dotted p) P (scan_equ p) (label_or_statement t p)
        (λ e. add_entry t.constants e >>= λ constants. ok (record t { constants = constants }))
        (scan_equ-Dotted p) (label_or_statement-Post c)
        λ e d.
          Post-bind_any P (add_entry t.constants e) _
            λ constants. c.same (record t { constants = constants }) d refl refl

  caps_or_other-Post : Cases → Post P (caps_or_other t p)
  unfolding caps_or_other
  caps_or_other-Post c =
      Post-bind_option (Dotted p) P (scan_directive (codes ".capabilities") p) (equ_or_other t p)
        (λ a. ok (record t { caps = strtoul a })) (scan_directive-Dotted (codes "capabilities") p)
        (equ_or_other-Post c) λ a d. c.same (record t { caps = strtoul a }) d refl refl

  ramsize_or_other-Post : Cases → Post P (ramsize_or_other t p)
  unfolding ramsize_or_other
  ramsize_or_other-Post c =
      Post-bind_option (Dotted p) P (scan_directive (codes ".ramsize") p) (caps_or_other t p)
        (λ a. ok (record t { ram_size = strtoul a })) (scan_directive-Dotted (codes "ramsize") p)
        (caps_or_other-Post c) λ a d. c.same (record t { ram_size = strtoul a }) d refl refl

  pub directive-Post : Cases → Post P (directive t p)
  unfolding directive
  directive-Post c =
      Post-bind_option (Dotted p) P (scan_name p) (ramsize_or_other t p)
        (λ a. ok (record t { app_name = strncpy 15 a ++ (0 ∷ []) })) (scan_name-Dotted p)
        (ramsize_or_other-Post c)
        λ a d. c.same (record t { app_name = strncpy 15 a ++ (0 ∷ []) }) d refl refl

-- The count goes up by four for a statement.
line-pc :
    (t : Tables) (line : List ℕ)
    → t.pc < w32
    → Post
        (λ t'. t'.pc ≡ (t.pc + 4 * (if is_statement line then 1 else 0)) % w32)
        (if is_comment (line_start line) then ok t else directive t (line_start line))
unfolding is_statement
line-pc t line small =
    let p = line_start line in
    let P : Tables → Type 0 =
      λ t'. t'.pc ≡ (t.pc + 4 * (if is_statement line then 1 else 0)) % w32 in
    Post-if P (is_comment p) _ _ (λ e. rw e (omega arith))
      λ e. directive-Post P t p (record {
        same = λ t' d q l. rw (e, d, q) (ground arith);
        label = λ name labels h n l. rw (e, h) (omega arith);
        statement = λ h d. rw (e, h, d) (omega arith);
      })

pub pass1-pc :
    (lines : List (List ℕ)) (t : Tables)
    → t.pc < w32
    → Post (λ t'. t'.pc ≡ (t.pc + 4 * statements lines) % w32) (pass1 lines t)
unfolding pass1 statements
pass1-pc [] t small = omega arith
pass1-pc (line ∷ lines) t small =
    Post-bind (λ t'. t'.pc ≡ (t.pc + 4 * (if is_statement line then 1 else 0)) % w32) _ _ _
      (line-pc t line small)
      λ t1 e. Post-mono _ _ (pass1 lines t1) (pass1-pc lines t1 (omega arith)) λ t' e'. omega arith

-- The labels of `t'` are those of `t` and more.
abbrev pub Grown : Tables → Tables → Type 0
Grown t t' = (more : List Named) × (t'.labels ≡ t.labels ++ more)

Grown-refl : (t : Tables) → Grown t t
Grown-refl t = ([], sym (append-nil t.labels))

Grown-trans : (a b c : Tables) → Grown a b → Grown b c → Grown a c
Grown-trans a b c (x, e) (y, f) = (x ++ y, f ∙ ap (λ z. z ++ y) e ∙ append_assoc a.labels x y)

add_entry_lem : (es es' : List Named) (e : Named) → add_entry es e ≡ ok es' → es' ≡ es ++ (e ∷ [])
unfolding add_entry
add_entry_lem es es' e h = ground arith

line-Grown :
    (t : Tables) (p : List ℕ) → Post (Grown t) (if is_comment p then ok t else directive t p)
line-Grown t p =
    Post-if (Grown t) (is_comment p) _ _ (λ e. Grown-refl t)
      λ e. directive-Post (Grown t) t p (record {
        same = λ t' d q l. ([], l ∙ sym (append-nil t.labels));
        label = λ name labels h n l. (
          record { name = name; value = t.pc } ∷ [],
          add_entry_lem t.labels labels (record { name = name; value = t.pc }) l,
        );
        statement = λ h d. Grown-refl t;
      })

pub pass1-Grown : (lines : List (List ℕ)) (t : Tables) → Post (Grown t) (pass1 lines t)
unfolding pass1
pass1-Grown [] t = Grown-refl t
pass1-Grown (line ∷ lines) t =
    Post-bind (Grown t) (Grown t) _ _ (line-Grown t (line_start line)) λ t1 h.
      Post-mono (Grown t1) (Grown t) (pass1 lines t1) (pass1-Grown lines t1)
        λ t2 h'. Grown-trans t t1 t2 h h'

-- The tables after the lines up to some place.
abbrev pub Through : List (List ℕ) → List (List ℕ) → Tables → Tables → Type 0
Through xs ys t t' = (t1 : Tables) × (pass1 xs t ≡ ok t1) × (pass1 ys t1 ≡ ok t')

pub pass1-append :
    (xs ys : List (List ℕ)) (t t' : Tables) → pass1 (xs ++ ys) t ≡ ok t' → Through xs ys t t'
unfolding pass1
pass1-append [] ys t t' h = (t, refl, h)
pass1-append (line ∷ xs) ys t t' h =
    let p = line_start line in
    let (t1, e, r) =
      bind_value (if is_comment p then ok t else directive t p) (λ u. pass1 (xs ++ ys) u) t' h in
    let (t2, e2, r2) = pass1-append xs ys t1 t' r in
    (t2, ap (λ m. m >>= λ u. pass1 xs u) e ∙ e2, r2)

-- The labels of a line that defines one, and of the lines behind it.
pub pass1-label :
    (line : List ℕ) (lines : List (List ℕ)) (t t' : Tables) (name : List ℕ)
    → is_comment (line_start line) ≡ false
    → (char_at (line_start line) 0 == 46) ≡ false
    → has_char 58 (line_start line) ≡ true
    → scan_label (line_start line) ≡ ok name
    → pass1 (line ∷ lines) t ≡ ok t'
    → (more : List Named) × (t'.labels ≡ t.labels ++ (record { name = name; value = t.pc } ∷ more))
unfolding pass1
pass1-label line lines t t' name c d h n run =
    let p = line_start line in
    let entry : Named = record { name = name; value = t.pc } in
    let P : Tables → Type 0 = λ u. u.labels ≡ t.labels ++ (entry ∷ []) in
    let (t1, e, r) = bind_value (directive t p) (λ u. pass1 lines u) t' (rw c at run) in
    let here : t1.labels ≡ t.labels ++ (entry ∷ []) =
      Post-ok P (directive t p) t1
        (directive-Post P t p (record {
          same = λ u dot q l. absurd (cc);
          label = λ name' labels h' n' l.
              let same_name : name ≡ name' = cc in
              rw same_name
                (add_entry_lem t.labels labels (record { name = name'; value = t.pc }) l);
          statement = λ h' d'. absurd (cc);
        }))
        e in
    let (more, grown) = Post-ok (Grown t1) (pass1 lines t1) t' (pass1-Grown lines t1) r in
    (more, grown ∙ ap (λ z. z ++ more) here ∙ append_assoc t.labels (entry ∷ []) more)
