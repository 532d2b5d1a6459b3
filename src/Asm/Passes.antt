-- ===== src/Asm/Passes.antt =====
-- The two passes of the assembler and the file that it writes: `main` of asm/vm_asm.c. The input is the
-- list of its characters; an input that cannot be opened is not modelled.
use xhopin.Base.{
  ℕ, ◌-◌, Bool, true, false, ◌||◌, ltb, ◌==◌, if◌then◌else◌, List, [], ◌∷◌, ◌++◌, length, take,
  Option, none, some, Run, ok, wild, ◌>>=◌,
}
use xhopin.Word.{add32}
use xhopin.Life.{strncpy}
use xhopin.Asm.Text.{
  codes, char_at, take_while, drop_while, skip_space, differs_from, has_char, strip_prefix, bounded,
  word, tail, strtoul,
}
use xhopin.Asm.Operand.{Named, Tables}
use xhopin.Asm.Line.{word_bytes, assemble_line}

abbrev pub max_labels : ℕ
max_labels = 512

abbrev cons_first : ℕ → List (List ℕ) → List (List ℕ)
cons_first c [] = (c ∷ []) ∷ []
cons_first c (l ∷ ls) = (c ∷ l) ∷ ls

-- `fgets (line, 256, f)` until the end of the input: a line ends behind its newline, or when `room`
-- more characters have been read.
unfoldable pub fgets_all : ℕ → List ℕ → List (List ℕ)
fgets_all room [] = []
fgets_all room (c ∷ s) =
    let last = c == 10 || room == 1 in
    let rest = fgets_all (if last then 255 else room - 1) s in
    if last then (c ∷ []) ∷ rest else cons_first c rest

-- `line` up to a NUL, without the spaces at its start.
unfoldable pub line_start : List ℕ → List ℕ
unfolding take_while skip_space
line_start line = skip_space (take_while (differs_from 0) line)

-- `sscanf (p, ".name \"%[^\"]\"", a1) == 1`
unfoldable pub scan_name : List ℕ → Run (Option (List ℕ))
unfolding strip_prefix skip_space bounded take_while
scan_name p = elim (strip_prefix (codes ".name") p) [
  | none ↦ ok none
  | some r ↦
      if char_at (skip_space r) 0 == 34
      then bounded 64 (take_while (differs_from 34) (tail (skip_space r)))
      else ok none
]

-- A directive and one word, as `sscanf (p, ".ramsize %s", a1) == 1`.
unfoldable pub scan_directive : List ℕ → List ℕ → Run (Option (List ℕ))
unfolding strip_prefix bounded word
scan_directive directive p = elim (strip_prefix directive p) [
  | none ↦ ok none
  | some r ↦ bounded 64 (word r)
]

-- `sscanf (p, ".equ %[^,], %s", a1, a2) == 2`
unfoldable pub scan_equ : List ℕ → Run (Option Named)
unfolding strip_prefix skip_space bounded take_while drop_while word strtoul
scan_equ p = elim (strip_prefix (codes ".equ") p) [
  | none ↦ ok none
  | some r ↦ do
    a1 ← bounded 64 (take_while (differs_from 44) (skip_space r))
    elim a1 [
      | none ↦ ok none
      | some name ↦
          if has_char 44 r
          then (do
            a2 ← bounded 64 (word (tail (drop_while (differs_from 44) (skip_space r))))
            elim a2 [
              | none ↦ ok none
              | some v ↦ ok (some (record { name = take 63 name; value = strtoul v }))
            ])
          else ok none
    ]
]

-- The name of a label: `strtok (p, ":")`, without the spaces at its start. `strtok` finds nothing in
-- a string of colons.
unfoldable pub scan_label : List ℕ → Run (List ℕ)
unfolding drop_while take_while skip_space
scan_label p = elim (drop_while (λ c. c == 58) p) [
  | [] ↦ wild
  | c ∷ r ↦ ok (take 63 (skip_space (take_while (differs_from 58) (c ∷ r))))
]

-- A table of `max_labels` entries.
unfoldable pub add_entry : List Named → Named → Run (List Named)
add_entry es e = if ltb (length es) max_labels then ok (es ++ (e ∷ [])) else wild

-- The last two tests: a label, or a statement.
unfoldable pub label_or_statement : Tables → List ℕ → Run Tables
unfolding has_char scan_label add_entry
label_or_statement t p =
    if has_char 58 p
    then (do
      name ← scan_label p
      labels ← add_entry t.labels (record { name = name; value = t.pc })
      ok (record t { labels = labels }))
    else if char_at p 0 == 46
    then ok t
    else ok (record t { pc = add32 t.pc 4 })

unfoldable pub equ_or_other : Tables → List ℕ → Run Tables
unfolding scan_equ add_entry label_or_statement
equ_or_other t p = do
  equ ← scan_equ p
  elim equ [
    | some e ↦ do constants ← add_entry t.constants e; ok (record t { constants = constants })
    | none ↦ label_or_statement t p
  ]

unfoldable pub caps_or_other : Tables → List ℕ → Run Tables
unfolding scan_directive equ_or_other strtoul
caps_or_other t p = do
  found ← scan_directive (codes ".capabilities") p
  elim found [ some a ↦ ok (record t { caps = strtoul a }) | none ↦ equ_or_other t p ]

unfoldable pub ramsize_or_other : Tables → List ℕ → Run Tables
unfolding scan_directive caps_or_other strtoul
ramsize_or_other t p = do
  found ← scan_directive (codes ".ramsize") p
  elim found [ some a ↦ ok (record t { ram_size = strtoul a }) | none ↦ caps_or_other t p ]

-- The tests of the first pass, for a line that is neither empty nor a comment.
unfoldable pub directive : Tables → List ℕ → Run Tables
unfolding scan_name ramsize_or_other strncpy
directive t p = do
  name ← scan_name p
  elim name [
    | some a ↦ ok (record t { app_name = strncpy 15 a ++ (0 ∷ []) })
    | none ↦ ramsize_or_other t p
  ]

-- `!*p || *p == '#'`
abbrev pub is_comment : List ℕ → Bool
is_comment p = char_at p 0 == 0 || char_at p 0 == 35

unfoldable pub pass1 : List (List ℕ) → Tables → Run Tables
pass1 [] t = ok t
pass1 (line ∷ lines) t =
    let p = line_start line in do t' ← if is_comment p then ok t else directive t p; pass1 lines t'

-- Whether the second pass takes the line for a statement.
unfoldable pub is_statement : List ℕ → Bool
unfolding line_start has_char
is_statement line =
    let p = line_start line in
    if is_comment p || has_char 58 p || char_at p 0 == 46 then false else true

unfoldable pub pass2 : Tables → List (List ℕ) → ℕ → List ℕ → Run (List ℕ)
pass2 t [] pc code = ok code
pass2 t (line ∷ lines) pc code = elim (is_statement line) [
  | true ↦ assemble_line t (line_start line) pc code >>= λ code'. pass2 t lines (add32 pc 4) code'
  | false ↦ pass2 t lines pc code
]

-- The tables at the start.
abbrev pub start : Tables
start = record {
  labels = [];
  constants = [];
  app_name = strncpy 15 (codes "shell") ++ (0 ∷ []);
  ram_size = 0;
  caps = 0;
  pc = 0;
}

-- The file: the header, with 0 for the entry point and the checksum, and the code.
abbrev pub binary : Tables → List ℕ → List ℕ
binary t code =
    word_bytes 0xCAFE_FACE
    ++ (t.app_name
        ++ (word_bytes 1
            ++ (word_bytes (length code)
                ++ (word_bytes t.ram_size
                    ++ (word_bytes 0 ++ (word_bytes t.caps ++ (word_bytes 0 ++ code)))))))

-- `main`
unfoldable pub assemble : List ℕ → Run (List ℕ)
unfolding fgets_all pass1 directive pass2 is_statement line_start assemble_line
assemble text = do
  t ← pass1 (fgets_all 255 text) start
  code ← pass2 t (fgets_all 255 text) 0 []
  ok (binary t code)
