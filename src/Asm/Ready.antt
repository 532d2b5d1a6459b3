-- ===== src/Asm/Ready.antt =====
-- What the first pass of the assembler (asm/vm_asm.c) keeps true of the data of the header.
use xhopin.Base.{
  ℕ, ◌<◌, ◌≡◌, refl, ◌==◌, if◌then◌else◌, List, [], ◌∷◌, ◌++◌, ok, ◌>>=◌, arith, Post, Post-bind,
  Post-bind_any, Post-if, Post_any, Post-bind_option,
}
use xhopin.Word.{w32}
use xhopin.Life.{strncpy}
use xhopin.Asm.Text.{codes, char_at, has_char, strtoul}
use xhopin.Asm.Operand.{Tables}
use xhopin.Asm.Passes.{
  scan_name, scan_directive, scan_equ, scan_label, add_entry, label_or_statement, equ_or_other,
  caps_or_other, ramsize_or_other, directive, is_comment, line_start, pass1,
}

-- What the first pass keeps true of the header's data: the sizes are words, and the name is made by
-- `strncpy`, with a NUL behind it.
pub record FillsHeader (name : List ℕ) (ram_size caps : ℕ) : Type 0 where
  pub ram_word : ram_size < w32
  pub caps_word : caps < w32
  pub source : List ℕ
  pub named : name ≡ strncpy 15 source ++ (0 ∷ [])

abbrev pub IsReady : Tables → Type 0
IsReady t = FillsHeader t.app_name t.ram_size t.caps

strtoul-lt : (s : List ℕ) → strtoul s < w32
unfolding strtoul
strtoul-lt s = ground arith

module _ (t : Tables) (r : IsReady t) (p : List ℕ) where
  label_or_statement-IsReady : Post IsReady (label_or_statement t p)
  unfolding label_or_statement
  label_or_statement-IsReady =
      Post-if IsReady (has_char 58 p) _ _
        (λ e. Post-bind_any IsReady (scan_label p) _ λ name.
          Post-bind_any IsReady (add_entry t.labels (record { name = name; value = t.pc })) _
            λ labels. r)
        λ e. Post-if IsReady (char_at p 0 == 46) _ _ (λ d. r) λ d. r

  equ_or_other-IsReady : Post IsReady (equ_or_other t p)
  unfolding equ_or_other
  equ_or_other-IsReady =
      Post-bind_option (λ _. Unit {0}) IsReady (scan_equ p) (label_or_statement t p)
        (λ e. add_entry t.constants e >>= λ constants. ok (record t { constants = constants }))
        (Post_any (scan_equ p)) label_or_statement-IsReady
        λ e _. Post-bind_any IsReady (add_entry t.constants e) _ λ constants. r

  caps_or_other-IsReady : Post IsReady (caps_or_other t p)
  unfolding caps_or_other
  caps_or_other-IsReady =
      Post-bind_option (λ _. Unit {0}) IsReady (scan_directive (codes ".capabilities") p)
        (equ_or_other t p) (λ a. ok (record t { caps = strtoul a })) (Post_any _)
        equ_or_other-IsReady
        λ a _. record {
          ram_word = r.ram_word;
          caps_word = strtoul-lt a;
          source = r.source;
          named = r.named;
        }

  ramsize_or_other-IsReady : Post IsReady (ramsize_or_other t p)
  unfolding ramsize_or_other
  ramsize_or_other-IsReady =
      Post-bind_option (λ _. Unit {0}) IsReady (scan_directive (codes ".ramsize") p)
        (caps_or_other t p) (λ a. ok (record t { ram_size = strtoul a })) (Post_any _)
        caps_or_other-IsReady
        λ a _. record {
          ram_word = strtoul-lt a;
          caps_word = r.caps_word;
          source = r.source;
          named = r.named;
        }

  directive-IsReady : Post IsReady (directive t p)
  unfolding directive
  directive-IsReady =
      Post-bind_option (λ _. Unit {0}) IsReady (scan_name p) (ramsize_or_other t p)
        (λ a. ok (record t { app_name = strncpy 15 a ++ (0 ∷ []) })) (Post_any _)
        ramsize_or_other-IsReady
        λ a _. record { ram_word = r.ram_word; caps_word = r.caps_word; source = a; named = refl }

pub pass1-IsReady : (lines : List (List ℕ)) (t : Tables) → IsReady t → Post IsReady (pass1 lines t)
unfolding pass1
pass1-IsReady [] t r = r
pass1-IsReady (line ∷ lines) t r =
    Post-bind IsReady IsReady
      (if is_comment (line_start line) then ok t else directive t (line_start line)) _
      (Post-if IsReady (is_comment (line_start line)) _ _ (λ e. r)
        λ e. directive-IsReady t r (line_start line))
      λ t1 r1. pass1-IsReady lines t1 r1
