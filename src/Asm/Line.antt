-- ===== src/Asm/Line.antt =====
-- One line of the second pass: `assemble_line` of asm/vm_asm.c, from the text to the bytes.
use xhopin.Base.{
  ℕ, ◌+◌, ◌/◌, ◌%◌, ◌^◌, Bool, true, ◌&&◌, ◌||◌, ltb, leb, ◌==◌, if◌then◌else◌, List, [], ◌∷◌, ◌++◌,
  length, get_elem?, Run, ok, wild, or_wild, ◌>>=◌,
}
use xhopin.Word.{byte_of}
use xhopin.Asm.{
  Statement, add, sub, addi, loadw, loadb, storew, storeb, lui, mov, beq, bne, jmp, call, ret,
  vcall, halt, unknown, encode,
}
use xhopin.Asm.Text.{
  codes, char_at, str_eq, drop_while, differs_from, has_char, contains, words, atoi, tail,
}
use xhopin.Asm.Operand.{Tables, reg_to_num, resolve_value}

abbrev pub max_code : ℕ
max_code = 65536

-- `a1`, `a2` or `a3`: an array that `sscanf` did not fill is not initialised.
abbrev pub arg : List (List ℕ) → ℕ → Run (List ℕ)
arg args i = or_wild (get_elem? args i)

unfoldable pub reg_arg : List (List ℕ) → ℕ → Run ℕ
reg_arg args i = do a ← arg args i; reg_to_num a

unfoldable pub value_arg : Tables → List (List ℕ) → ℕ → Run ℕ
value_arg t args i = do a ← arg args i; resolve_value t a

-- `hi(...)` and `lo(...)` in the third operand of ADDI.
abbrev part_of : List ℕ → ℕ → ℕ
part_of a v =
    if contains (codes "hi(") a
    then v / 2 ^ 16
    else if contains (codes "lo(") a
    then v % 2 ^ 16
    else v

unfoldable pub three : (ℕ → ℕ → ℕ → Statement) → List (List ℕ) → Run Statement
unfolding reg_arg
three make args = do
  rd ← reg_arg args 0
  rs ← reg_arg args 1
  rt ← reg_arg args 2
  ok (make rd rs rt)

-- ADDI
unfoldable pub scan_addi : Tables → List (List ℕ) → Run Statement
unfolding reg_arg value_arg
scan_addi t args = do
  rd ← reg_arg args 0
  rs ← reg_arg args 1
  val ← value_arg t args 2
  a3 ← arg args 2
  ok (addi rd rs (part_of a3 val))

-- LOAD, with `imm(reg)` as its second operand or with three.
unfoldable pub scan_load : Tables → List (List ℕ) → Run Statement
unfolding reg_arg value_arg
scan_load t args = do
  rd ← reg_arg args 0
  a2 ← arg args 1
  if has_char 40 a2
      then (do
        imm ← atoi a2
        rs ← reg_to_num (tail (drop_while (differs_from 40) a2))
        ok (loadw rd rs imm))
      else (do rs ← reg_arg args 1; imm ← value_arg t args 2; ok (loadw rd rs imm))

-- STORE and STOREB: the base, the offset and the source.
unfoldable pub scan_store : (ℕ → ℕ → ℕ → Statement) → Tables → List (List ℕ) → Run Statement
unfolding reg_arg value_arg
scan_store make t args = do
  source ← reg_arg args 2
  base ← reg_arg args 0
  imm ← value_arg t args 1
  ok (make base imm source)

-- LOADB, BEQ and BNE
unfoldable pub scan_two : (ℕ → ℕ → ℕ → Statement) → Tables → List (List ℕ) → Run Statement
unfolding reg_arg value_arg
scan_two make t args = do
  rd ← reg_arg args 0
  rs ← reg_arg args 1
  v ← value_arg t args 2
  ok (make rd rs v)

-- The second half of the tests of `op`.
unfoldable pub scan_control : Tables → List ℕ → List (List ℕ) → Run Statement
unfolding scan_store scan_two value_arg str_eq
scan_control t op args =
    if str_eq op (codes "STORE")
    then scan_store storew t args
    else if str_eq op (codes "LOADB")
    then scan_two loadb t args
    else if str_eq op (codes "STOREB")
    then scan_store storeb t args
    else if str_eq op (codes "BEQ")
    then scan_two beq t args
    else if str_eq op (codes "BNE")
    then scan_two bne t args
    else if str_eq op (codes "JMP")
    then (do v ← value_arg t args 0; ok (jmp v))
    else if str_eq op (codes "CALL")
    then (do v ← value_arg t args 0; ok (call v))
    else if str_eq op (codes "RET")
    then ok ret
    else if str_eq op (codes "VCALL")
    then ok vcall
    else if str_eq op (codes "HALT")
    then ok halt
    else ok unknown

-- The tests of `op`.
unfoldable pub scan_statement : Tables → List ℕ → List (List ℕ) → Run Statement
unfolding three scan_addi scan_load scan_control reg_arg value_arg str_eq
scan_statement t op args =
    if str_eq op (codes "ADD")
    then three add args
    else if str_eq op (codes "SUB")
    then three sub args
    else if str_eq op (codes "ADDI")
    then scan_addi t args
    else if str_eq op (codes "LUI")
    then (do rd ← reg_arg args 0; v ← value_arg t args 1; ok (lui rd v))
    else if str_eq op (codes "MOV")
    then (do rd ← reg_arg args 0; rs ← reg_arg args 1; ok (mov rd rs))
    else if str_eq op (codes "LOAD")
    then scan_load t args
    else scan_control t op args

-- The bytes of a word, lowest first: the assembler runs on a little-endian host.
abbrev pub word_bytes : ℕ → List ℕ
word_bytes w = byte_of w 0 ∷ byte_of w 1 ∷ byte_of w 2 ∷ byte_of w 3 ∷ []

-- The array `code` has `max_code` bytes.
unfoldable pub emit : List ℕ → ℕ → Run (List ℕ)
emit code instr = if leb (length code + 4) max_code then ok (code ++ word_bytes instr) else wild

-- Each of the words fits into its array.
abbrev pub words_fit : List (List ℕ) → Bool
words_fit [] = true
words_fit (w ∷ ws) = ltb (length w) 64 && words_fit ws

-- The line from its words on.
unfoldable pub assemble_words : Tables → List (List ℕ) → ℕ → List ℕ → Run (List ℕ)
unfolding scan_statement emit encode
assemble_words t [] pc code = ok code
assemble_words t (op ∷ args) pc code =
    if ltb (length op) 32 && words_fit args
    then (if char_at op 0 == 35 || char_at op 0 == 46
        then ok code
        else (do s ← scan_statement t op args; emit code (encode pc s)))
    else wild

unfoldable pub assemble_line : Tables → List ℕ → ℕ → List ℕ → Run (List ℕ)
unfolding words assemble_words reg_to_num resolve_value contains has_char drop_while atoi
assemble_line t line pc code = assemble_words t (words 4 line) pc code
