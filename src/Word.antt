-- ===== src/Word.antt =====
-- 32-bit arithmetic as the C code does it on `uint32_t`, sign extension, and words in byte buffers.
use xhopin.Base.{
  ℕ, ◌+◌, ◌-◌, ◌*◌, ◌/◌, ◌%◌, ◌^◌, List, ltb, ◌==◌, if◌then◌else◌, get_elem?, set, length, Run, ok,
  wild, or_wild, ◌>>=◌,
}

abbrev pub w32 : ℕ
w32 = 2 ^ 32

abbrev pub add32 : ℕ → ℕ → ℕ
add32 a b = (a + b) % w32

abbrev pub sub32 : ℕ → ℕ → ℕ
sub32 a b = (a + w32 - b) % w32

-- An `int8_t` and an `int16_t` widened to 32 bits.
abbrev pub sign8 : ℕ → ℕ
sign8 b = if ltb b 0x80 then b else b + 0xffff_ff00

abbrev pub sign16 : ℕ → ℕ
sign16 h = if ltb h 0x8000 then h else h + 0xffff_0000

-- `~x`
abbrev pub not32 : ℕ → ℕ
not32 x = w32 - 1 - x

-- `x << s` and `x >> s` of a `uint32_t`, and `x >> s` of an `int32_t`
abbrev pub shl32 : ℕ → ℕ → ℕ
shl32 x s = (x * 2 ^ s) % w32

abbrev pub shr32 : ℕ → ℕ → ℕ
shr32 x s = x / 2 ^ s

abbrev pub sar32 : ℕ → ℕ → ℕ
sar32 x s = if ltb x (2 ^ 31) then shr32 x s else not32 (shr32 (not32 x) s)

unfoldable pub read_byte : List ℕ → ℕ → Run ℕ
read_byte buf a = or_wild (get_elem? buf a)

unfoldable pub write_byte : List ℕ → ℕ → ℕ → Run (List ℕ)
write_byte buf a b = if ltb a (length buf) then ok (set buf a (b % 256)) else wild

-- The four bytes of a word, lowest first: the processor is little-endian.
abbrev pub word_of : ℕ → ℕ → ℕ → ℕ → ℕ
word_of b0 b1 b2 b3 = b0 + 0x100 * b1 + 0x1_0000 * b2 + 0x100_0000 * b3

abbrev pub byte_of : ℕ → ℕ → ℕ
byte_of w i = (w / 0x100 ^ i) % 0x100

-- A word access at an offset that is no multiple of four is an address error.
unfoldable pub read_word : List ℕ → ℕ → Run ℕ
unfolding read_byte
read_word buf a =
    if a % 4 == 0
    then (do
      b0 ← read_byte buf a
      b1 ← read_byte buf (a + 1)
      b2 ← read_byte buf (a + 2)
      b3 ← read_byte buf (a + 3)
      ok (word_of b0 b1 b2 b3))
    else wild

unfoldable pub write_word : List ℕ → ℕ → ℕ → Run (List ℕ)
unfolding write_byte
write_word buf a w =
    if a % 4 == 0
    then (do
      m0 ← write_byte buf a (byte_of w 0)
      m1 ← write_byte m0 (a + 1) (byte_of w 1)
      m2 ← write_byte m1 (a + 2) (byte_of w 2)
      write_byte m2 (a + 3) (byte_of w 3))
    else wild
