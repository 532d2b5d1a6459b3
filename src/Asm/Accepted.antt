-- ===== src/Asm/Accepted.antt =====
-- The file that the assembler writes (asm/vm_asm.c) is one that the loader accepts
-- (kernel/loader/app_loader.c).
use xhopin.Base.{
  ℕ, ◌+◌, ◌-◌, ◌%◌, ◌<◌, ◌≤◌, ◌≡◌, ◌≢◌, refl, sym, ap, ◌∙◌, ◌==◌, false, ltb, List, [], ◌∷◌, ◌++◌,
  length, length-append, ok, ◌>>=◌, bind_value, arith, Post-ok, ok-injective,
}
use xhopin.Base.Lists
use xhopin.Word.{w32, read_word}
use xhopin.Kernel.{Kernel, Allocator}
use xhopin.Life.{strncpy}
use xhopin.Vm.{AppHeader}
use xhopin.Loader.{accepted, check_header, app_magic, sizeof_app_header, start_app, kernel_load_app}
use xhopin.Asm.Text.{codes}
use xhopin.Asm.Operand.{Tables}
use xhopin.Asm.Line.{word_bytes, max_code}
use xhopin.Asm.Passes.{fgets_all, pass1, pass2, start, binary, assemble}
use xhopin.Asm.Labels.{pass2-pass1}
use xhopin.Asm.Ready.{IsReady, pass1-IsReady}
use xhopin.Asm.Layout.{
  strncpy-strncpy, length-strncpy, drop-append, read_word-append, read_word-word_bytes,
}

-- The header of the file and the code behind it.
abbrev pub header : Tables → List ℕ → AppHeader
header t code = record {
  magic = app_magic;
  name = t.app_name;
  version = 1;
  code_size = length code;
  ram_size = t.ram_size;
  entry_point = 0;
  capabilities = t.caps;
  checksum = 0;
}

-- The checks of the loader, from the words of the header.
check_header-accepted :
    (ptr : ℕ) (bin : List ℕ) (size code_size ram_size caps : ℕ)
    → ptr ≢ 0
    → ltb size sizeof_app_header ≡ false
    → ltb (size - sizeof_app_header) code_size ≡ false
    → read_word bin 0 ≡ ok app_magic
    → read_word bin 20 ≡ ok 1
    → read_word bin 24 ≡ ok code_size
    → read_word bin 28 ≡ ok ram_size
    → read_word bin 32 ≡ ok 0
    → read_word bin 36 ≡ ok caps
    → check_header ptr bin size
      ≡ ok (
          accepted (record {
            magic = app_magic;
            name = strncpy 16 (Lists.drop 4 bin);
            version = 1;
            code_size = code_size;
            ram_size = ram_size;
            entry_point = 0;
            capabilities = caps;
            checksum = 0;
          }))
unfolding check_header
check_header-accepted ptr bin size code_size ram_size caps ne whole inside f0 f1 f2 f3 f4 f5 =
    let some_ptr : (ptr == 0) ≡ false = ground arith in
    rw (some_ptr, whole, f0, f1, f2, f3, f4, f5, inside)

module _ (t : Tables) (code : List ℕ) (r : IsReady t) (small : length code ≤ max_code) where
  length-app_name : length t.app_name ≡ 16
  length-app_name =
      ap length r.named
      ∙ length-append (strncpy 15 r.source) (0 ∷ [])
      ∙ ap (λ n. n + 1) (length-strncpy 15 r.source)

  abbrev after_name : List ℕ
  after_name =
      word_bytes 1
      ++ (word_bytes (length code)
          ++ (word_bytes t.ram_size
              ++ (word_bytes 0 ++ (word_bytes t.caps ++ (word_bytes 0 ++ code)))))

  -- A word of the header behind the name and some bytes.
  field :
      (mid : List ℕ) (w : ℕ) (post : List ℕ) (n : ℕ)
      → length mid ≡ n
      → n % 4 ≡ 0
      → w < w32
      → read_word (word_bytes app_magic ++ (t.app_name ++ (mid ++ (word_bytes w ++ post)))) (20 + n)
        ≡ ok w
  field mid w post n l whole small =
      let tail = mid ++ (word_bytes w ++ post) in
      let place : 20 + n ≡ 4 + (16 + (n + 0)) = omega arith in
      ap (read_word (word_bytes app_magic ++ (t.app_name ++ tail))) place
      ∙ read_word-append (word_bytes app_magic) (t.app_name ++ tail) 4 (16 + (n + 0)) refl refl
      ∙ read_word-append t.app_name tail 16 (n + 0) length-app_name refl
      ∙ read_word-append mid (word_bytes w ++ post) n 0 l whole
      ∙ read_word-word_bytes w post small

  length-binary : length (binary t code) ≡ length code + sizeof_app_header
  length-binary = omega (arith, length-app_name, length-append {0})

  drop-binary : Lists.drop sizeof_app_header (binary t code) ≡ code
  drop-binary =
      let place : 40 ≡ length t.app_name + 24 = omega (arith, length-app_name) in
      ap (λ n. Lists.drop n (t.app_name ++ after_name)) place ∙ drop-append t.app_name after_name 24

  check_header-binary :
      (ptr : ℕ)
      → ptr ≢ 0
      → check_header ptr (binary t code) (length (binary t code)) ≡ ok (accepted (header t code))
  check_header-binary ptr ne =
      let len : length code < w32 = omega arith in
      let five = word_bytes t.caps ++ (word_bytes 0 ++ code) in
      let four = word_bytes 0 ++ five in
      let three = word_bytes t.ram_size ++ four in
      check_header-accepted ptr (binary t code) (length (binary t code)) (length code) t.ram_size
        t.caps ne (ground (arith, length-binary)) (ground (arith, length-binary))
        (read_word-word_bytes app_magic (t.app_name ++ after_name) (omega arith))
        (field [] 1 (word_bytes (length code) ++ three) 0 refl refl (omega arith))
        (field (word_bytes 1) (length code) three 4 refl refl len)
        (field (word_bytes 1 ++ word_bytes (length code)) t.ram_size four 8 refl refl r.ram_word)
        (field (word_bytes 1 ++ (word_bytes (length code) ++ word_bytes t.ram_size)) 0 five 12 refl
          refl (omega arith))
        (field
          (word_bytes 1 ++ (word_bytes (length code) ++ (word_bytes t.ram_size ++ word_bytes 0)))
          t.caps (word_bytes 0 ++ code) 16 refl refl r.caps_word)
      ∙ ap (λ name. ok (accepted (record (header t code) { name = name })))
          (ap (λ name. strncpy 16 (name ++ after_name)) r.named
            ∙ strncpy-strncpy 15 r.source after_name
            ∙ sym r.named)

start-IsReady : IsReady start
start-IsReady = record {
  ram_word = omega arith;
  caps_word = omega arith;
  source = codes "shell";
  named = refl;
}

-- What the loader starts, if its checks accept the header.
loads :
    (A : Allocator) (now entry ptr : ℕ) (bin : List ℕ) (h : AppHeader) (k : Kernel A.Mem)
    → check_header ptr bin (length bin) ≡ ok (accepted h)
    → kernel_load_app A now entry ptr bin (length bin) k
      ≡ start_app A now entry h (Lists.drop sizeof_app_header bin) k
unfolding kernel_load_app
loads A now entry ptr bin h k e = rw (e, kernel_load_app)

-- If the assembler makes a file of a text, its passes have made tables and a code, and the loader
-- accepts the file at an address other than NULL: it starts the program that has the name and the
-- sizes of the directives, its entry point at 0, and this code, as many bytes as the header says.
pub kernel_load_app-assemble :
    (A : Allocator) (now entry ptr : ℕ) (text bin : List ℕ) (k : Kernel A.Mem)
    → ptr ≢ 0
    → assemble text ≡ ok bin
    → (t : Tables) × (code : List ℕ) × (pass1 (fgets_all 255 text) start ≡ ok t)
      × (pass2 t (fgets_all 255 text) 0 [] ≡ ok code)
      × (kernel_load_app A now entry ptr bin (length bin) k
          ≡ start_app A now entry (header t code) code k)
unfolding assemble kernel_load_app
kernel_load_app-assemble A now entry ptr text bin k ne run =
    let lines = fgets_all 255 text in
    let (t, first, rest) =
      bind_value (pass1 lines start) (λ u. pass2 u lines 0 [] >>= λ c. ok (binary u c)) bin run in
    let (code, second, made) = bind_value (pass2 t lines 0 []) (λ c. ok (binary t c)) bin rest in
    let r = Post-ok IsReady (pass1 lines start) t (pass1-IsReady lines start start-IsReady) first in
    let small = (pass2-pass1 lines t code first second).2 in
    let same : bin ≡ binary t code = ok-injective (sym made) in
    let loaded =
      loads A now entry ptr (binary t code) (header t code) k
        (check_header-binary t code r small ptr ne) in
    let code_kept = drop-binary t code r small in
    (
      t,
      code,
      first,
      second,
      ap (λ b. kernel_load_app A now entry ptr b (length b) k) same
          ∙ loaded
          ∙ ap (λ c. start_app A now entry (header t code) c k) code_kept,
    )
