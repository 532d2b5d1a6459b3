-- ===== src/Vm/Invariant.antt =====
-- The well-formedness of a machine, and that every instruction of kernel/vm/vm_core.c keeps it.
pub mod Execute
pub mod Loop
use xhopin.Base.{
  ℕ, ◌+◌, ◌%◌, ◌^◌, ◌<◌, ◌≡◌, refl, ◌∙◌, some, arith, ltb, ◌==◌, length, get_elem?, List, All,
  All-set, All-get_elem?, length-set, Post, Post-bind, Post-if, Post-or_wild,
}
use xhopin.Word.{read_byte, write_byte, read_word, write_word, byte_of}
use xhopin.Vm.{Vm, VmState, error}
use xhopin.Vm.Step.{reg, set_reg}

abbrev pub IsWord : ℕ → Type 0
IsWord w = w < 2 ^ 32

abbrev pub IsByte : ℕ → Type 0
IsByte b = b < 256

-- Well formed but for register zero.
pub record IsSound (vm : Vm) : Type 0 where
  pub bank : length vm.gp ≡ 32
  pub words : All IsWord vm.gp
  pub pc_word : IsWord vm.pc
  pub ram_length : length vm.ram ≡ vm.ram_size
  pub ram_bytes : All IsByte vm.ram
  pub code_bytes : All IsByte vm.code

pub record IsValid (vm : Vm) : Type 0 where
  pub sound : IsSound vm
  pub zero_reg : get_elem? vm.gp 0 ≡ some 0

-- What no instruction of a machine changes: its code, the extent of its RAM and its rights.
pub record SameObject (vm vm' : Vm) : Type 0 where
  pub code : vm'.code ≡ vm.code
  pub code_size : vm'.code_size ≡ vm.code_size
  pub ram_ptr : vm'.ram_ptr ≡ vm.ram_ptr
  pub ram_size : vm'.ram_size ≡ vm.ram_size
  pub capabilities : vm'.capabilities ≡ vm.capabilities
  pub name : vm'.name ≡ vm.name
  pub ref_count : vm'.ref_count ≡ vm.ref_count

abbrev pub Kept : Vm → Vm → Type 0
Kept vm vm' = IsSound vm' × SameObject vm vm'

pub SameObject-refl : (vm : Vm) → SameObject vm vm
SameObject-refl vm = ground arith

-- What the parts of an instruction return.
module _ (vm : Vm) (h : IsSound vm) where
  pub reg-IsWord : (i : ℕ) → Post IsWord (reg vm i)
  unfolding reg
  reg-IsWord i =
      Post-or_wild IsWord (get_elem? vm.gp i) (λ w e. All-get_elem? IsWord vm.gp i h.words e)

  pub set_reg-Kept : (i v : ℕ) → IsWord v → Post (Kept vm) (set_reg vm i v)
  unfolding set_reg
  set_reg-Kept i v w =
      Post-if (Kept vm) (ltb i (length vm.gp)) _ _
        (λ e. (
          record {
            bank = length-set vm.gp i v ∙ h.bank;
            words = All-set IsWord vm.gp i v h.words w;
            pc_word = h.pc_word;
            ram_length = h.ram_length;
            ram_bytes = h.ram_bytes;
            code_bytes = h.code_bytes;
          },
          ground arith,
        ))
        (λ e. tt)

  pub pc-Kept : (a : ℕ) → IsWord a → Kept vm (record vm { pc = a })
  pc-Kept a w = ground arith

  pub fail-Kept : Kept vm (record vm { state = error })
  fail-Kept = ground arith

  pub ram-Kept :
      (m : List ℕ) → (length m ≡ length vm.ram) × All IsByte m → Kept vm (record vm { ram = m })
  ram-Kept m (e, b) = (
    record {
      bank = h.bank;
      words = h.words;
      pc_word = h.pc_word;
      ram_length = e ∙ h.ram_length;
      ram_bytes = b;
      code_bytes = h.code_bytes;
    },
    ground arith,
  )

pub read_byte-IsByte : (buf : List ℕ) (a : ℕ) → All IsByte buf → Post IsByte (read_byte buf a)
unfolding read_byte
read_byte-IsByte buf a h =
    Post-or_wild IsByte (get_elem? buf a) (λ b e. All-get_elem? IsByte buf a h e)

pub read_word-IsWord : (buf : List ℕ) (a : ℕ) → All IsByte buf → Post IsWord (read_word buf a)
unfolding read_word
read_word-IsWord buf a h =
    Post-if IsWord (a % 4 == 0) _ _
      (λ e. Post-bind IsByte IsWord (read_byte buf a) _ (read_byte-IsByte buf a h) λ b0 h0.
        Post-bind IsByte IsWord (read_byte buf (a + 1)) _ (read_byte-IsByte buf (a + 1) h) λ b1 h1.
          Post-bind IsByte IsWord (read_byte buf (a + 2)) _ (read_byte-IsByte buf (a + 2) h)
            λ b2 h2.
              Post-bind IsByte IsWord (read_byte buf (a + 3)) _ (read_byte-IsByte buf (a + 3) h)
                λ b3 h3. omega arith)
      (λ e. tt)

-- A buffer of bytes as long as another.
abbrev pub SameLength : List ℕ → List ℕ → Type 0
SameLength buf m = (length m ≡ length buf) × All IsByte m

pub write_byte-SameLength :
    (buf m : List ℕ) (a b : ℕ) → SameLength buf m → Post (SameLength buf) (write_byte m a b)
unfolding write_byte
write_byte-SameLength buf m a b (e, h) =
    Post-if (SameLength buf) (ltb a (length m)) _ _
      (λ t. (length-set m a (b % 256) ∙ e, All-set IsByte m a (b % 256) h (omega arith))) (λ t. tt)

pub write_word-SameLength :
    (buf : List ℕ) (a w : ℕ) → All IsByte buf → Post (SameLength buf) (write_word buf a w)
unfolding write_word
write_word-SameLength buf a w h =
    Post-if P (a % 4 == 0) _ _
      (λ e.
        Post-bind P P (write_byte buf a (byte_of w 0)) _
          (write_byte-SameLength buf buf a (byte_of w 0) (refl, h))
          λ m0 h0.
            Post-bind P P (write_byte m0 (a + 1) (byte_of w 1)) _
              (write_byte-SameLength buf m0 (a + 1) (byte_of w 1) h0)
              λ m1 h1.
                Post-bind P P (write_byte m1 (a + 2) (byte_of w 2)) _
                  (write_byte-SameLength buf m1 (a + 2) (byte_of w 2) h1)
                  λ m2 h2. write_byte-SameLength buf m2 (a + 3) (byte_of w 3) h2)
      (λ e. tt)
  where
    P : List ℕ → Type 0
    P = SameLength buf
