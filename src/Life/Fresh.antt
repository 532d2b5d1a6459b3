-- ===== src/Life/Fresh.antt =====
-- The machine that `vm_create` (kernel/vm/vm_core.c) sets up is well formed.
use xhopin.Base.{
  ℕ, zero, suc, ◌%◌, ◌≡◌, refl, ◌∙◌, List, replicate, length-set, length-replicate, All, All-set,
  arith,
}
use xhopin.Word.{sub32}
use xhopin.Vm.{AppHeader}
use xhopin.Vm.Reg
use xhopin.Vm.Invariant.{IsWord, IsByte, IsValid}
use xhopin.Life.{align4, new_vm}

All-replicate : (P : ℕ → Type 0) (n a : ℕ) → P a → All P (replicate n a)
All-replicate P zero a h = tt
All-replicate P (suc n) a h = (h, All-replicate P n a h)

-- A machine made for a header whose entry point is a word, with bytes for its code, is well formed:
-- 32 registers that hold words, register zero 0, and a RAM of as many bytes as it says, a multiple of
-- four.
pub new_vm-IsValid :
    (header : AppHeader) (code : List ℕ) (ram_ptr : ℕ)
    → IsWord header.entry_point
    → All IsByte code
    → IsValid (new_vm header code ram_ptr) × ((new_vm header code ram_ptr).ram_size % 4 ≡ 0)
unfolding new_vm
new_vm-IsValid header code ram_ptr entry bytes = (
  record {
    sound = record {
      bank =
          length-set {A = ℕ} (replicate 32 0) Reg.sp (sub32 (align4 header.ram_size) 4)
          ∙ length-replicate {A = ℕ} 32 0;
      words =
          All-set IsWord (replicate 32 0) Reg.sp (sub32 (align4 header.ram_size) 4)
            (All-replicate IsWord 32 0 (omega arith)) (omega arith);
      pc_word = entry;
      ram_length = length-replicate {A = ℕ} (align4 header.ram_size) 0;
      ram_bytes = All-replicate IsByte (align4 header.ram_size) 0 (omega arith);
      code_bytes = bytes;
    };
    zero_reg = refl;
  },
  omega arith,
)
