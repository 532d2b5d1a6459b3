-- ===== src/Chip.antt =====
-- The processors: arch/arch.h, arch/mips/pic32mx470f512h.h and arch/mips/pic32mz2048efm144.h. A mask is
-- given by the numbers of its bits.
pub mod Memory
use Prim.Native.Nat.{bit_and, bit_or}
use xhopin.Base.{ℕ, ◌+◌, ◌*◌, ◌/◌, ◌^◌, Bool, ◌==◌, not, List, [], ◌∷◌}

-- `(1u << a) | (1u << b) | ...`
unfoldable pub mask_of : List ℕ → ℕ
mask_of [] = 0
mask_of (b ∷ bits) = bit_or (2 ^ b) (mask_of bits)

-- The lines of a kind: those of the processor and those of the configuration.
pub record Lines : Type 0 where
  pub machine : ℕ
  pub config : ℕ

-- The constants of a processor. The capabilities that `arch.h` asks for are masks.
pub record Chip : Type 0 where
  pub cpu_hz : ℕ
  pub mem_ram_size : ℕ
  pub ramdisk_block_size : ℕ
  pub ramdisk_block_count : ℕ
  pub max_storage_devices : ℕ
  pub cpus : ℕ
  pub kernel_stack : ℕ
  pub max_kernel_devices : ℕ
  pub caps_spi : ℕ
  pub caps_i2c : ℕ
  pub caps_core_timer : ℕ
  pub caps_uart : ℕ
  pub caps : Lines
  pub spi : Lines
  pub i2c : Lines
  pub core_timer : Lines
  pub uart : Lines
  pub machine_tmr : ℕ

abbrev pub pic32mx470f512h : Chip
pic32mx470f512h = record {
  cpu_hz = 80000000;
  mem_ram_size = 131072;
  ramdisk_block_size = 32;
  ramdisk_block_count = 1024;
  max_storage_devices = 4;
  cpus = 1;
  kernel_stack = 256;
  max_kernel_devices = 32;
  caps_spi = 2 ^ 0;
  caps_i2c = 2 ^ 2;
  caps_core_timer = 2 ^ 14;
  caps_uart = 2 ^ 15;
  caps = record {
    machine = mask_of (0 ∷ 1 ∷ 2 ∷ 3 ∷ 4 ∷ 5 ∷ 6 ∷ 7 ∷ 8 ∷ 9 ∷ 10 ∷ 11 ∷ 12 ∷ 13 ∷ 14 ∷ 15 ∷ []);
    config = mask_of (0 ∷ 2 ∷ 14 ∷ 15 ∷ []);
  };
  spi = record { machine = mask_of (0 ∷ 1 ∷ []); config = mask_of (0 ∷ []) };
  i2c = record { machine = mask_of (0 ∷ 1 ∷ []); config = mask_of (0 ∷ []) };
  core_timer = record { machine = mask_of (0 ∷ []); config = mask_of (0 ∷ []) };
  uart = record { machine = mask_of (0 ∷ 1 ∷ 2 ∷ 3 ∷ []); config = mask_of (0 ∷ []) };
  machine_tmr = mask_of (0 ∷ 1 ∷ []);
}

abbrev pub pic32mz2048efm144 : Chip
pic32mz2048efm144 = record {
  cpu_hz = 200000000;
  mem_ram_size = 524288;
  ramdisk_block_size = 32;
  ramdisk_block_count = 16384;
  max_storage_devices = 4;
  cpus = 1;
  kernel_stack = 256;
  max_kernel_devices = 32;
  caps_spi = 2 ^ 0;
  caps_i2c = 2 ^ 1;
  caps_core_timer = 2 ^ 5;
  caps_uart = 2 ^ 2;
  caps = record {
    machine = mask_of (
        0 ∷ 1 ∷ 2 ∷ 3 ∷ 4 ∷ 5 ∷ 6 ∷ 7 ∷ 8 ∷ 9 ∷ 10 ∷ 11 ∷ 12 ∷ 13 ∷ 14 ∷ 15 ∷ 16 ∷ 17 ∷ 18 ∷ 19 ∷ 20
        ∷ 21 ∷ 22 ∷ []);
    config = mask_of (0 ∷ 1 ∷ 2 ∷ 5 ∷ []);
  };
  spi = record { machine = mask_of (0 ∷ 1 ∷ 2 ∷ 3 ∷ 4 ∷ 5 ∷ []); config = mask_of (0 ∷ []) };
  i2c = record { machine = mask_of (0 ∷ 1 ∷ 2 ∷ 3 ∷ 4 ∷ []); config = mask_of (0 ∷ []) };
  core_timer = record { machine = mask_of (0 ∷ []); config = mask_of (0 ∷ []) };
  uart = record { machine = mask_of (0 ∷ 1 ∷ 2 ∷ 3 ∷ 4 ∷ 5 ∷ []); config = mask_of (0 ∷ []) };
  machine_tmr = mask_of (0 ∷ 1 ∷ 2 ∷ 3 ∷ 4 ∷ 5 ∷ 6 ∷ 7 ∷ 8 ∷ []);
}

-- `((MACHINE & CONFIG) & mask) != 0`, as `HAS_CAPS`, `HAS_SPI` and the others.
unfoldable pub has : Lines → ℕ → Bool
has l mask = not (bit_and (bit_and l.machine l.config) mask == 0)

unfoldable pub arch_has_spi : Chip → Bool
unfolding has
arch_has_spi c = has c.caps c.caps_spi

unfoldable pub arch_has_i2c : Chip → Bool
unfolding has
arch_has_i2c c = has c.caps c.caps_i2c

unfoldable pub arch_has_core_timer : Chip → Bool
unfolding has
arch_has_core_timer c = has c.caps c.caps_core_timer

unfoldable pub arch_has_uart : Chip → Bool
unfolding has
arch_has_uart c = has c.caps c.caps_uart

-- `MEM_HEAP_SIZE` and `NUM_UNITS` of kernel/memory/mem_alloc.h and mem_alloc.c.
abbrev pub mem_heap_size : Chip → ℕ
mem_heap_size c = c.mem_ram_size / 2

abbrev pub num_units : Chip → ℕ
num_units c = mem_heap_size c / 8
