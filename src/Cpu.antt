-- ===== src/Cpu.antt =====
-- The registers of a task that does not run: arch/mips/impl/pic32mx_cpu.h and pic32mx_cpu.c. The
-- assembly that saves and restores them is not modelled.
use Prim.Native.Nat.{bit_or}
use xhopin.Base.{ℕ}

-- `CpuContext`
pub record CpuContext : Type 0 where
  pub ra : ℕ
  pub sp : ℕ
  pub gp : ℕ
  pub s0 : ℕ
  pub s1 : ℕ
  pub s2 : ℕ
  pub s3 : ℕ
  pub s4 : ℕ
  pub s5 : ℕ
  pub s6 : ℕ
  pub s7 : ℕ
  pub a0 : ℕ
  pub a1 : ℕ
  pub a2 : ℕ
  pub a3 : ℕ
  pub status : ℕ
  pub epc : ℕ
  pub fp : ℕ
  pub v0 : ℕ
  pub v1 : ℕ
  pub at : ℕ
  pub t0 : ℕ
  pub t1 : ℕ
  pub t2 : ℕ
  pub t3 : ℕ
  pub t4 : ℕ
  pub t5 : ℕ
  pub t6 : ℕ
  pub t7 : ℕ
  pub t8 : ℕ
  pub t9 : ℕ
  pub hi : ℕ
  pub lo : ℕ

-- `gp_reg` and `status_reg` are what the processor's registers hold. The other fields keep what is in
-- the memory.
unfoldable pub cpu_context_init : ℕ → ℕ → ℕ → ℕ → ℕ → ℕ → CpuContext → CpuContext
cpu_context_init gp_reg status_reg entry arg stack_top exit_handler ctx = record ctx {
  sp = stack_top;
  ra = exit_handler;
  epc = entry;
  a0 = arg;
  a1 = 0;
  a2 = 0;
  a3 = 0;
  gp = gp_reg;
  status = bit_or status_reg 1;
  s0 = 0;
  s1 = 0;
  s2 = 0;
  s3 = 0;
  s4 = 0;
  s5 = 0;
  s6 = 0;
  s7 = 0;
}
