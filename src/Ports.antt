-- ===== src/Ports.antt =====
-- The port input and output of kernel/arch/x86_64/cpu/io.h, its model-specific registers, and the
-- device registers that are mapped into memory: what an access does to the devices is a parameter of
-- the drivers.
use quin_kernel_template.Base.{ℕ, ◌==◌, if◌then◌else◌}

pub record Ports (D : Type 0) : Type 0 where
  pub outb : D → (port value : ℕ) → D
  pub inb : D → (port : ℕ) → D × ℕ

-- The 32-bit registers of a device, by their index from its base.
pub record Mmio (D : Type 0) : Type 0 where
  pub write : D → (index value : ℕ) → D
  pub read : D → (index : ℕ) → D × ℕ

-- `rdmsr` is the value of a register.
abbrev pub Msrs : Type 0
Msrs = ℕ → ℕ

abbrev pub wrmsr : Msrs → (msr value : ℕ) → Msrs
wrmsr m msr value x = if x == msr then value else m x
