-- ===== src/Ioapic/Tests.antt =====
-- Runs of kernel/arch/x86_64/cpu/ioapic.c on a device of 24 entries.
use quin_kernel_template.Base.{ℕ, ◌≡◌, refl, false, ◌==◌, if◌then◌else◌}
use quin_kernel_template.Ports.{Mmio}
use quin_kernel_template.Ioapic.{ioapic_set_irq}
use quin_kernel_template.Ioapic.Entries.{IoapicDevice}

record Chip : Type 0 where
  registers : ℕ → ℕ
  chosen : ℕ

abbrev io : Mmio Chip
io = record {
  write = λ d index value.
      if index == 0
      then record d { chosen = value }
      else record d { registers = λ k. if k == d.chosen then value else d.registers k };
  read = λ d index. (d, d.registers d.chosen);
}

abbrev device : IoapicDevice io
device = record {
  holds = λ d k. d.registers k;
  selected = λ d. d.chosen;
  selects = λ d r. refl;
  select_keeps = λ d r k. refl;
  writes = λ d v k le. refl;
  reads = λ d. refl;
  read_keeps = λ d k. refl;
}

abbrev chip : Chip
chip = record { registers = λ k. if k == 1 then 0x170020 else 0; chosen = 0 }

-- The keyboard's entry, at vector 33 of the CPU 2.
keyboard_low : (ioapic_set_irq io chip 1 33 2 false).registers 0x12 ≡ 33
unfolding ioapic_set_irq
keyboard_low = refl
