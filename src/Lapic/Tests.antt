-- ===== src/Lapic/Tests.antt =====
-- Runs of kernel/arch/x86_64/cpu/lapic.c and lapic_timer.c on a bank of registers, whose reads of the
-- port 0x61 have bit 5 set, and whose current count is 0xfffe0000.
use mathlib.Core.Option
use quin_kernel_template.Base.{ℕ, ◌≡◌, refl, some, ◌==◌, if◌then◌else◌}
use quin_kernel_template.Ports.{Ports, Mmio}
use quin_kernel_template.Lapic.{lapic_timer_calibrate_and_start}

abbrev Bank : Type 0
Bank = ℕ → ℕ

abbrev io : Mmio Bank
io = record {
  write = λ d i v k. if k == i then v else d k;
  read = λ d i. (d, if i == 228 then 0xfffe0000 else d i);
}

abbrev ports : Ports Bank
ports = record { outb = λ d port v. d; inb = λ d port. (d, 0x20) }

abbrev bank : Bank
bank k = 0

-- 131071 ticks in ten milliseconds.
calibrated :
    Option.map (λ (r : Bank × ℕ). r.1) (lapic_timer_calibrate_and_start io ports 1 bank 32 1000)
    ≡ some 13107100
unfolding lapic_timer_calibrate_and_start
calibrated = refl
