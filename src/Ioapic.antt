-- ===== src/Ioapic.antt =====
-- kernel/arch/x86_64/cpu/ioapic.c, over any device behind its two mapped registers.
pub mod Entries
mod Tests
use quin_kernel_template.Base.{
  ℕ, zero, suc, ◌+◌, ◌*◌, ◌/◌, ◌^◌, Bool, bit_and, bit_or, u32, ◌<<<◌, ◌>>>◌, if◌then◌else◌,
}
use quin_kernel_template.Ports.{Mmio}
use quin_kernel_template.Panic.{Outcome, ok, ◌>>=◌}
use quin_kernel_template.Vmm.{Vmm, vmm_map_mmio}

abbrev pub reg_select : ℕ
reg_select = 0x00

abbrev pub reg_window : ℕ
reg_window = 0x10

abbrev pub reg_version : ℕ
reg_version = 0x01

abbrev pub reg_redirection : (irq : ℕ) → ℕ
reg_redirection irq = 0x10 + 2 * irq

abbrev pub redir_masked : ℕ
redir_masked = 2 ^ 16

-- The largest number of an entry, by the version register.
abbrev pub max_entry : (version : ℕ) → ℕ
max_entry version = bit_and (version >>> 16) 0xff

module _ {D : Type 0} (io : Mmio D) where
  unfoldable pub ioapic_read : D → (reg : ℕ) → D × ℕ
  ioapic_read d reg = io.read (io.write d (reg_select / 4) reg) (reg_window / 4)

  unfoldable pub ioapic_write : D → (reg value : ℕ) → D
  ioapic_write d reg value = io.write (io.write d (reg_select / 4) reg) (reg_window / 4) value

  -- The loop of `ioapic_init`, with `left` rounds to go.
  unfoldable pub mask_all : D → (left irq : ℕ) → D
  unfolding ioapic_write
  mask_all d zero irq = d
  mask_all d (suc left) irq =
      mask_all
        (ioapic_write (ioapic_write d (reg_redirection irq) redir_masked) (reg_redirection irq + 1)
          0)
        left (irq + 1)

  -- `ioapic_init` once its registers are mapped.
  unfoldable pub mask_entries : D → D
  unfolding ioapic_read mask_all
  mask_entries d = let r = ioapic_read d reg_version in mask_all r.0 (max_entry r.1 + 1) 0

  -- The mapping and the base address, and the device.
  unfoldable pub ioapic_init : Vmm → D → (phys_base : ℕ) → Outcome (Vmm × ℕ × D)
  unfolding mask_entries
  ioapic_init vmm d phys_base = vmm_map_mmio vmm phys_base >>= λ r. ok (r.0, r.1, mask_entries d)

  unfoldable pub ioapic_set_irq : D → (irq vector dest_apic_id : ℕ) → (masked : Bool) → D
  unfolding ioapic_write
  ioapic_set_irq d irq vector dest_apic_id masked =
      let low = if masked then bit_or vector redir_masked else vector in
      let high = u32 (dest_apic_id <<< 24) in
      ioapic_write (ioapic_write d (reg_redirection irq + 1) high) (reg_redirection irq) low
