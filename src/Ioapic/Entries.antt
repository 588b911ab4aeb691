-- ===== src/Ioapic/Entries.antt =====
-- kernel/arch/x86_64/cpu/ioapic.c: the redirection entries of an I/O APIC.
use quin_kernel_template.Base.{
  ℕ, zero, suc, ◌+◌, ◌*◌, ◌/◌, ◌%◌, ◌^◌, ◌≤◌, ◌≡◌, refl, ap, ◌∙◌, arith, Bool, ◌&&◌, bit_or,
  bit_and, u32, ◌<<<◌, ltb, leb, ◌==◌, if◌then◌else◌,
}
use quin_kernel_template.Ports.{Mmio}
use quin_kernel_template.Ioapic.{
  reg_redirection, redir_masked, reg_version, ioapic_read, ioapic_write, mask_all, mask_entries,
  max_entry, ioapic_set_irq,
}

-- What the driver relies on of the device: a register behind the window is selected by its number,
-- and a redirection register holds what was last written to it.
pub record IoapicDevice {D : Type 0} (io : Mmio D) : Type 0 where
  pub holds : D → ℕ → ℕ
  pub selected : D → ℕ
  pub selects : (d : D) (r : ℕ) → selected (io.write d 0 r) ≡ r
  pub select_keeps : (d : D) (r k : ℕ) → holds (io.write d 0 r) k ≡ holds d k
  pub writes :
      (d : D) (v k : ℕ)
      → 0x10 ≤ selected d
      → holds (io.write d 4 v) k ≡ (if k == selected d then v else holds d k)
  pub reads : (d : D) → (io.read d 4).1 ≡ holds d (selected d)
  pub read_keeps : (d : D) (k : ℕ) → holds (io.read d 4).0 k ≡ holds d k

module _ {D : Type 0} (io : Mmio D) (dev : IoapicDevice io) where
  write_lem :
      (d : D) (reg value k : ℕ)
      → 0x10 ≤ reg
      → dev.holds (ioapic_write io d reg value) k ≡ (if k == reg then value else dev.holds d k)
  unfolding ioapic_write
  write_lem d reg value k le =
      dev.writes (io.write d 0 reg) value k (omega (arith, dev.selects d reg))
      ∙ rw (dev.selects d reg, dev.select_keeps d reg k) refl

  -- ioapic_set_irq programs the two words of the entry of that interrupt, and no other register.
  set_irq_lem :
      (d : D) (irq vector dest k : ℕ) (masked : Bool)
      → dev.holds (ioapic_set_irq io d irq vector dest masked) k ≡ (
          if k == 0x10 + 2 * irq
          then if masked then bit_or vector (2 ^ 16) else vector
          else if k == 0x11 + 2 * irq
          then dest * 2 ^ 24 % 2 ^ 32
          else dev.holds d k)
  unfolding ioapic_set_irq
  set_irq_lem d irq vector dest k masked =
      write_lem (ioapic_write io d (reg_redirection irq + 1) (u32 (dest <<< 24)))
        (reg_redirection irq) (if masked then bit_or vector redir_masked else vector) k
        (omega arith)
      ∙ ap
          (λ (v : ℕ).
            if k == reg_redirection irq
            then (if masked then bit_or vector redir_masked else vector)
            else v)
          (write_lem d (reg_redirection irq + 1) (u32 (dest <<< 24)) k (omega arith)
            ∙ ap (λ (b : Bool). if b then u32 (dest <<< 24) else dev.holds d k)
                {x = k == reg_redirection irq + 1} {y = k == 0x11 + 2 * irq} (ground arith))

  -- What a register of the device holds once the entries from `irq` on are masked.
  abbrev masked_at : (d : D) (left irq k : ℕ) → ℕ
  masked_at d left irq k =
      if leb (0x10 + 2 * irq) k && ltb k (0x10 + 2 * (irq + left))
      then (if k % 2 == 0 then 2 ^ 16 else 0)
      else dev.holds d k

  mask_all_lem :
      (d : D) (left irq k : ℕ) → dev.holds (mask_all io d left irq) k ≡ masked_at d left irq k
  unfolding mask_all
  mask_all_lem d zero irq k = ground arith
  mask_all_lem d (suc left) irq k =
      let low = ioapic_write io d (reg_redirection irq) redir_masked in
      mask_all_lem (ioapic_write io low (reg_redirection irq + 1) 0) left (irq + 1) k
      ∙ ground (
        arith,
        write_lem low (reg_redirection irq + 1) 0 k,
        write_lem d (reg_redirection irq) redir_masked k,
      )

  version_lem : (d : D) → (ioapic_read io d reg_version).1 ≡ dev.holds d 1
  unfolding ioapic_read
  version_lem d =
      dev.reads (io.write d 0 1)
      ∙ ap (dev.holds (io.write d 0 1)) (dev.selects d 1)
      ∙ dev.select_keeps d 1 1

  version_keeps : (d : D) (k : ℕ) → dev.holds (ioapic_read io d reg_version).0 k ≡ dev.holds d k
  unfolding ioapic_read
  version_keeps d k = dev.read_keeps (io.write d 0 1) k ∙ dev.select_keeps d 1 k

  -- On a device whose redirection registers hold what is written to them, ioapic_init masks all
  -- the entries that the version register counts, clears their other words, and changes no other
  -- register.
  mask_entries_lem :
      (d : D) (k : ℕ)
      → let entries = bit_and (dev.holds d 1 / 2 ^ 16) 0xff + 1 in
        dev.holds (mask_entries io d) k ≡ (
          if leb 0x10 k && ltb k (0x10 + 2 * entries)
          then (if k % 2 == 0 then 2 ^ 16 else 0)
          else dev.holds d k)
  unfolding mask_entries
  mask_entries_lem d k =
      let r = ioapic_read io d reg_version in
      mask_all_lem r.0 (max_entry r.1 + 1) 0 k
      ∙ ap (λ (v : ℕ). masked_at r.0 (max_entry v + 1) 0 k) (version_lem d)
      ∙ ground (arith, version_keeps d k)
