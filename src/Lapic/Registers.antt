-- ===== src/Lapic/Registers.antt =====
-- kernel/arch/x86_64/cpu/lapic.c and lapic_timer.c: the registers of the local APIC.
use quin_kernel_template.Base.{
  ℕ, ◌+◌, ◌-◌, ◌*◌, ◌/◌, ◌%◌, ◌^◌, ◌≡◌, refl, arith, ◌||◌, bit_or, ◌==◌, if◌then◌else◌,
}
use quin_kernel_template.Ports.{Mmio}
use quin_kernel_template.Lapic.{
  mask_lvts, start_timer, lapic_timer_set_lvt, lapic_timer_set_initial_count,
  lapic_timer_get_current_count,
}

-- What the driver relies on of the device: a local vector table entry, the spurious vector register
-- and the initial count hold what was last written to them, and reading the current count changes no
-- register.
pub record LapicDevice {D : Type 0} (io : Mmio D) : Type 0 where
  pub holds : D → ℕ → ℕ
  pub writes : (d : D) (i v k : ℕ) → holds (io.write d i v) k ≡ (if k == i then v else holds d k)
  pub read_keeps : (d : D) (i k : ℕ) → holds (io.read d i).0 k ≡ holds d k

module _ {D : Type 0} (io : Mmio D) (dev : LapicDevice io) where
  -- lapic_init masks the four local interrupts, enables the local APIC with the spurious vector 255,
  -- and changes no other register.
  mask_lvts_lem :
      (d : D) (k : ℕ)
      → dev.holds (mask_lvts io d) k ≡ (
          if k == 0xf0 / 4
          then 2 ^ 8 + 255
          else if k == 0x320 / 4 || (k == 0x350 / 4 || (k == 0x360 / 4 || k == 0x370 / 4))
          then 2 ^ 16
          else dev.holds d k)
  unfolding mask_lvts
  mask_lvts_lem d k =
      let d1 = io.write d 200 65536 in
      let d2 = io.write d1 212 65536 in
      let d3 = io.write d2 216 65536 in
      let d4 = io.write d3 220 65536 in
      ground (
        arith,
        dev.writes d4 60 511 k,
        dev.writes d3 220 65536 k,
        dev.writes d2 216 65536 k,
        dev.writes d1 212 65536 k,
        dev.writes d 200 65536 k,
      )

  -- After the calibration the timer counts down from the measured frequency divided by the wanted one,
  -- periodically and not masked; the frequency is a hundred times the ticks of ten milliseconds, and no
  -- other register changes.
  start_timer_lem :
      (d : D) (vector hz k : ℕ)
      → let ticks = (0xffffffff + 2 ^ 32 - (io.read d (0x390 / 4)).1) % 2 ^ 32 in
        let r = start_timer io d vector hz in
        (r.1 ≡ ticks * 100 % 2 ^ 32)
        × (dev.holds r.0 k ≡ (
            if k == 0x320 / 4
            then bit_or vector (2 ^ 17)
            else if k == 0x380 / 4
            then r.1 / hz
            else dev.holds d k))
  unfolding start_timer lapic_timer_set_lvt lapic_timer_set_initial_count
      lapic_timer_get_current_count
  start_timer_lem d vector hz k =
      let now = (io.read d 228).0 in
      let count = (start_timer io d vector hz).1 / hz in
      let counting = io.write now 224 count in
      (
        refl,
        ground (
          arith,
          dev.writes counting 200 (bit_or vector 131072) k,
          dev.writes now 224 count k,
          dev.read_keeps d 228 k,
        ),
      )
