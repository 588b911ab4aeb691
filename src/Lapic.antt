-- ===== src/Lapic.antt =====
-- kernel/arch/x86_64/cpu/lapic.c and lapic_timer.c, over any device behind the mapped registers and
-- the ports. The loop that waits for the PIT takes fuel, since only the device ends it.
pub mod Registers
mod Tests
use quin_kernel_template.Base.{
  ℕ, zero, suc, ◌+◌, ◌-◌, ◌*◌, ◌/◌, ◌^◌, Bool, true, false, not, Option, none, some, bit_and,
  bit_or, u8, u16, u32, sub32, ◌>>>◌, ◌==◌, if◌then◌else◌,
}
use quin_kernel_template.Ports.{Ports, Mmio, Msrs, wrmsr}
use quin_kernel_template.Panic.{Outcome, ok, ◌>>=◌}
use quin_kernel_template.Vmm.{Vmm, vmm_map_mmio}

abbrev pub ia32_apic_base_msr : ℕ
ia32_apic_base_msr = 0x1b

abbrev pub apic_base_enable : ℕ
apic_base_enable = 2 ^ 11

abbrev pub apic_base_addr_mask : ℕ
apic_base_addr_mask = 0xfffff000

abbrev pub reg_id : ℕ
reg_id = 0x20

abbrev pub reg_eoi : ℕ
reg_eoi = 0xb0

abbrev pub reg_svr : ℕ
reg_svr = 0xf0

abbrev pub reg_lvt_timer : ℕ
reg_lvt_timer = 0x320

abbrev pub reg_lvt_lint0 : ℕ
reg_lvt_lint0 = 0x350

abbrev pub reg_lvt_lint1 : ℕ
reg_lvt_lint1 = 0x360

abbrev pub reg_lvt_error : ℕ
reg_lvt_error = 0x370

abbrev pub reg_initial_count : ℕ
reg_initial_count = 0x380

abbrev pub reg_current_count : ℕ
reg_current_count = 0x390

abbrev pub reg_divide_config : ℕ
reg_divide_config = 0x3e0

abbrev pub timer_periodic : ℕ
timer_periodic = 2 ^ 17

abbrev pub timer_divide_16 : ℕ
timer_divide_16 = 0x3

abbrev pub svr_software_enable : ℕ
svr_software_enable = 2 ^ 8

abbrev pub spurious_vector : ℕ
spurious_vector = 0xff

abbrev pub lvt_masked : ℕ
lvt_masked = 2 ^ 16

-- The PIT's frequency, its ports, and the milliseconds of a calibration.
abbrev pub pit_frequency_hz : ℕ
pit_frequency_hz = 1193182

abbrev pub pit_channel2_port : ℕ
pit_channel2_port = 0x42

abbrev pub pit_command_port : ℕ
pit_command_port = 0x43

abbrev pub pit_gate_speaker_port : ℕ
pit_gate_speaker_port = 0x61

abbrev pub calibration_ms : ℕ
calibration_ms = 10

module _ {D : Type 0} (io : Mmio D) where
  abbrev pub lapic_read : D → (reg : ℕ) → D × ℕ
  lapic_read d reg = io.read d (reg / 4)

  abbrev pub lapic_write : D → (reg value : ℕ) → D
  lapic_write d reg value = io.write d (reg / 4) value

  -- The writes of `lapic_init`.
  unfoldable pub mask_lvts : D → D
  mask_lvts d =
      let d1 = lapic_write d reg_lvt_timer lvt_masked in
      let d2 = lapic_write d1 reg_lvt_lint0 lvt_masked in
      let d3 = lapic_write d2 reg_lvt_lint1 lvt_masked in
      let d4 = lapic_write d3 reg_lvt_error lvt_masked in
      lapic_write d4 reg_svr (bit_or svr_software_enable spurious_vector)

  -- The mapping, the base address, the model-specific registers and the device.
  unfoldable pub lapic_init : Vmm → Msrs → D → Outcome (Vmm × ℕ × Msrs × D)
  unfolding mask_lvts
  lapic_init vmm msrs d =
      let apic_base_msr = msrs ia32_apic_base_msr in
      let phys_base = bit_and apic_base_msr apic_base_addr_mask in
      let enabled = wrmsr msrs ia32_apic_base_msr (bit_or apic_base_msr apic_base_enable) in
      vmm_map_mmio vmm phys_base >>= λ r. ok (r.0, r.1, enabled, mask_lvts d)

  unfoldable pub lapic_send_eoi : D → D
  lapic_send_eoi d = lapic_write d reg_eoi 0

  unfoldable pub lapic_get_id : D → D × ℕ
  lapic_get_id d = let r = lapic_read d reg_id in (r.0, r.1 >>> 24)

  unfoldable pub lapic_timer_set_lvt : D → (vector : ℕ) → (periodic masked : Bool) → D
  lapic_timer_set_lvt d vector periodic masked =
      let v1 = if periodic then bit_or vector timer_periodic else vector in
      lapic_write d reg_lvt_timer (if masked then bit_or v1 lvt_masked else v1)

  unfoldable pub lapic_timer_set_divide_16 : D → D
  lapic_timer_set_divide_16 d = lapic_write d reg_divide_config timer_divide_16

  unfoldable pub lapic_timer_set_initial_count : D → (count : ℕ) → D
  lapic_timer_set_initial_count d count = lapic_write d reg_initial_count count

  unfoldable pub lapic_timer_get_current_count : D → D × ℕ
  lapic_timer_get_current_count d = lapic_read d reg_current_count

  -- From the wait on: the frequency that is returned.
  unfoldable pub start_timer : D → (vector frequency_hz : ℕ) → D × ℕ
  unfolding lapic_timer_set_lvt lapic_timer_set_initial_count lapic_timer_get_current_count
  start_timer d vector frequency_hz =
      let now = lapic_timer_get_current_count d in
      let elapsed_ticks = sub32 0xffffffff now.1 in
      let lapic_frequency_hz = u32 (elapsed_ticks * (1000 / calibration_ms)) in
      let periodic_count = lapic_frequency_hz / frequency_hz in
      let counting = lapic_timer_set_initial_count now.0 periodic_count in
      (lapic_timer_set_lvt counting vector true false, lapic_frequency_hz)

-- `while (!(inb(PIT_GATE_SPEAKER_PORT) & 0x20)) {}`
unfoldable pub await_pit : {D : Type 0} → Ports D → (fuel : ℕ) → D → Option D
await_pit ports zero d = none
await_pit ports (suc fuel) d =
    let r = ports.inb d pit_gate_speaker_port in
    elim (bit_and r.1 0x20 == 0) [ true ↦ await_pit ports fuel r.0 | false ↦ some r.0 ]

module _ {D : Type 0} (io : Mmio D) (ports : Ports D) where
  -- Up to the wait.
  unfoldable pub start_pit : D → (vector : ℕ) → D
  unfolding lapic_timer_set_lvt lapic_timer_set_divide_16 lapic_timer_set_initial_count
  start_pit d vector =
      let d1 = lapic_timer_set_lvt io (lapic_timer_set_divide_16 io d) vector true true in
      let pit_count = u16 (pit_frequency_hz / 1000 * calibration_ms) in
      let gate = ports.inb d1 pit_gate_speaker_port in
      let d2 = ports.outb gate.0 pit_gate_speaker_port (u8 (bit_or (bit_and gate.1 0xfc) 0x01)) in
      let d3 = ports.outb d2 pit_command_port 0xb0 in
      let d4 = ports.outb d3 pit_channel2_port (u8 (bit_and pit_count 0xff)) in
      let d5 = ports.outb d4 pit_channel2_port (u8 (pit_count >>> 8)) in
      lapic_timer_set_initial_count io d5 0xffffffff

  unfoldable pub lapic_timer_calibrate_and_start :
      (fuel : ℕ) → D → (vector frequency_hz : ℕ) → Option (D × ℕ)
  unfolding start_pit await_pit start_timer
  lapic_timer_calibrate_and_start fuel d vector frequency_hz =
      elim (await_pit ports fuel (start_pit d vector)) [
        | none ↦ none
        | some ended ↦ some (start_timer io ended vector frequency_hz)
      ]
