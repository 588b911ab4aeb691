-- ===== src/Serial.antt =====
-- kernel/drivers/serial/serial.c, over any devices behind the ports. A string is the list of its
-- characters before its NUL. The loop that waits for the transmitter takes fuel, since only the
-- device ends it: `none` means that it is still waiting.
pub mod Wire
pub mod Sample
mod Tests
use quin_kernel_template.Base.{
  ℕ, zero, suc, ◌+◌, Bool, true, false, not, Option, none, some, List, [], ◌∷◌, bit_and, u8, ◌==◌,
  if◌then◌else◌,
}
use quin_kernel_template.Ports.{Ports}

abbrev pub com1 : ℕ
com1 = 0x3f8

abbrev pub reg_data : ℕ
reg_data = 0

abbrev pub reg_int_enable : ℕ
reg_int_enable = 1

abbrev pub reg_fifo_ctrl : ℕ
reg_fifo_ctrl = 2

abbrev pub reg_line_ctrl : ℕ
reg_line_ctrl = 3

abbrev pub reg_modem_ctrl : ℕ
reg_modem_ctrl = 4

abbrev pub reg_line_status : ℕ
reg_line_status = 5

-- The devices, and the static variable.
pub record Serial (D : Type 0) : Type 0 where
  pub device : D
  pub serial_present : Bool

module _ {D : Type 0} (io : Ports D) where
  -- `outb(COM1 + reg, value)`
  abbrev pub out : D → (reg value : ℕ) → D
  out d reg value = io.outb d (com1 + reg) value

  unfoldable pub serial_init : D → Serial D
  serial_init d =
      let d1 = out d reg_int_enable 0x00 in
      let d2 = out d1 reg_line_ctrl 0x80 in
      let d3 = out d2 reg_data 0x03 in
      let d4 = out d3 reg_int_enable 0x00 in
      let d5 = out d4 reg_line_ctrl 0x03 in
      let d6 = out d5 reg_fifo_ctrl 0xc7 in
      let d7 = out d6 reg_modem_ctrl 0x0b in
      let d8 = out d7 reg_modem_ctrl 0x1e in
      let d9 = out d8 reg_data 0xae in
      let echo = io.inb d9 (com1 + reg_data) in
      record { device = out echo.0 reg_modem_ctrl 0x0f; serial_present = echo.1 == 0xae }

  unfoldable pub transmit_empty : D → D × Bool
  transmit_empty d = let r = io.inb d (com1 + reg_line_status) in (r.0, not (bit_and r.1 0x20 == 0))

  -- `while (!transmit_empty()) {}`
  unfoldable pub await_empty : (fuel : ℕ) → D → Option D
  unfolding transmit_empty
  await_empty zero d = none
  await_empty (suc fuel) d = elim (transmit_empty d).1 [
    | true ↦ some (transmit_empty d).0
    | false ↦ await_empty fuel (transmit_empty d).0
  ]

  -- The end of `serial_putc`.
  unfoldable pub send : (fuel : ℕ) → Serial D → (c : ℕ) → Option (Serial D)
  unfolding await_empty
  send fuel s c = elim (await_empty fuel s.device) [
    | none ↦ none
    | some d ↦ some (record s { device = out d reg_data (u8 c) })
  ]

  -- The call of itself for a newline is for a carriage return, which only is sent.
  unfoldable pub serial_putc : (fuel : ℕ) → Serial D → (c : ℕ) → Option (Serial D)
  unfolding send
  serial_putc fuel s c =
      if not s.serial_present
      then some s
      else if c == b'\n'
      then elim (send fuel s b'\r') [ none ↦ none | some t ↦ send fuel t c ]
      else send fuel s c

  unfoldable pub serial_write : (fuel : ℕ) → Serial D → List ℕ → Option (Serial D)
  unfolding serial_putc
  serial_write fuel s [] = some s
  serial_write fuel s (c ∷ str) = elim (serial_putc fuel s c) [
    | none ↦ none
    | some t ↦ serial_write fuel t str
  ]

  -- The loop of `serial_write_n`, with `left` characters to go; `chars` is the string from `i` on.
  unfoldable pub serial_write_n : (fuel : ℕ) → Serial D → List ℕ → (len : ℕ) → Option (Serial D)
  unfolding serial_putc
  serial_write_n fuel s chars zero = some s
  serial_write_n fuel s [] (suc left) = none
  serial_write_n fuel s (c ∷ chars) (suc left) = elim (serial_putc fuel s c) [
    | none ↦ none
    | some t ↦ serial_write_n fuel t chars left
  ]
