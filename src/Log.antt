-- ===== src/Log.antt =====
-- kernel/lib/log.c and the levels and colours of kernel/lib/log.h and
-- kernel/drivers/framebuffer/framebuffer.h: leveled messages on the serial port and on the console. A
-- run is `none` while the serial port's transmitter is waited for, or when the message's arguments do
-- not fit its format.
pub mod Line
pub mod Write
pub mod Sample
mod Tests
use quin_kernel_template.Base.{
  ℕ, ◌+◌, ◌*◌, ◌^◌, Bool, Option, none, some, List, [], ◌∷◌, ltb, ◌<<<◌, bit_or, if◌then◌else◌,
}
use quin_kernel_template.Ports.{Ports}
use quin_kernel_template.Memory.{Memory}
use quin_kernel_template.Serial.{Serial, serial_putc}
use quin_kernel_template.Framebuffer.{Console, Font, fb_is_available, fb_console_putc}
use quin_kernel_template.Printf.{Arg, emit_all, kvprintf}

abbrev pub fb_color : (r g b : ℕ) → ℕ
fb_color r g b = bit_or (bit_or (r <<< 16) (g <<< 8)) b

abbrev pub fb_white : ℕ
fb_white = fb_color 0xff 0xff 0xff

abbrev pub fb_black : ℕ
fb_black = fb_color 0x00 0x00 0x00

abbrev pub fb_yellow : ℕ
fb_yellow = fb_color 0xff 0xd0 0x40

abbrev pub fb_gray : ℕ
fb_gray = fb_color 0xa0 0xa0 0xa0

pub data LogLevel : Type 0 where
  debug info warn : LogLevel

-- The number of an enumerator.
abbrev pub number : LogLevel → ℕ
number debug = 0
number info = 1
number warn = 2

pub record LevelStyle : Type 0 where
  pub tag : List ℕ
  pub color : ℕ

abbrev pub styles : LogLevel → LevelStyle
styles debug = record { tag = b'D' ∷ b'E' ∷ b'B' ∷ b'U' ∷ b'G' ∷ []; color = fb_gray }
styles info = record { tag = b'I' ∷ b'N' ∷ b'F' ∷ b'O' ∷ []; color = fb_white }
styles warn = record { tag = b'W' ∷ b'A' ∷ b'R' ∷ b'N' ∷ []; color = fb_yellow }

-- The static variables, and the drivers' states.
pub record Log (D : Type 0) : Type 0 where
  pub min_level : LogLevel
  pub current_fb_color : ℕ
  pub serial : Serial D
  pub mem : Memory
  pub console : Console

unfoldable pub log_set_min_level : {D : Type 0} → Log D → LogLevel → Log D
log_set_min_level s level = record s { min_level = level }

module _ {D : Type 0} (io : Ports D) (font : Font) (fuel : ℕ) where
  unfoldable pub log_emit : Option (Log D) → ℕ → Option (Log D)
  log_emit none c = none
  log_emit (some s) c =
      let shown =
        if fb_is_available s.console
        then fb_console_putc font (s.mem, s.console) c s.current_fb_color fb_black
        else (s.mem, s.console) in
      elim (serial_putc io fuel s.serial c) [
        | none ↦ none
        | some t ↦ some (record s { serial = t; mem = shown.0; console = shown.1 })
      ]

  unfoldable pub log_write : Log D → LogLevel → (fmt : List ℕ) → List Arg → Option (Log D)
  unfolding log_emit
  log_write s level fmt args =
      let style = styles level in
      let colored = record s { current_fb_color = style.color } in
      let tagged = emit_all log_emit style.tag (log_emit (some colored) b'[') in
      let opened = log_emit (log_emit tagged b']') b' ' in
      let message = kvprintf log_emit fmt args opened in
      if ltb (number level) (number s.min_level)
      then some s
      else elim message [ none ↦ none | some k ↦ log_emit k b'\n' ]
