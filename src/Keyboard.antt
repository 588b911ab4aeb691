-- ===== src/Keyboard.antt =====
-- kernel/drivers/keyboard/keyboard.c: scan codes of the PS/2 keyboard into a ring of characters. The
-- byte that `inb(PS2_DATA_PORT)` reads is an argument of the interrupt handler.
pub mod Queue
pub mod Refine
pub mod Decode
pub mod Run
mod Tests
use quin_kernel_template.Base.{
  ℕ, ◌+◌, ◌%◌, Bool, true, false, not, ◌||◌, List, [], ◌∷◌, bit_and, u8, u32, not32, leb, ◌==◌,
  if◌then◌else◌, get_or, set, length,
}

abbrev pub scancode_left_shift : ℕ
scancode_left_shift = 0x2a

abbrev pub scancode_right_shift : ℕ
scancode_right_shift = 0x36

abbrev pub scancode_release_bit : ℕ
scancode_release_bit = 0x80

-- Entries that the initialiser leaves out are 0.
abbrev pub unshifted_table : List ℕ
unshifted_table =
    0 ∷ 0 ∷ b'1' ∷ b'2' ∷ b'3' ∷ b'4' ∷ b'5' ∷ b'6' ∷ b'7' ∷ b'8' ∷ b'9' ∷ b'0' ∷ b'-' ∷ b'=' ∷ 8
    ∷ 9 ∷ b'q' ∷ b'w' ∷ b'e' ∷ b'r' ∷ b't' ∷ b'y' ∷ b'u' ∷ b'i' ∷ b'o' ∷ b'p' ∷ 91 ∷ 93 ∷ 10 ∷ 0
    ∷ b'a' ∷ b's' ∷ b'd' ∷ b'f' ∷ b'g' ∷ b'h' ∷ b'j' ∷ b'k' ∷ b'l' ∷ 59 ∷ 39 ∷ 96 ∷ 0 ∷ 92 ∷ b'z'
    ∷ b'x' ∷ b'c' ∷ b'v' ∷ b'b' ∷ b'n' ∷ b'm' ∷ 44 ∷ 46 ∷ 47 ∷ 0 ∷ 0 ∷ 0 ∷ 32 ∷ []

abbrev pub shifted_table : List ℕ
shifted_table =
    0 ∷ 0 ∷ 33 ∷ 64 ∷ 35 ∷ 36 ∷ 37 ∷ 94 ∷ 38 ∷ 42 ∷ 40 ∷ 41 ∷ 95 ∷ 43 ∷ 8 ∷ 9 ∷ b'Q' ∷ b'W' ∷ b'E'
    ∷ b'R' ∷ b'T' ∷ b'Y' ∷ b'U' ∷ b'I' ∷ b'O' ∷ b'P' ∷ 123 ∷ 125 ∷ 10 ∷ 0 ∷ b'A' ∷ b'S' ∷ b'D'
    ∷ b'F' ∷ b'G' ∷ b'H' ∷ b'J' ∷ b'K' ∷ b'L' ∷ 58 ∷ 34 ∷ 126 ∷ 0 ∷ 124 ∷ b'Z' ∷ b'X' ∷ b'C' ∷ b'V'
    ∷ b'B' ∷ b'N' ∷ b'M' ∷ 60 ∷ 62 ∷ 63 ∷ 0 ∷ 0 ∷ 0 ∷ 32 ∷ []

abbrev pub table_size : ℕ
table_size = 0x3a

abbrev pub buffer_size : ℕ
buffer_size = 256

-- The static variables.
pub record Keyboard : Type 0 where
  pub buffer : List ℕ
  pub buffer_head : ℕ
  pub buffer_tail : ℕ
  pub shift_held : Bool

unfoldable pub buffer_push : Keyboard → ℕ → Keyboard
buffer_push k c =
    let next = u32 (k.buffer_head + 1) % buffer_size in
    if next == k.buffer_tail
    then k
    else record k { buffer = set k.buffer k.buffer_head c; buffer_head = next }

-- The handler, given the byte on the data port.
unfoldable pub keyboard_isr : Keyboard → ℕ → Keyboard
keyboard_isr k scancode =
    let released = not (bit_and scancode scancode_release_bit == 0) in
    let code = bit_and scancode (u8 (not32 scancode_release_bit)) in
    if code == scancode_left_shift || code == scancode_right_shift
    then record k { shift_held = not released }
    else if released || leb table_size code
    then k
    else (let c =
          if k.shift_held then get_or shifted_table code 0 else get_or unshifted_table code 0 in
        if not (c == 0) then buffer_push k c else k)

-- 0 when nothing is buffered.
unfoldable pub keyboard_read_char : Keyboard → ℕ × Keyboard
keyboard_read_char k = if k.buffer_tail == k.buffer_head then (0, k) else (
  get_or k.buffer k.buffer_tail 0,
  record k { buffer_tail = u32 (k.buffer_tail + 1) % buffer_size },
)
