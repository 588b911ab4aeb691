-- ===== src/Framebuffer/Tests.antt =====
-- Runs of kernel/drivers/framebuffer/framebuffer.c on a mode of 16 by 16 pixels of 32 bits at 4096.
use quin_kernel_template.Base.{ℕ, ◌+◌, ◌≡◌, refl, arith, true, some, [], ◌∷◌, ltb, if◌then◌else◌}
use quin_kernel_template.Memory.{Memory, load, store}
use quin_kernel_template.Framebuffer.{
  BootFramebuffer, Console, Font, cell_h, fb_init, pack_color, fb_console_putc, fb_console_write,
}
use quin_kernel_template.Framebuffer.Frame.{IsScreen, byte}
use quin_kernel_template.Framebuffer.Cursor.{
  IsConsole, IsMode, scrolls, next_col, next_row, init-IsConsole,
}
use quin_kernel_template.Framebuffer.Putc.{Written, glyphed, write-Written, putc_lem}

abbrev mode : BootFramebuffer
mode = record {
  address = 4096;
  width = 16;
  height = 16;
  pitch = 64;
  bpp = 32;
  red_mask_size = 8;
  red_mask_shift = 16;
  green_mask_size = 8;
  green_mask_shift = 8;
  blue_mask_size = 8;
  blue_mask_shift = 0;
}

abbrev at : (col row : ℕ) → Console
at col row = record {
  fb = mode;
  fb_ready = true;
  bytes_per_pixel = 4;
  console_cols = 2;
  console_rows = 2;
  cursor_col = col;
  cursor_row = row;
}

-- A glyph whose rows all have their leftmost pixel set.
abbrev bar : Font
bar ch row = 1

abbrev blank : Memory
blank a = 0

mode-IsMode : IsMode mode
mode-IsMode = record {
  some_address = omega arith;
  line = omega arith;
  area = omega arith;
  narrow = omega arith;
  low = omega arith;
  wide = omega arith;
  high = omega arith;
}

at-IsScreen : (col row : ℕ) → IsScreen (at col row)
at-IsScreen col row = record {
  some_address = omega arith;
  line = omega arith;
  area = omega arith;
  narrow = omega arith;
  low = omega arith;
  cols = refl;
  rows = refl;
  some_cols = omega arith;
  some_rows = omega arith;
}

last-IsConsole : IsConsole (at 1 1)
last-IsConsole = record { screen = at-IsScreen 1 1; col = omega arith; row = omega arith }

-- The colour's red goes to the third byte.
red : pack_color mode 0xff4040 ≡ 0xff4040
unfolding pack_color
red = refl

-- A component of five bits loses its low three.
narrow_red : pack_color (record mode { red_mask_size = 5; red_mask_shift = 11 }) 0xff0000 ≡ 0xf800
unfolding pack_color
narrow_red = refl

-- The second character of a row ends it.
wraps : (fb_console_putc bar (blank, at 1 0) 65 0xffffff 0).1 ≡ at 0 1
unfolding fb_console_putc
wraps = refl

-- The glyph's leftmost pixel is white, and the next one black.
drawn_left : load (fb_console_putc bar (blank, at 1 0) 65 0xffffff 0).0 (4096 + 32) ≡ 255
unfolding fb_console_putc load store
drawn_left = refl

drawn_right : load (fb_console_putc bar (blank, at 1 0) 65 0xffffff 0).0 (4096 + 36) ≡ 0
unfolding fb_console_putc load store
drawn_right = refl

init-IsConsole_example :
    let r = fb_init (at 0 0) (some mode) in
    (r.1 ≡ true) × IsConsole r.0 × (r.0.fb ≡ mode) × (r.0.cursor_col ≡ 0) × (r.0.cursor_row ≡ 0)
init-IsConsole_example = init-IsConsole (at 0 0) mode mode-IsMode

write-Written_example :
    Written blank (at 1 1) (fb_console_write bar (blank, at 1 1) (72 ∷ 105 ∷ 10 ∷ []) 0xffffff 0)
write-Written_example =
    write-Written bar blank (at 1 1) (72 ∷ 105 ∷ 10 ∷ []) 0xffffff 0 last-IsConsole

putc_lem_example :
    let r = fb_console_putc bar (blank, at 1 1) 65 0xffffff 0 in
    (byte r.0 (at 1 1) 8 3 0 ≡ (
      if scrolls (at 1 1) 65
      then if ltb (3 + cell_h) 16
        then glyphed bar blank (at 1 1) 65 0xffffff 0 8 (3 + cell_h) 0
        else 0
      else glyphed bar blank (at 1 1) 65 0xffffff 0 8 3 0))
    × (r.1.cursor_col ≡ next_col (at 1 1) 65)
    × (r.1.cursor_row ≡ next_row (at 1 1) 65)
putc_lem_example =
    putc_lem bar blank (at 1 1) 65 0xffffff 0 8 3 0 last-IsConsole (omega arith) (omega arith)
      (omega arith)
