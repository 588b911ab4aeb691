-- ===== src/Framebuffer.antt =====
-- kernel/drivers/framebuffer/framebuffer.c: the text console over the framebuffer that
-- kernel/include/boot_info.h describes. The font of font8x8_basic.c is a parameter: the byte of each
-- row of each glyph. A string is the list of its characters before its NUL. The counters of
-- `fb_clear` have 32 bits, so its loops are those of a mode of fewer than 2 ^ 32 rows and columns.
pub mod Frame
pub mod Draw
pub mod Scroll
pub mod Cursor
pub mod Outside
pub mod Putc
mod Tests
use quin_kernel_template.Base.{
  ℕ, zero, suc, ◌+◌, ◌-◌, ◌*◌, ◌/◌, ◌^◌, Bool, true, false, not, Option, none, some, List, [], ◌∷◌,
  bit_and, bit_or, u8, u32, u64, sub32, sub64, ◌<<<◌, ◌>>>◌, ltb, leb, ◌==◌, if◌then◌else◌,
}
use quin_kernel_template.Memory.{Memory, store}
use quin_kernel_template.Strings.{memmove, memset}

pub record BootFramebuffer : Type 0 where
  pub address : ℕ
  pub width : ℕ
  pub height : ℕ
  pub pitch : ℕ
  pub bpp : ℕ
  pub red_mask_size : ℕ
  pub red_mask_shift : ℕ
  pub green_mask_size : ℕ
  pub green_mask_shift : ℕ
  pub blue_mask_size : ℕ
  pub blue_mask_shift : ℕ

abbrev pub cell_w : ℕ
cell_w = 8

abbrev pub cell_h : ℕ
cell_h = 8

-- The static variables.
pub record Console : Type 0 where
  pub fb : BootFramebuffer
  pub fb_ready : Bool
  pub bytes_per_pixel : ℕ
  pub console_cols : ℕ
  pub console_rows : ℕ
  pub cursor_col : ℕ
  pub cursor_row : ℕ

abbrev pub Font : Type 0
Font = ℕ → ℕ → ℕ

-- `none` for a null pointer.
unfoldable pub fb_init : Console → Option BootFramebuffer → Console × Bool
fb_init c none = (c, false)
fb_init c (some info) = if info.address == 0 then (c, false) else (
  record {
    fb = info;
    fb_ready = true;
    bytes_per_pixel = info.bpp / 8;
    console_cols = u32 (info.width / cell_w);
    console_rows = u32 (info.height / cell_h);
    cursor_col = 0;
    cursor_row = 0;
  },
  true,
)

unfoldable pub fb_is_available : Console → Bool
fb_is_available c = c.fb_ready

-- An 8-bit component at the width that the mode has for it.
abbrev pub scaled : (size component : ℕ) → ℕ
scaled size component = if ltb size 8 then component >>> (8 - size) else component

unfoldable pub pack_color : BootFramebuffer → (rgb : ℕ) → ℕ
pack_color fb rgb =
    let r = u8 (rgb >>> 16) in
    let g = u8 (rgb >>> 8) in
    let b = u8 rgb in
    bit_or
      (bit_or (u32 (scaled fb.red_mask_size r <<< fb.red_mask_shift))
        (u32 (scaled fb.green_mask_size g <<< fb.green_mask_shift)))
      (u32 (scaled fb.blue_mask_size b <<< fb.blue_mask_shift))

-- The bytes of a pixel from the `i`-th on, with `left` bytes to go.
unfoldable pub put_bytes : Memory → (pixel native_color left i : ℕ) → Memory
put_bytes m pixel native_color zero i = m
put_bytes m pixel native_color (suc left) i =
    put_bytes (store m (pixel + i) (u8 (native_color >>> (8 * i)))) pixel native_color left (i + 1)

abbrev pub pixel_at : Console → (x y : ℕ) → ℕ
pixel_at c x y = u64 (u64 (c.fb.address + u64 (y * c.fb.pitch)) + u64 (x * c.bytes_per_pixel))

unfoldable pub put_pixel_raw : Memory → Console → (x y native_color : ℕ) → Memory
unfolding put_bytes
put_pixel_raw m c x y native_color = put_bytes m (pixel_at c x y) native_color c.bytes_per_pixel 0

-- The inner and the outer loop of `fb_clear`, with `left` rounds to go.
unfoldable pub clear_row : Memory → Console → (native y left x : ℕ) → Memory
unfolding put_pixel_raw
clear_row m c native y zero x = m
clear_row m c native y (suc left) x =
    clear_row (put_pixel_raw m c x y native) c native y left (x + 1)

unfoldable pub clear_rows : Memory → Console → (native left y : ℕ) → Memory
unfolding clear_row
clear_rows m c native zero y = m
clear_rows m c native (suc left) y =
    clear_rows (clear_row m c native y c.fb.width 0) c native left (y + 1)

unfoldable pub fb_clear : Memory → Console → (color_rgb : ℕ) → Memory
unfolding clear_rows pack_color
fb_clear m c color_rgb = clear_rows m c (pack_color c.fb color_rgb) c.fb.height 0

-- The inner and the outer loop of `draw_glyph`, with `left` rounds to go.
unfoldable pub draw_row : Memory → Console → (bits origin_x y fg bg left gx : ℕ) → Memory
unfolding put_pixel_raw
draw_row m c bits origin_x y fg bg zero gx = m
draw_row m c bits origin_x y fg bg (suc left) gx =
    let set = not (bit_and bits (2 ^ gx) == 0) in
    draw_row (put_pixel_raw m c (u32 (origin_x + gx)) y (if set then fg else bg)) c bits origin_x y
      fg bg left (gx + 1)

unfoldable pub draw_rows :
    Memory → Console → (glyph : ℕ → ℕ) (origin_x origin_y fg bg left gy : ℕ) → Memory
unfolding draw_row
draw_rows m c glyph origin_x origin_y fg bg zero gy = m
draw_rows m c glyph origin_x origin_y fg bg (suc left) gy =
    draw_rows (draw_row m c (glyph gy) origin_x (u32 (origin_y + gy)) fg bg cell_w 0) c glyph
      origin_x origin_y fg bg left (gy + 1)

unfoldable pub draw_glyph : Font → Memory → Console → (col row ch fg_rgb bg_rgb : ℕ) → Memory
unfolding draw_rows pack_color
draw_glyph font m c col row ch fg_rgb bg_rgb =
    let fg = pack_color c.fb fg_rgb in
    let bg = pack_color c.fb bg_rgb in
    draw_rows m c (font (bit_and (u8 ch) 0x7f)) (u32 (col * cell_w)) (u32 (row * cell_h)) fg bg
      cell_h 0

unfoldable pub scroll_one_row : Memory → Console → Memory
scroll_one_row m c =
    let row_bytes = u64 (cell_h * c.fb.pitch) in
    let base = c.fb.address in
    let remaining_bytes = u64 (sub64 c.fb.height cell_h * c.fb.pitch) in
    let moved = memmove m base (u64 (base + row_bytes)) remaining_bytes in
    memset moved (u64 (base + remaining_bytes)) 0 row_bytes

-- The cursor, and the memory, after the character, before a scroll.
unfoldable pub place_char : Font → Memory × Console → (ch fg_rgb bg_rgb : ℕ) → Memory × Console
unfolding draw_glyph
place_char font (m, c) ch fg_rgb bg_rgb =
    let down = record c { cursor_col = 0; cursor_row = u32 (c.cursor_row + 1) } in
    let right = record c { cursor_col = u32 (c.cursor_col + 1) } in
    let drawn = draw_glyph font m c c.cursor_col c.cursor_row ch fg_rgb bg_rgb in
    if ch == b'\n'
    then (m, down)
    else (drawn, if leb c.console_cols right.cursor_col then down else right)

unfoldable pub fb_console_putc : Font → Memory × Console → (ch fg_rgb bg_rgb : ℕ) → Memory × Console
unfolding place_char scroll_one_row
fb_console_putc font s ch fg_rgb bg_rgb =
    let t = place_char font s ch fg_rgb bg_rgb in
    if s.1.fb.address == 0
    then s
    else if leb t.1.console_rows t.1.cursor_row
    then (scroll_one_row t.0 t.1, record t.1 { cursor_row = sub32 t.1.console_rows 1 })
    else t

unfoldable pub fb_console_write :
    Font → Memory × Console → List ℕ → (fg_rgb bg_rgb : ℕ) → Memory × Console
unfolding fb_console_putc
fb_console_write font s [] fg_rgb bg_rgb = s
fb_console_write font s (ch ∷ str) fg_rgb bg_rgb =
    fb_console_write font (fb_console_putc font s ch fg_rgb bg_rgb) str fg_rgb bg_rgb
