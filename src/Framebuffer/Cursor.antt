-- ===== src/Framebuffer/Cursor.antt =====
-- kernel/drivers/framebuffer/framebuffer.c: the cursor of the text console, and the memory around the
-- framebuffer.
use quin_kernel_template.Base.{
  ℕ, ◌+◌, ◌-◌, ◌*◌, ◌/◌, ◌^◌, ◌<◌, ◌≤◌, ◌≡◌, ◌≢◌, refl, arith, Bool, true, false, ◌&&◌, ◌||◌, some,
  u32, sub32, leb, ◌==◌, if◌then◌else◌, Bool-cases, inl, inr,
}
use quin_kernel_template.Memory.{Memory}
use quin_kernel_template.Framebuffer.{
  BootFramebuffer, Console, Font, cell_w, cell_h, fb_init, draw_glyph, scroll_one_row, place_char,
  fb_console_putc,
}
use quin_kernel_template.Framebuffer.Frame.{IsScreen}

-- The mode fits, and the cursor is in a cell.
pub record IsConsole (c : Console) : Type 0 where
  pub screen : IsScreen c
  pub col : c.cursor_col < c.console_cols
  pub row : c.cursor_row < c.console_rows

-- The bootloader's mode fits.
pub record IsMode (info : BootFramebuffer) : Type 0 where
  pub some_address : info.address ≢ 0
  pub line : info.width * (info.bpp / 8) ≤ info.pitch
  pub area : info.address + info.height * info.pitch < 2 ^ 64
  pub narrow : info.width < 2 ^ 32
  pub low : info.height < 2 ^ 32
  pub wide : cell_w ≤ info.width
  pub high : cell_h ≤ info.height

abbrev pub moved : Console → (col row : ℕ) → Console
moved c col row = record c { cursor_col = col; cursor_row = row }

-- Whether the character ends its line.
abbrev pub ends : Console → (ch : ℕ) → Bool
ends c ch = ch == b'\n' || leb c.console_cols (c.cursor_col + 1)

-- Whether the character makes the console scroll.
abbrev pub scrolls : Console → (ch : ℕ) → Bool
scrolls c ch = ends c ch && leb c.console_rows (c.cursor_row + 1)

-- The cursor behind the character.
abbrev pub next_col : Console → (ch : ℕ) → ℕ
next_col c ch = if ends c ch then 0 else c.cursor_col + 1

abbrev pub next_row : Console → (ch : ℕ) → ℕ
next_row c ch =
    if scrolls c ch
    then c.console_rows - 1
    else if ends c ch
    then c.cursor_row + 1
    else c.cursor_row

-- fb_init of a mode that fits the memory and has room for a character gives a console of that mode
-- with its cursor in the first cell.
pub init-IsConsole :
    (c : Console) (info : BootFramebuffer)
    → IsMode info
    → let r = fb_init c (some info) in
      (r.1 ≡ true) × IsConsole r.0 × (r.0.fb ≡ info) × (r.0.cursor_col ≡ 0) × (r.0.cursor_row ≡ 0)
unfolding fb_init
init-IsConsole c info mode = rw some_address (
  refl,
  record {
    screen = record {
      some_address = mode.some_address;
      line = mode.line;
      area = mode.area;
      narrow = mode.narrow;
      low = mode.low;
      cols = omega (arith, mode.narrow);
      rows = omega (arith, mode.low);
      some_cols = omega (arith, mode.narrow, mode.wide);
      some_rows = omega (arith, mode.low, mode.high);
    };
    col = omega (arith, mode.narrow, mode.wide);
    row = omega (arith, mode.low, mode.high);
  },
  refl,
  refl,
  refl,
)
  where
    some_address : (info.address == 0) ≡ false
    some_address = ground (arith, mode.some_address)

pub moved-IsScreen : (c : Console) (col row : ℕ) → IsScreen c → IsScreen (moved c col row)
moved-IsScreen c col row s = record {
  some_address = s.some_address;
  line = s.line;
  area = s.area;
  narrow = s.narrow;
  low = s.low;
  cols = s.cols;
  rows = s.rows;
  some_cols = s.some_cols;
  some_rows = s.some_rows;
}

-- The memory before a scroll.
abbrev pub drawn : Font → Memory → Console → (ch fg_rgb bg_rgb : ℕ) → Memory
drawn font m c ch fg_rgb bg_rgb =
    if ch == b'\n' then m else draw_glyph font m c c.cursor_col c.cursor_row ch fg_rgb bg_rgb

no_wrap_down : (c : Console) → IsConsole c → u32 (c.cursor_row + 1) ≡ c.cursor_row + 1
no_wrap_down c s = omega (arith, s.row, s.screen.rows, s.screen.low)

no_wrap_right : (c : Console) → IsConsole c → u32 (c.cursor_col + 1) ≡ c.cursor_col + 1
no_wrap_right c s = omega (arith, s.col, s.screen.cols, s.screen.narrow)

place_char_step :
    (font : Font) (m : Memory) (c : Console) (ch fg_rgb bg_rgb : ℕ)
    → IsConsole c
    → place_char font (m, c) ch fg_rgb bg_rgb ≡ (
      drawn font m c ch fg_rgb bg_rgb,
      moved c (next_col c ch) (if ends c ch then c.cursor_row + 1 else c.cursor_row),
    )
unfolding place_char
place_char_step font m c ch fg_rgb bg_rgb s =
    let down = no_wrap_down c s in
    let right = no_wrap_right c s in
    rw (down, right) (placed (ch == b'\n') (leb c.console_cols (c.cursor_col + 1)))
  where
    placed :
        (newline last : Bool)
        → ◌≡◌ {A = Memory × Console}
            (if newline then (m, moved c 0 (c.cursor_row + 1)) else (
              draw_glyph font m c c.cursor_col c.cursor_row ch fg_rgb bg_rgb,
              if last
                  then moved c 0 (c.cursor_row + 1)
                  else moved c (c.cursor_col + 1) c.cursor_row,
            ))
            (
              if newline then m else draw_glyph font m c c.cursor_col c.cursor_row ch fg_rgb bg_rgb,
              moved c
                  (if newline || last then 0 else c.cursor_col + 1)
                  (if newline || last then c.cursor_row + 1 else c.cursor_row),
            )
    placed true last = refl
    placed false true = refl
    placed false false = refl

scroll-moved :
    (m : Memory) (c : Console) (col row : ℕ)
    → scroll_one_row m (moved c col row) ≡ scroll_one_row m c
unfolding scroll_one_row
scroll-moved m c col row = refl

pub putc_step :
    (font : Font) (m : Memory) (c : Console) (ch fg_rgb bg_rgb : ℕ)
    → IsConsole c
    → fb_console_putc font (m, c) ch fg_rgb bg_rgb ≡ (
      if scrolls c ch
          then scroll_one_row (drawn font m c ch fg_rgb bg_rgb) c
          else drawn font m c ch fg_rgb bg_rgb,
      moved c (next_col c ch) (next_row c ch),
    )
unfolding fb_console_putc
putc_step font m c ch fg_rgb bg_rgb s =
    rw (place_char_step font m c ch fg_rgb bg_rgb s, some_address, at_bottom, last_row)
      (putted (scrolls c ch) (if ends c ch then c.cursor_row + 1 else c.cursor_row))
  where
    some_address : (c.fb.address == 0) ≡ false
    some_address = ground (arith, s.screen.some_address)

    at_bottom :
        leb c.console_rows (if ends c ch then c.cursor_row + 1 else c.cursor_row) ≡ scrolls c ch
    at_bottom = elim (Bool-cases (ends c ch)) [
      | inl e ↦ rw e refl
      | inr e ↦ rw e (ground (arith, s.row))
    ]

    last_row : sub32 c.console_rows 1 ≡ c.console_rows - 1
    last_row = omega (arith, s.screen.rows, s.screen.low, s.screen.some_rows)

    putted :
        (b : Bool) (row : ℕ)
        → ◌≡◌ {A = Memory × Console}
            (if b
              then (
                scroll_one_row (drawn font m c ch fg_rgb bg_rgb) c,
                moved c (next_col c ch) (c.console_rows - 1),
              )
              else (drawn font m c ch fg_rgb bg_rgb, moved c (next_col c ch) row))
            (
              if b
                  then scroll_one_row (drawn font m c ch fg_rgb bg_rgb) c
                  else drawn font m c ch fg_rgb bg_rgb,
              moved c (next_col c ch) (if b then c.console_rows - 1 else row),
            )
    putted true row = refl
    putted false row = refl
