-- ===== src/Framebuffer/Putc.antt =====
-- kernel/drivers/framebuffer/framebuffer.c: a character, and a string, on the console.
use quin_kernel_template.Base.{
  ℕ, ◌+◌, ◌*◌, ◌/◌, ◌%◌, ◌<◌, ◌≡◌, refl, sym, ap, subst, ◌∙◌, arith, false, not, ◌&&◌, List, [],
  ◌∷◌, u8, ◌>>>◌, bit_and, ltb, ◌==◌, if◌then◌else◌, Bool-cases, inl, inr,
}
use quin_kernel_template.Memory.{Memory, load}
use quin_kernel_template.Framebuffer.{
  Console, Font, cell_w, cell_h, pack_color, scroll_one_row, fb_console_putc, fb_console_write,
}
use quin_kernel_template.Framebuffer.Frame.{byte, inside}
use quin_kernel_template.Framebuffer.Draw.{ink, byte-draw_glyph}
use quin_kernel_template.Framebuffer.Scroll.{byte-scroll, outside-scroll}
use quin_kernel_template.Framebuffer.Outside.{outside-draw_glyph}
use quin_kernel_template.Framebuffer.Cursor.{
  IsConsole, moved, scrolls, next_col, next_row, moved-IsScreen, drawn, putc_step,
}

moved-IsConsole :
    (c : Console) (ch : ℕ) → IsConsole c → IsConsole (moved c (next_col c ch) (next_row c ch))
moved-IsConsole c ch s = record {
  screen = moved-IsScreen c (next_col c ch) (next_row c ch) s.screen;
  col = ground (arith, s.col, s.screen.some_cols);
  row = ground (arith, s.row, s.screen.some_rows);
}

outside-drawn :
    (font : Font) (m : Memory) (c : Console) (ch fg_rgb bg_rgb a : ℕ)
    → IsConsole c
    → inside c a ≡ false
    → load (drawn font m c ch fg_rgb bg_rgb) a ≡ load m a
outside-drawn font m c ch fg_rgb bg_rgb a s out = elim (Bool-cases (ch == b'\n')) [
  | inl e ↦ rw e refl
  | inr e ↦ rw e (
      outside-draw_glyph c s.screen a out font m c.cursor_col c.cursor_row ch fg_rgb bg_rgb s.col
        s.row)
]

outside-putc :
    (font : Font) (m : Memory) (c : Console) (ch fg_rgb bg_rgb a : ℕ)
    → IsConsole c
    → inside c a ≡ false
    → load (fb_console_putc font (m, c) ch fg_rgb bg_rgb).0 a ≡ load m a
outside-putc font m c ch fg_rgb bg_rgb a s out =
    ap (λ (r : Memory × Console). load r.0 a) (putc_step font m c ch fg_rgb bg_rgb s)
    ∙ elim (Bool-cases (scrolls c ch)) [
      | inl e ↦ rw e (
          outside-scroll c s.screen (drawn font m c ch fg_rgb bg_rgb) a out
          ∙ outside-drawn font m c ch fg_rgb bg_rgb a s out)
      | inr e ↦ rw e (outside-drawn font m c ch fg_rgb bg_rgb a s out)
    ]

-- What a string leaves: a console of the same mode, and the memory outside the framebuffer.
abbrev pub Written : Memory → Console → Memory × Console → Type 0
Written m c r =
    IsConsole r.1 × (r.1.fb ≡ c.fb) × ((a : ℕ) → inside c a ≡ false → load r.0 a ≡ load m a)

-- On a console whose mode fits the memory and whose cursor is in a cell, fb_console_write of any
-- string keeps the cursor in a cell and the mode as it is, and changes no byte outside the
-- framebuffer.
pub write-Written :
    (font : Font) (m : Memory) (c : Console) (str : List ℕ) (fg_rgb bg_rgb : ℕ)
    → IsConsole c
    → Written m c (fb_console_write font (m, c) str fg_rgb bg_rgb)
unfolding fb_console_write
write-Written font m c [] fg_rgb bg_rgb s = (s, refl, (λ a out. refl))
write-Written font m c (ch ∷ str) fg_rgb bg_rgb s =
    let r = fb_console_putc font (m, c) ch fg_rgb bg_rgb in
    let step = putc_step font m c ch fg_rgb bg_rgb s in
    let same = ap (λ (t : Memory × Console). t.1.fb) step in
    let rest =
      write-Written font r.0 r.1 str fg_rgb bg_rgb
        (subst (λ (t : Memory × Console). IsConsole t.1) (sym step) (moved-IsConsole c ch s)) in
    (
      rest.0,
      rest.1 ∙ same,
      λ a out. rest.2 a (rw same out) ∙ outside-putc font m c ch fg_rgb bg_rgb a s out,
    )

-- Byte `i` of the pixel once the character is drawn.
abbrev pub glyphed : Font → Memory → Console → (ch fg_rgb bg_rgb x y i : ℕ) → ℕ
glyphed font m c ch fg_rgb bg_rgb x y i =
    if not (ch == b'\n') && (y / cell_h == c.cursor_row && x / cell_w == c.cursor_col)
    then u8 (
        ink (font (bit_and (u8 ch) 0x7f) (y % cell_h)) (pack_color c.fb fg_rgb)
          (pack_color c.fb bg_rgb) (x % cell_w)
        >>> (8 * i))
    else byte m c x y i

byte-drawn :
    (font : Font) (m : Memory) (c : Console) (ch fg_rgb bg_rgb x y i : ℕ)
    → IsConsole c
    → x < c.fb.width
    → i < c.bytes_per_pixel
    → byte (drawn font m c ch fg_rgb bg_rgb) c x y i ≡ glyphed font m c ch fg_rgb bg_rgb x y i
byte-drawn font m c ch fg_rgb bg_rgb x y i s lx li = elim (Bool-cases (ch == b'\n')) [
  | inl e ↦ rw e refl
  | inr e ↦ rw e (
      byte-draw_glyph c s.screen font m c.cursor_col c.cursor_row ch fg_rgb bg_rgb x y i s.col s.row
        lx li)
]

-- On a console whose mode fits the memory and whose cursor is in a cell, fb_console_putc draws the
-- character's glyph in the cursor's cell, unless it is a newline, and then, when the line ends at
-- the last row, moves all lines of pixels up by eight and blackens the last eight; the cursor goes
-- to the next cell, or to the start of the next row, which is the last one again after a scroll.
pub putc_lem :
    (font : Font) (m : Memory) (c : Console) (ch fg_rgb bg_rgb x y i : ℕ)
    → IsConsole c
    → x < c.fb.width
    → y < c.fb.height
    → i < c.bytes_per_pixel
    → let r = fb_console_putc font (m, c) ch fg_rgb bg_rgb in
      (byte r.0 c x y i ≡ (
        if scrolls c ch
        then if ltb (y + cell_h) c.fb.height
          then glyphed font m c ch fg_rgb bg_rgb x (y + cell_h) i
          else 0
        else glyphed font m c ch fg_rgb bg_rgb x y i))
      × (r.1.cursor_col ≡ next_col c ch)
      × (r.1.cursor_row ≡ next_row c ch)
putc_lem font m c ch fg_rgb bg_rgb x y i s lx ly li = (
  ap (λ (r : Memory × Console). byte r.0 c x y i) step ∙ elim (Bool-cases (scrolls c ch)) [
    | inl e ↦ rw e (
        byte-scroll c s.screen (drawn font m c ch fg_rgb bg_rgb) x y i lx ly li
        ∙ ap (λ (v : ℕ). if ltb (y + cell_h) c.fb.height then v else 0)
            (byte-drawn font m c ch fg_rgb bg_rgb x (y + cell_h) i s lx li))
    | inr e ↦ rw e (byte-drawn font m c ch fg_rgb bg_rgb x y i s lx li)
  ],
  ap (λ (r : Memory × Console). r.1.cursor_col) step,
  ap (λ (r : Memory × Console). r.1.cursor_row) step,
)
  where
    step : fb_console_putc font (m, c) ch fg_rgb bg_rgb ≡ (
      if scrolls c ch
          then scroll_one_row (drawn font m c ch fg_rgb bg_rgb) c
          else drawn font m c ch fg_rgb bg_rgb,
      moved c (next_col c ch) (next_row c ch),
    )
    step = putc_step font m c ch fg_rgb bg_rgb s
