-- ===== src/Framebuffer/Draw.antt =====
-- kernel/drivers/framebuffer/framebuffer.c: what filling, drawing and scrolling leave in each pixel.
use quin_kernel_template.Base.{
  ℕ, zero, suc, ◌+◌, ◌-◌, ◌*◌, ◌/◌, ◌%◌, ◌^◌, ◌<◌, ◌≤◌, ◌≡◌, refl, ap, ◌∙◌, arith, Bool, true,
  false, not, ◌&&◌, ◌||◌, u8, u32, ◌>>>◌, ◌==◌, if◌then◌else◌, bit_and,
}
use quin_kernel_template.Memory.{Memory, within}
use quin_kernel_template.Framebuffer.{
  Console, Font, cell_w, cell_h, put_pixel_raw, clear_row, clear_rows, fb_clear, pack_color,
  draw_row, draw_rows, draw_glyph,
}
use quin_kernel_template.Framebuffer.Frame.{IsScreen, byte, byte-put}

-- The colour of a glyph's row at a column.
abbrev pub ink : (bits fg bg gx : ℕ) → ℕ
ink bits fg bg gx = if not (bit_and bits (2 ^ gx) == 0) then fg else bg

-- A round for one column, and the rounds after it.
joined :
    (later now line part : Bool) (old put whole here : ℕ)
    → put ≡ (if now && line then here else old)
    → (now ≡ true → here ≡ whole)
    → part ≡ (now || later)
    → (if later && line then whole else put) ≡ (if part && line then whole else old)
joined later now line part old put whole here e same both = ground (arith, e, same, both)

swapped :
    (a b line : Bool) (new old : ℕ)
    → a ≡ b
    → (if a && line then new else old) ≡ (if line && b then new else old)
swapped a b line new old e = ground (arith, e)

chosen :
    (a b : Bool) (old : ℕ) (f : ℕ → ℕ → ℕ) (dx dx' dy dy' : ℕ)
    → a ≡ b
    → (b ≡ true → dx ≡ dx')
    → (b ≡ true → dy ≡ dy')
    → (if a then f dx dy else old) ≡ (if b then f dx' dy' else old)
chosen a true old f dx dx' dy dy' e ex ey =
    rw e (ap (λ (d : ℕ). f d dy) (ex refl) ∙ ap (f dx') (ey refl))
chosen a false old f dx dx' dy dy' e ex ey = rw e refl

module _ (c : Console) (s : IsScreen c) where
  byte-clear_row :
      (m : Memory) (native y left x x' y' i : ℕ)
      → x + left ≤ c.fb.width
      → y < c.fb.height
      → x' < c.fb.width
      → i < c.bytes_per_pixel
      → byte (clear_row m c native y left x) c x' y' i
        ≡ (if within x left x' && y' == y then u8 (native >>> (8 * i)) else byte m c x' y' i)
  unfolding clear_row
  byte-clear_row m native y zero x x' y' i lx ly lx' li = ground arith
  byte-clear_row m native y (suc left) x x' y' i lx ly lx' li =
      byte-clear_row (put_pixel_raw m c x y native) native y left (x + 1) x' y' i (omega arith) ly
        lx' li
      ∙ ground (arith, byte-put c s m x y native x' y' i)

  byte-clear_rows :
      (m : Memory) (native left y x' y' i : ℕ)
      → y + left ≤ c.fb.height
      → x' < c.fb.width
      → i < c.bytes_per_pixel
      → byte (clear_rows m c native left y) c x' y' i
        ≡ (if within y left y' then u8 (native >>> (8 * i)) else byte m c x' y' i)
  unfolding clear_rows
  byte-clear_rows m native zero y x' y' i ly lx' li = ground arith
  byte-clear_rows m native (suc left) y x' y' i ly lx' li =
      byte-clear_rows (clear_row m c native y c.fb.width 0) native left (y + 1) x' y' i
        (omega arith) lx' li
      ∙ ground (arith, byte-clear_row m native y c.fb.width 0 x' y' i)

  -- fb_clear leaves the packed colour in every pixel.
  byte-clear :
      (m : Memory) (color_rgb x y i : ℕ)
      → x < c.fb.width
      → y < c.fb.height
      → i < c.bytes_per_pixel
      → byte (fb_clear m c color_rgb) c x y i ≡ u8 (pack_color c.fb color_rgb >>> (8 * i))
  unfolding fb_clear
  byte-clear m color_rgb x y i lx ly li =
      byte-clear_rows m (pack_color c.fb color_rgb) c.fb.height 0 x y i (omega arith) lx li
      ∙ ground arith

  byte-draw_row :
      (m : Memory) (bits origin_x y fg bg left gx x' y' i : ℕ)
      → origin_x + gx + left ≤ c.fb.width
      → y < c.fb.height
      → x' < c.fb.width
      → i < c.bytes_per_pixel
      → byte (draw_row m c bits origin_x y fg bg left gx) c x' y' i ≡ (
          if within (origin_x + gx) left x' && y' == y
          then u8 (ink bits fg bg (x' - origin_x) >>> (8 * i))
          else byte m c x' y' i)
  unfolding draw_row
  byte-draw_row m bits origin_x y fg bg zero gx x' y' i lx ly lx' li = ground arith
  byte-draw_row m bits origin_x y fg bg (suc left) gx x' y' i lx ly lx' li =
      byte-draw_row (put_pixel_raw m c (u32 (origin_x + gx)) y (ink bits fg bg gx)) bits origin_x y
        fg bg left (gx + 1) x' y' i (omega arith) ly lx' li
      ∙ joined (within (origin_x + (gx + 1)) left x') (x' == u32 (origin_x + gx)) (y' == y)
          (within (origin_x + gx) (suc left) x') (byte m c x' y' i)
          (byte (put_pixel_raw m c (u32 (origin_x + gx)) y (ink bits fg bg gx)) c x' y' i)
          (u8 (ink bits fg bg (x' - origin_x) >>> (8 * i))) (u8 (ink bits fg bg gx >>> (8 * i)))
          (byte-put c s m (u32 (origin_x + gx)) y (ink bits fg bg gx) x' y' i
            (omega (arith, s.narrow)) ly lx' li)
          (λ e.
            ap (λ (k : ℕ). u8 (ink bits fg bg k >>> (8 * i))) {x = gx} {y = x' - origin_x}
              (ground (arith, s.narrow)))
          (ground (arith, s.narrow))

  byte-draw_rows :
      (m : Memory) (glyph : ℕ → ℕ) (origin_x origin_y fg bg left gy x' y' i : ℕ)
      → origin_x + cell_w ≤ c.fb.width
      → origin_y + gy + left ≤ c.fb.height
      → x' < c.fb.width
      → i < c.bytes_per_pixel
      → byte (draw_rows m c glyph origin_x origin_y fg bg left gy) c x' y' i ≡ (
          if within (origin_y + gy) left y' && within origin_x cell_w x'
          then u8 (ink (glyph (y' - origin_y)) fg bg (x' - origin_x) >>> (8 * i))
          else byte m c x' y' i)
  unfolding draw_rows
  byte-draw_rows m glyph origin_x origin_y fg bg zero gy x' y' i lx ly lx' li = ground arith
  byte-draw_rows m glyph origin_x origin_y fg bg (suc left) gy x' y' i lx ly lx' li =
      let row = u32 (origin_y + gy) in
      let drawn = draw_row m c (glyph gy) origin_x row fg bg cell_w 0 in
      byte-draw_rows drawn glyph origin_x origin_y fg bg left (gy + 1) x' y' i lx (omega arith) lx'
        li
      ∙ joined (within (origin_y + (gy + 1)) left y') (y' == row) (within origin_x cell_w x')
          (within (origin_y + gy) (suc left) y') (byte m c x' y' i) (byte drawn c x' y' i)
          (u8 (ink (glyph (y' - origin_y)) fg bg (x' - origin_x) >>> (8 * i)))
          (u8 (ink (glyph gy) fg bg (x' - origin_x) >>> (8 * i)))
          (byte-draw_row m (glyph gy) origin_x row fg bg cell_w 0 x' y' i (omega arith)
              (omega (arith, s.low)) lx' li
            ∙ swapped (within (origin_x + 0) cell_w x') (within origin_x cell_w x') (y' == row)
                (u8 (ink (glyph gy) fg bg (x' - origin_x) >>> (8 * i))) (byte m c x' y' i)
                (ground arith))
          (λ e.
            ap (λ (k : ℕ). u8 (ink (glyph k) fg bg (x' - origin_x) >>> (8 * i))) {x = gy}
              {y = y' - origin_y} (ground (arith, s.low)))
          (ground (arith, s.low))

  -- draw_glyph leaves the glyph in its cell, a pixel for each bit, and no other pixel changes.
  pub byte-draw_glyph :
      (font : Font) (m : Memory) (col row ch fg_rgb bg_rgb x y i : ℕ)
      → col < c.console_cols
      → row < c.console_rows
      → x < c.fb.width
      → i < c.bytes_per_pixel
      → byte (draw_glyph font m c col row ch fg_rgb bg_rgb) c x y i ≡ (
          if y / cell_h == row && x / cell_w == col
          then u8 (
              ink
                (font (bit_and (u8 ch) 0x7f) (y % cell_h))
                (pack_color c.fb fg_rgb)
                (pack_color c.fb bg_rgb)
                (x % cell_w)
              >>> (8 * i))
          else byte m c x y i)
  unfolding draw_glyph
  byte-draw_glyph font m col row ch fg_rgb bg_rgb x y i lcol lrow lx li =
      byte-draw_rows m (font (bit_and (u8 ch) 0x7f)) (u32 (col * cell_w)) (u32 (row * cell_h))
        (pack_color c.fb fg_rgb) (pack_color c.fb bg_rgb) cell_h 0 x y i
        (omega (arith, s.cols, s.narrow)) (omega (arith, s.rows, s.low)) lx li
      ∙ chosen (within (u32 (row * cell_h) + 0) cell_h y && within (u32 (col * cell_w)) cell_w x)
          (y / cell_h == row && x / cell_w == col) (byte m c x y i)
          (λ dx dy. u8 (
            ink (font (bit_and (u8 ch) 0x7f) dy) (pack_color c.fb fg_rgb) (pack_color c.fb bg_rgb)
              dx
            >>> (8 * i)))
          (x - u32 (col * cell_w)) (x % cell_w) (y - u32 (row * cell_h)) (y % cell_h)
          (ground (arith, s.cols, s.narrow, s.rows, s.low)) (λ e. ground (arith, s.cols, s.narrow))
          (λ e. ground (arith, s.rows, s.low))
