-- ===== src/Framebuffer/Outside.antt =====
-- kernel/drivers/framebuffer/framebuffer.c: the memory that drawing does not reach.
use quin_kernel_template.Base.{
  ℕ, zero, suc, ◌+◌, ◌*◌, ◌<◌, ◌≤◌, ◌≡◌, refl, ◌∙◌, arith, false, u8, u32, bit_and,
}
use quin_kernel_template.Memory.{Memory, load}
use quin_kernel_template.Framebuffer.{
  Console, Font, cell_w, cell_h, put_pixel_raw, clear_row, clear_rows, fb_clear, pack_color,
  draw_row, draw_rows, draw_glyph,
}
use quin_kernel_template.Framebuffer.Frame.{IsScreen, inside, outside-put}
use quin_kernel_template.Framebuffer.Draw.{ink}

module _ (c : Console) (s : IsScreen c) (a : ℕ) (out : inside c a ≡ false) where
  outside-clear_row :
      (m : Memory) (native y left x : ℕ)
      → x + left ≤ c.fb.width
      → y < c.fb.height
      → load (clear_row m c native y left x) a ≡ load m a
  unfolding clear_row
  outside-clear_row m native y zero x lx ly = refl
  outside-clear_row m native y (suc left) x lx ly =
      outside-clear_row (put_pixel_raw m c x y native) native y left (x + 1) (omega arith) ly
      ∙ outside-put c s m x y native a (omega arith) ly out

  outside-clear_rows :
      (m : Memory) (native left y : ℕ)
      → y + left ≤ c.fb.height
      → load (clear_rows m c native left y) a ≡ load m a
  unfolding clear_rows
  outside-clear_rows m native zero y ly = refl
  outside-clear_rows m native (suc left) y ly =
      outside-clear_rows (clear_row m c native y c.fb.width 0) native left (y + 1) (omega arith)
      ∙ outside-clear_row m native y c.fb.width 0 (omega arith) (omega arith)

  outside-clear : (m : Memory) (color_rgb : ℕ) → load (fb_clear m c color_rgb) a ≡ load m a
  unfolding fb_clear
  outside-clear m color_rgb =
      outside-clear_rows m (pack_color c.fb color_rgb) c.fb.height 0 (omega arith)

  outside-draw_row :
      (m : Memory) (bits origin_x y fg bg left gx : ℕ)
      → origin_x + gx + left ≤ c.fb.width
      → y < c.fb.height
      → load (draw_row m c bits origin_x y fg bg left gx) a ≡ load m a
  unfolding draw_row
  outside-draw_row m bits origin_x y fg bg zero gx lx ly = refl
  outside-draw_row m bits origin_x y fg bg (suc left) gx lx ly =
      outside-draw_row (put_pixel_raw m c (u32 (origin_x + gx)) y (ink bits fg bg gx)) bits origin_x
        y fg bg left (gx + 1) (omega arith) ly
      ∙ outside-put c s m (u32 (origin_x + gx)) y (ink bits fg bg gx) a (omega (arith, s.narrow)) ly
          out

  outside-draw_rows :
      (m : Memory) (glyph : ℕ → ℕ) (origin_x origin_y fg bg left gy : ℕ)
      → origin_x + cell_w ≤ c.fb.width
      → origin_y + gy + left ≤ c.fb.height
      → load (draw_rows m c glyph origin_x origin_y fg bg left gy) a ≡ load m a
  unfolding draw_rows
  outside-draw_rows m glyph origin_x origin_y fg bg zero gy lx ly = refl
  outside-draw_rows m glyph origin_x origin_y fg bg (suc left) gy lx ly =
      let row = u32 (origin_y + gy) in
      outside-draw_rows (draw_row m c (glyph gy) origin_x row fg bg cell_w 0) glyph origin_x
        origin_y fg bg left (gy + 1) lx (omega arith)
      ∙ outside-draw_row m (glyph gy) origin_x row fg bg cell_w 0 (omega arith)
          (omega (arith, s.low))

  pub outside-draw_glyph :
      (font : Font) (m : Memory) (col row ch fg_rgb bg_rgb : ℕ)
      → col < c.console_cols
      → row < c.console_rows
      → load (draw_glyph font m c col row ch fg_rgb bg_rgb) a ≡ load m a
  unfolding draw_glyph
  outside-draw_glyph font m col row ch fg_rgb bg_rgb lcol lrow =
      outside-draw_rows m (font (bit_and (u8 ch) 0x7f)) (u32 (col * cell_w)) (u32 (row * cell_h))
        (pack_color c.fb fg_rgb) (pack_color c.fb bg_rgb) cell_h 0 (omega (arith, s.cols, s.narrow))
        (omega (arith, s.rows, s.low))
