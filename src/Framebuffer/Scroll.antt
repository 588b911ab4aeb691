-- ===== src/Framebuffer/Scroll.antt =====
-- kernel/drivers/framebuffer/framebuffer.c: scrolling by a row of characters.
use native.Mathlib.Nat.{mul-le-mul_left}
use quin_kernel_template.Base.{
  ℕ, ◌+◌, ◌-◌, ◌*◌, ◌<◌, ◌≤◌, ◌≡◌, refl, ap, ◌∙◌, arith, true, false, u64, sub64, ltb,
  if◌then◌else◌, Bool-cases, inl, inr,
}
use quin_kernel_template.Memory.{Memory, load, within}
use quin_kernel_template.Strings.{memmove, memset}
use quin_kernel_template.Strings.Copy.{memmove_lem, memset_lem}
use quin_kernel_template.Framebuffer.{Console, cell_h, scroll_one_row}
use quin_kernel_template.Framebuffer.Frame.{
  IsScreen, place_end, place, byte, inside, line_end, next_multiple,
}

module _ (c : Console) (s : IsScreen c) where
  abbrev moved_bytes : ℕ
  moved_bytes = (c.fb.height - cell_h) * c.fb.pitch

  abbrev row_bytes : ℕ
  row_bytes = cell_h * c.fb.pitch

  all_bytes : moved_bytes + row_bytes ≡ c.fb.height * c.fb.pitch
  all_bytes = omega (
    arith,
    ap (λ (z : ℕ). z * c.fb.pitch) {x = c.fb.height} {y = c.fb.height - cell_h + cell_h}
        (omega (arith, s.rows, s.some_rows)),
  )

  size : u64 row_bytes ≡ row_bytes
  size = omega (arith, all_bytes, s.area)

  rest : u64 (sub64 c.fb.height cell_h * c.fb.pitch) ≡ moved_bytes
  rest =
      ap (λ (h : ℕ). u64 (h * c.fb.pitch)) {x = sub64 c.fb.height cell_h} {y = c.fb.height - cell_h}
        (omega (arith, s.rows, s.some_rows, s.low))
      ∙ omega (arith, all_bytes, s.area)

  from : u64 (c.fb.address + row_bytes) ≡ c.fb.address + row_bytes
  from = omega (arith, all_bytes, s.area)

  to : u64 (c.fb.address + moved_bytes) ≡ c.fb.address + moved_bytes
  to = omega (arith, all_bytes, s.area)

  scroll_step :
      (m : Memory)
      → scroll_one_row m c
        ≡ memset
            (memmove m c.fb.address (c.fb.address + row_bytes) moved_bytes)
            (c.fb.address + moved_bytes)
            0
            row_bytes
  unfolding scroll_one_row
  scroll_step m =
      ap
        (λ (z : ℕ).
          memset
            (memmove m c.fb.address (u64 (c.fb.address + z))
              (u64 (sub64 c.fb.height cell_h * c.fb.pitch)))
            (u64 (c.fb.address + u64 (sub64 c.fb.height cell_h * c.fb.pitch))) 0 z)
        size
      ∙ ap
          (λ (z : ℕ).
            memset (memmove m c.fb.address (u64 (c.fb.address + row_bytes)) z)
              (u64 (c.fb.address + z)) 0 row_bytes)
          rest
      ∙ ap
          (λ (z : ℕ).
            memset (memmove m c.fb.address z moved_bytes) (u64 (c.fb.address + moved_bytes)) 0
              row_bytes)
          from
      ∙ ap
          (λ (z : ℕ).
            memset (memmove m c.fb.address (c.fb.address + row_bytes) moved_bytes) z 0 row_bytes)
          to

  -- Every byte after a scroll.
  scroll_lem :
      (m : Memory) (a : ℕ)
      → load (scroll_one_row m c) a ≡ (
          if within (c.fb.address + moved_bytes) row_bytes a
          then 0
          else if within c.fb.address moved_bytes a
          then load m (a + row_bytes)
          else load m a)
  scroll_lem m a =
      ap (λ (g : Memory). load g a) (scroll_step m)
      ∙ memset_lem (memmove m c.fb.address (c.fb.address + row_bytes) moved_bytes)
          (c.fb.address + moved_bytes) 0 row_bytes a
      ∙ ap (λ (v : ℕ). if within (c.fb.address + moved_bytes) row_bytes a then 0 else v)
          (memmove_lem m c.fb.address (c.fb.address + row_bytes) moved_bytes a ∙ source)
    where
      source :
          (if within c.fb.address moved_bytes a
            then load m (c.fb.address + row_bytes + (a - c.fb.address))
            else load m a)
          ≡ (if within c.fb.address moved_bytes a then load m (a + row_bytes) else load m a)
      source = elim (Bool-cases (within c.fb.address moved_bytes a)) [
        | inl e ↦ rw e (ap (load m) (ground arith))
        | inr e ↦ rw e refl
      ]

  -- Scrolling moves each line of pixels up by the eight lines of a row of characters, and blackens
  -- the last eight.
  pub byte-scroll :
      (m : Memory) (x y i : ℕ)
      → x < c.fb.width
      → y < c.fb.height
      → i < c.bytes_per_pixel
      → byte (scroll_one_row m c) c x y i
        ≡ (if ltb (y + cell_h) c.fb.height then byte m c x (y + cell_h) i else 0)
  byte-scroll m x y i lx ly li = scroll_lem m (place c x y + i) ∙ moved
    where
      line_le : (k z w : ℕ) → z ≤ w → z * k ≤ w * k
      line_le k z w le = omega (arith, mul-le-mul_left {m = z} {n = w} k le)

      kept : (y + cell_h < c.fb.height) → place c x y + i < c.fb.address + moved_bytes
      kept lt = omega (
        arith,
        line_end c s x y lx,
        next_multiple c.fb.pitch y (c.fb.height - cell_h) (omega arith),
      )

      last : c.fb.height ≤ y + cell_h → c.fb.address + moved_bytes ≤ place c x y + i
      last le = omega (arith, line_le c.fb.pitch (c.fb.height - cell_h) y (omega arith))

      moved :
          (if within (c.fb.address + moved_bytes) row_bytes (place c x y + i)
            then 0
            else if within c.fb.address moved_bytes (place c x y + i)
            then load m (place c x y + i + row_bytes)
            else load m (place c x y + i))
          ≡ (if ltb (y + cell_h) c.fb.height then byte m c x (y + cell_h) i else 0)
      moved = elim (Bool-cases (ltb (y + cell_h) c.fb.height)) [
        | inl e ↦
            let k = kept (ground arith) in
            let t1 : within (c.fb.address + moved_bytes) row_bytes (place c x y + i) ≡ false =
              ground arith in
            let t2 : within c.fb.address moved_bytes (place c x y + i) ≡ true = ground arith in
            rw (e, t1, t2) (ap (load m) (omega arith))
        | inr e ↦
            let k = last (ground arith) in
            let t1 : within (c.fb.address + moved_bytes) row_bytes (place c x y + i) ≡ true =
              ground (arith, place_end c s x y lx ly, all_bytes) in
            rw (e, t1) refl
      ]

  pub outside-scroll :
      (m : Memory) (a : ℕ) → inside c a ≡ false → load (scroll_one_row m c) a ≡ load m a
  outside-scroll m a out = scroll_lem m a ∙ ground (arith, all_bytes)
