-- ===== src/Framebuffer/Frame.antt =====
-- kernel/drivers/framebuffer/framebuffer.c: the bytes of the pixels, and the memory around them.
use native.Mathlib.Nat.{mul-le-mul_left}
use quin_kernel_template.Base.{
  ℕ, zero, suc, ◌+◌, ◌-◌, ◌*◌, ◌/◌, ◌^◌, ◌<◌, ◌≤◌, ◌≡◌, ◌≢◌, ◌⊎◌, inl, inr, refl, sym, ap, ◌∙◌,
  arith, Bool, true, false, ◌&&◌, u8, ◌>>>◌, ◌==◌, if◌then◌else◌, Bool-cases,
}
use quin_kernel_template.Memory.{Memory, load, store, load-store, within}
use quin_kernel_template.Framebuffer.{Console, cell_w, cell_h, pixel_at, put_bytes, put_pixel_raw}

-- The mode fits the memory and the 32-bit coordinates, and has room for a character.
pub record IsScreen (c : Console) : Type 0 where
  pub some_address : c.fb.address ≢ 0
  pub line : c.fb.width * c.bytes_per_pixel ≤ c.fb.pitch
  pub area : c.fb.address + c.fb.height * c.fb.pitch < 2 ^ 64
  pub narrow : c.fb.width < 2 ^ 32
  pub low : c.fb.height < 2 ^ 32
  pub cols : c.console_cols ≡ c.fb.width / cell_w
  pub rows : c.console_rows ≡ c.fb.height / cell_h
  pub some_cols : 0 < c.console_cols
  pub some_rows : 0 < c.console_rows

-- The address of a pixel with no wrap-around.
abbrev pub place : Console → (x y : ℕ) → ℕ
place c x y = c.fb.address + y * c.fb.pitch + x * c.bytes_per_pixel

-- The `i`-th byte of a pixel.
abbrev pub byte : Memory → Console → (x y i : ℕ) → ℕ
byte m c x y i = load m (place c x y + i)

-- The whole framebuffer.
abbrev pub inside : Console → (a : ℕ) → Bool
inside c a = within c.fb.address (c.fb.height * c.fb.pitch) a

pub next_multiple : (k x w : ℕ) → x < w → x * k + k ≤ w * k
next_multiple k x w lt = omega (arith, mul-le-mul_left {m = x + 1} {n = w} k (omega arith))

module _ (c : Console) (s : IsScreen c) where
  pub line_end :
      (x y : ℕ)
      → x < c.fb.width
      → place c x y + c.bytes_per_pixel ≤ c.fb.address + y * c.fb.pitch + c.fb.pitch
  line_end x y lx = omega (arith, next_multiple c.bytes_per_pixel x c.fb.width lx, s.line)

  pub place_end :
      (x y : ℕ)
      → x < c.fb.width
      → y < c.fb.height
      → place c x y + c.bytes_per_pixel ≤ c.fb.address + c.fb.height * c.fb.pitch
  place_end x y lx ly = omega (arith, line_end x y lx, next_multiple c.fb.pitch y c.fb.height ly)

  pub pixel_at-place : (x y : ℕ) → x < c.fb.width → y < c.fb.height → pixel_at c x y ≡ place c x y
  pixel_at-place x y lx ly = omega (arith, place_end x y lx ly, s.area)

  apart_lines :
      (x y x' y' : ℕ) → x < c.fb.width → y < y' → place c x y + c.bytes_per_pixel ≤ place c x' y'
  apart_lines x y x' y' lx ly = omega (arith, line_end x y lx, next_multiple c.fb.pitch y y' ly)

  apart_cols : (x y x' y' : ℕ) → y ≡ y' → x < x' → place c x y + c.bytes_per_pixel ≤ place c x' y'
  apart_cols x y x' y' e lx =
      omega (arith, next_multiple c.bytes_per_pixel x x' lx, ap (λ (z : ℕ). z * c.fb.pitch) e)

  same_place : (x y x' y' : ℕ) → x' ≡ x → y' ≡ y → place c x' y' ≡ place c x y
  same_place x y x' y' ex ey = ap (λ (z : ℕ). place c z y') ex ∙ ap (λ (z : ℕ). place c x z) ey

  -- The bytes of two pixels do not overlap.
  pub places_apart :
      (x y x' y' i : ℕ)
      → x < c.fb.width
      → x' < c.fb.width
      → i < c.bytes_per_pixel
      → within (place c x y) c.bytes_per_pixel (place c x' y' + i) ≡ (x' == x && y' == y)
  places_apart x y x' y' i lx lx' li =
      disjoint (x' == x && y' == y) (place c x y) (place c x' y')
        (λ e. sym (same_place x y x' y' (ground arith) (ground arith)))
        (λ e. ground (
          arith,
          apart_lines x y x' y',
          apart_lines x' y' x y,
          apart_cols x y x' y',
          apart_cols x' y' x y,
        ))
    where
      disjoint :
          (b : Bool) (p q : ℕ)
          → (b ≡ true → p ≡ q)
          → (b ≡ false → (p + c.bytes_per_pixel ≤ q) ⊎ (q + c.bytes_per_pixel ≤ p))
          → within p c.bytes_per_pixel (q + i) ≡ b
      disjoint true p q same other = ground (arith, same refl)
      disjoint false p q same other = ground (arith, other refl)

put_bytes_lem :
    (m : Memory) (pixel color left i a : ℕ)
    → load (put_bytes m pixel color left i) a
      ≡ (if within (pixel + i) left a then u8 (color >>> (8 * (a - pixel))) else load m a)
unfolding put_bytes
put_bytes_lem m pixel color zero i a = ground arith
put_bytes_lem m pixel color (suc left) i a = ground (
  arith,
  put_bytes_lem (store m (pixel + i) (u8 (color >>> (8 * i)))) pixel color left (i + 1) a,
  load-store m (pixel + i) (u8 (color >>> (8 * i))) a,
  at_i,
)
  where
    at_i : a ≡ pixel + i → u8 (color >>> (8 * i)) ≡ u8 (color >>> (8 * (a - pixel)))
    at_i e = ap (λ (k : ℕ). u8 (color >>> (8 * k))) (omega arith)

put_pixel_lem :
    (m : Memory) (c : Console) (x y color a : ℕ)
    → load (put_pixel_raw m c x y color) a ≡ (
        if within (pixel_at c x y) c.bytes_per_pixel a
        then u8 (color >>> (8 * (a - pixel_at c x y)))
        else load m a)
unfolding put_pixel_raw
put_pixel_lem m c x y color a =
    ground (arith, put_bytes_lem m (pixel_at c x y) color c.bytes_per_pixel 0 a)

module _ (c : Console) (s : IsScreen c) where
  -- Putting a pixel changes the bytes of that pixel, and no byte outside the framebuffer.
  pub byte-put :
      (m : Memory) (x y color x' y' i : ℕ)
      → x < c.fb.width
      → y < c.fb.height
      → x' < c.fb.width
      → i < c.bytes_per_pixel
      → byte (put_pixel_raw m c x y color) c x' y' i
        ≡ (if x' == x && y' == y then u8 (color >>> (8 * i)) else byte m c x' y' i)
  byte-put m x y color x' y' i lx ly lx' li =
      rw
        (
          put_pixel_lem m c x y color (place c x' y' + i),
          pixel_at-place c s x y lx ly,
          places_apart c s x y x' y' i lx lx' li,
        )
        (elim (Bool-cases (x' == x && y' == y)) [
          | inl e ↦ rw e (
              ap (λ (k : ℕ). u8 (color >>> (8 * k))) {x = place c x' y' + i - place c x y} {y = i}
                (omega (arith, same_place c s x y x' y' (ground arith) (ground arith))))
          | inr e ↦ rw e refl
        ])

  pub outside-put :
      (m : Memory) (x y color a : ℕ)
      → x < c.fb.width
      → y < c.fb.height
      → inside c a ≡ false
      → load (put_pixel_raw m c x y color) a ≡ load m a
  outside-put m x y color a lx ly out =
      put_pixel_lem m c x y color a
      ∙ ground (arith, pixel_at-place c s x y lx ly, place_end c s x y lx ly)
