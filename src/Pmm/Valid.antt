-- ===== src/Pmm/Valid.antt =====
-- The representation invariant of kernel/mm/pmm.c, and how many frames are free.
use quin_kernel_template.Base.{
  ℕ, zero, suc, ◌+◌, ◌-◌, ◌*◌, ◌/◌, ◌^◌, ◌≤◌, ◌<◌, ◌≡◌, refl, true, false, arith, if◌then◌else◌,
  ltb,
}
use quin_kernel_template.Bitmap.{bitmap_test, bitmap_set, bitmap_clear}
use quin_kernel_template.Bitmap.Bit.{test-set, test-clear}
use quin_kernel_template.Memory.{Memory}
use quin_kernel_template.Pmm.{Pmm, page_size}

-- How many of the first `n` bits are clear.
unfoldable pub clear_count : Memory → (bitmap n : ℕ) → ℕ
clear_count m bitmap zero = 0
clear_count m bitmap (suc n) = (if bitmap_test m bitmap n then 0 else 1) + clear_count m bitmap n

-- The frame that holds the byte of bit `j`.
abbrev pub own_frame : Pmm → ℕ → ℕ
own_frame s j = (s.bitmap - s.hhdm_offset + j / 8) / page_size

pub record IsValid (s : Pmm) (m : Memory) : Type 0 where
  pub pos : 0 < s.frame_count
  pub small : s.hhdm_offset + s.frame_count * page_size ≤ 2 ^ 64
  pub above : s.hhdm_offset ≤ s.bitmap
  pub own_in_range : (j : ℕ) → j < s.frame_count → own_frame s j < s.frame_count
  pub own_used : (j : ℕ) → j < s.frame_count → bitmap_test m s.bitmap (own_frame s j) ≡ true
  pub zero_used : bitmap_test m s.bitmap 0 ≡ true
  pub counted : s.free_frames ≡ clear_count m s.bitmap s.frame_count

-- A frame that the allocator may hand out.
abbrev pub IsFree : Pmm → Memory → ℕ → Type 0
IsFree s m f = (f < s.frame_count) × (bitmap_test m s.bitmap f ≡ false)

pub clear_count-le : (m : Memory) (bitmap n : ℕ) → clear_count m bitmap n ≤ n
unfolding clear_count
clear_count-le m bitmap zero = omega arith
clear_count-le m bitmap (suc n) = ground (arith, clear_count-le m bitmap n)

-- Only the first `n` bits count.
pub clear_count_ext :
    (m m' : Memory) (bitmap n : ℕ)
    → ((j : ℕ) → j < n → bitmap_test m bitmap j ≡ bitmap_test m' bitmap j)
    → clear_count m bitmap n ≡ clear_count m' bitmap n
unfolding clear_count
clear_count_ext m m' bitmap zero h = refl
clear_count_ext m m' bitmap (suc n) h =
    ground (arith, h n (omega arith), clear_count_ext m m' bitmap n (λ j lt. h j (omega arith)))

pub clear_count-set :
    (m : Memory) (bitmap f n : ℕ)
    → bitmap_test m bitmap f ≡ false
    → clear_count m bitmap n
      ≡ clear_count (bitmap_set m bitmap f) bitmap n + (if ltb f n then 1 else 0)
unfolding clear_count
clear_count-set m bitmap f zero h = ground arith
clear_count-set m bitmap f (suc n) h =
    ground (arith, clear_count-set m bitmap f n h, test-set m bitmap f n)

pub clear_count-clear :
    (m : Memory) (bitmap f n : ℕ)
    → bitmap_test m bitmap f ≡ true
    → clear_count (bitmap_clear m bitmap f) bitmap n
      ≡ clear_count m bitmap n + (if ltb f n then 1 else 0)
unfolding clear_count
clear_count-clear m bitmap f zero h = ground arith
clear_count-clear m bitmap f (suc n) h =
    ground (arith, clear_count-clear m bitmap f n h, test-clear m bitmap f n)
