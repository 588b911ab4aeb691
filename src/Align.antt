-- ===== src/Align.antt =====
-- `align_up` and `align_down` of kernel/include/kernel.h, on 64-bit words.
use quin_kernel_template.Base.{ℕ, ◌+◌, ◌-◌, ◌*◌, ◌/◌, ◌^◌, ◌<◌, ◌≡◌, arith, bit_and, u64, not64}
use quin_kernel_template.Base.Bits.{bit_and_field}

unfoldable pub align_up : ℕ → ℕ → ℕ
align_up value align = bit_and (u64 (value + (align - 1))) (not64 (align - 1))

unfoldable pub align_down : ℕ → ℕ → ℕ
align_down value align = bit_and value (not64 (align - 1))

-- `~(align - 1)` for the three alignments that the kernel uses.
pub mask_by_8 : (x : ℕ) → x < 2 ^ 64 → bit_and x (not64 7) ≡ x / 8 * 8
mask_by_8 x h = omega (arith, bit_and_field 61 3 x)

pub mask_by_16 : (x : ℕ) → x < 2 ^ 64 → bit_and x (not64 15) ≡ x / 16 * 16
mask_by_16 x h = omega (arith, bit_and_field 60 4 x)

pub mask_by_4096 : (x : ℕ) → x < 2 ^ 64 → bit_and x (not64 4095) ≡ x / 4096 * 4096
mask_by_4096 x h = omega (arith, bit_and_field 52 12 x)
