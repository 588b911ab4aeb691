-- ===== src/Bitmap.antt =====
-- kernel/lib/bitmap.c: a bit array over bytes of memory that the caller owns. A bitmap is the
-- address of its first byte.
pub mod Bit
pub mod Search
mod Tests
use quin_kernel_template.Base.{
  ℕ, zero, suc, ◌+◌, ◌/◌, ◌%◌, Bool, bit_and, bit_or, u8, u64, not32, ◌<<<◌, ◌==◌, not,
  if◌then◌else◌,
}
use quin_kernel_template.Memory.{Memory, load, store}

unfoldable pub bitmap_set : Memory → ℕ → ℕ → Memory
bitmap_set m bitmap bit =
    store m (bitmap + bit / 8) (bit_or (load m (bitmap + bit / 8)) (u8 (1 <<< (bit % 8))))

unfoldable pub bitmap_clear : Memory → ℕ → ℕ → Memory
bitmap_clear m bitmap bit =
    store m (bitmap + bit / 8) (bit_and (load m (bitmap + bit / 8)) (u8 (not32 (1 <<< (bit % 8)))))

unfoldable pub bitmap_test : Memory → ℕ → ℕ → Bool
bitmap_test m bitmap bit = not (bit_and (load m (bitmap + bit / 8)) (u8 (1 <<< (bit % 8))) == 0)

-- The loop at `offset`, with `left` rounds to go.
find_loop : (m : Memory) (bitmap bit_count start left offset : ℕ) → ℕ
find_loop m bitmap bit_count start zero offset = bit_count
find_loop m bitmap bit_count start (suc left) offset =
    let bit = u64 (start + offset) % bit_count in
    let rest = find_loop m bitmap bit_count start left (offset + 1) in
    if not (bitmap_test m bitmap bit) then bit else rest

unfoldable pub bitmap_find_first_clear : Memory → ℕ → ℕ → ℕ → ℕ
unfolding find_loop
bitmap_find_first_clear m bitmap bit_count start_hint =
    if bit_count == 0 then 0 else find_loop m bitmap bit_count (start_hint % bit_count) bit_count 0
