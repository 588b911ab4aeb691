-- ===== src/Bitmap/Tests.antt =====
-- Runs of kernel/lib/bitmap.c, those of tests/unit/test_bitmap.c among them, and its theorems at
-- such inputs.
use quin_kernel_template.Base.{◌%◌, ◌≡◌, refl, arith, ◌==◌, ◌&&◌, ◌||◌, not}
use quin_kernel_template.Memory.{Memory, load, store}
use quin_kernel_template.Bitmap.{bitmap_set, bitmap_clear, bitmap_test, bitmap_find_first_clear}
use quin_kernel_template.Bitmap.Bit.{test-set, test-clear}
use quin_kernel_template.Bitmap.Search.{Found, find_first_clear-Found}

abbrev blank : Memory
blank a = 0

abbrev ones : Memory
ones a = 0xff

set_spans_bytes :
    let m = bitmap_set (bitmap_set (bitmap_set blank 0 0) 0 7) 0 8 in
    (load m 0 ≡ 0x81) × (load m 1 ≡ 1)
unfolding bitmap_set load store
set_spans_bytes = (refl, refl)

finds_the_only_gap : bitmap_find_first_clear (bitmap_clear ones 0 20) 0 32 0 ≡ 20
unfolding bitmap_find_first_clear bitmap_clear bitmap_test load store
finds_the_only_gap = refl

full_returns_count : bitmap_find_first_clear ones 0 32 0 ≡ 32
unfolding bitmap_find_first_clear bitmap_test load
full_returns_count = refl

wraps_past_the_end : bitmap_find_first_clear (bitmap_clear ones 0 3) 0 32 10 ≡ 3
unfolding bitmap_find_first_clear bitmap_clear bitmap_test load store
wraps_past_the_end = refl

hint_beyond_count : bitmap_find_first_clear blank 0 32 37 ≡ 5
unfolding bitmap_find_first_clear bitmap_test load
hint_beyond_count = refl

test-set_example : bitmap_test (bitmap_set blank 64 5) 64 6 ≡ (5 == 6 || bitmap_test blank 64 6)
test-set_example = test-set blank 64 5 6

test-clear_example :
    bitmap_test (bitmap_clear ones 64 5) 64 5 ≡ (not (5 == 5) && bitmap_test ones 64 5)
test-clear_example = test-clear ones 64 5 5

find_first_clear-Found_example :
    Found
      (bitmap_clear ones 0 3)
      0
      32
      (10 % 32)
      0
      (bitmap_find_first_clear (bitmap_clear ones 0 3) 0 32 10)
find_first_clear-Found_example =
    find_first_clear-Found (bitmap_clear ones 0 3) 0 32 10 (omega arith) (omega arith)
