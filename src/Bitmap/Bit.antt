-- ===== src/Bitmap/Bit.antt =====
-- Setting, clearing and testing a bit.
use quin_kernel_template.Base.{
  ℕ, ◌+◌, ◌/◌, ◌%◌, ◌<◌, ◌≡◌, ◌≢◌, refl, Bool, true, false, arith, bit_and, bit_or, u8, not32,
  ◌<<<◌, ◌==◌, ◌&&◌, ◌||◌, not, if◌then◌else◌,
}
use quin_kernel_template.Base.Table.{holds_to, holds_to_at}
use quin_kernel_template.Memory.{Memory, load, load-store}
use quin_kernel_template.Bitmap.{bitmap_set, bitmap_clear, bitmap_test}

-- The three operations on one byte.
byte_test : ℕ → ℕ → Bool
byte_test b i = not (bit_and b (u8 (1 <<< i)) == 0)

byte_set : ℕ → ℕ → ℕ
byte_set b i = u8 (bit_or b (u8 (1 <<< i)))

byte_clear : ℕ → ℕ → ℕ
byte_clear b i = u8 (bit_and b (u8 (not32 (1 <<< i))))

-- Equality of truth values, for the table.
abbrev same : Bool → Bool → Bool
same true y = y
same false y = not y

same_sound : (x y : Bool) → same x y ≡ true → x ≡ y
same_sound true y h = ground arith
same_sound false y h = ground arith

cell : ℕ → ℕ → ℕ → Bool
cell b i j =
    same (byte_test (byte_set b i) j) (i == j || byte_test b j)
    && same (byte_test (byte_clear b i) j) (not (i == j) && byte_test b j)

row : ℕ → ℕ → Bool
unfolding holds_to
row b i = holds_to 8 (cell b i)

bit_table : holds_to 256 (λ b. holds_to 8 (row b)) ≡ true
unfolding row cell byte_test byte_set byte_clear
bit_table = refl

cell_sound :
    (b i j : ℕ)
    → cell b i j ≡ true
    → (byte_test (byte_set b i) j ≡ (i == j || byte_test b j))
      × (byte_test (byte_clear b i) j ≡ (not (i == j) && byte_test b j))
unfolding cell
cell_sound b i j h = (ground arith, ground arith)

byte_bits :
    (b i j : ℕ)
    → b < 256
    → i < 8
    → j < 8
    → (byte_test (byte_set b i) j ≡ (i == j || byte_test b j))
      × (byte_test (byte_clear b i) j ≡ (not (i == j) && byte_test b j))
byte_bits b i j hb hi hj =
    let t : holds_to 8 (row b) ≡ true = holds_to_at 256 (λ b. holds_to 8 (row b)) b bit_table hb in
    let u : holds_to 8 (cell b i) ≡ true = unfold row in holds_to_at 8 (row b) i t hi in
    let v : cell b i j ≡ true = holds_to_at 8 (cell b i) j u hj in cell_sound b i j v

byte_load : (m : Memory) (a : ℕ) → load m a < 256
unfolding load
byte_load m a = omega arith

test_as_byte :
    (m : Memory) (bitmap i : ℕ)
    → bitmap_test m bitmap i ≡ byte_test (load m (bitmap + i / 8)) (i % 8)
unfolding bitmap_test byte_test
test_as_byte m bitmap i = refl

set_as_byte :
    (m : Memory) (bitmap i a : ℕ)
    → load (bitmap_set m bitmap i) a
      ≡ (if a == bitmap + i / 8 then byte_set (load m (bitmap + i / 8)) (i % 8) else load m a)
unfolding bitmap_set byte_set
set_as_byte m bitmap i a = load-store m _ _ a

clear_as_byte :
    (m : Memory) (bitmap i a : ℕ)
    → load (bitmap_clear m bitmap i) a
      ≡ (if a == bitmap + i / 8 then byte_clear (load m (bitmap + i / 8)) (i % 8) else load m a)
unfolding bitmap_clear byte_clear
clear_as_byte m bitmap i a = load-store m _ _ a

-- After `bitmap_set` of bit `i`, bit `i` tests true and every other bit tests as before.
pub test-set :
    (m : Memory) (bitmap i j : ℕ)
    → bitmap_test (bitmap_set m bitmap i) bitmap j ≡ (i == j || bitmap_test m bitmap j)
test-set m bitmap i j = ground (
  arith,
  test_as_byte (bitmap_set m bitmap i) bitmap j,
  test_as_byte m bitmap j,
  set_as_byte m bitmap i (bitmap + j / 8),
  byte_load m (bitmap + i / 8),
  byte_bits (load m (bitmap + i / 8)) (i % 8) (j % 8),
)

-- After `bitmap_clear` of bit `i`, bit `i` tests false and every other bit tests as before.
pub test-clear :
    (m : Memory) (bitmap i j : ℕ)
    → bitmap_test (bitmap_clear m bitmap i) bitmap j ≡ (not (i == j) && bitmap_test m bitmap j)
test-clear m bitmap i j = ground (
  arith,
  test_as_byte (bitmap_clear m bitmap i) bitmap j,
  test_as_byte m bitmap j,
  clear_as_byte m bitmap i (bitmap + j / 8),
  byte_load m (bitmap + i / 8),
  byte_bits (load m (bitmap + i / 8)) (i % 8) (j % 8),
)

-- Neither touches a byte other than the one that holds the bit.
pub load-set_away :
    (m : Memory) (bitmap i a : ℕ) → a ≢ bitmap + i / 8 → load (bitmap_set m bitmap i) a ≡ load m a
load-set_away m bitmap i a away = ground (arith, set_as_byte m bitmap i a)

pub load-clear_away :
    (m : Memory) (bitmap i a : ℕ) → a ≢ bitmap + i / 8 → load (bitmap_clear m bitmap i) a ≡ load m a
load-clear_away m bitmap i a away = ground (arith, clear_as_byte m bitmap i a)

-- A test reads one byte.
pub test-load :
    (m m' : Memory) (bitmap i : ℕ)
    → load m (bitmap + i / 8) ≡ load m' (bitmap + i / 8)
    → bitmap_test m bitmap i ≡ bitmap_test m' bitmap i
unfolding bitmap_test
test-load m m' bitmap i e = rw e
