-- ===== src/Strings/Copy.antt =====
-- What the copying and filling functions of kernel/lib/string.c leave at each address.
use quin_kernel_template.Base.{ℕ, zero, suc, ◌+◌, ◌-◌, ◌≤◌, ◌≡◌, ◌⊎◌, arith, u8, if◌then◌else◌}
use quin_kernel_template.Memory.{Memory, load, store, load-store, u8-load, within}
use quin_kernel_template.Strings.{copy_up, copy_down, fill, memcpy, memset, memmove}

copy_up_lem :
    (m : Memory) (d s left i a : ℕ)
    → (d ≤ s) ⊎ (s + (i + left) ≤ d)
    → load (copy_up m d s left i) a
      ≡ (if within (d + i) left a then load m (s + (a - d)) else load m a)
unfolding copy_up
copy_up_lem m d s zero i a apart = ground arith
copy_up_lem m d s (suc left) i a apart = ground (
  arith,
  copy_up_lem (store m (d + i) (load m (s + i))) d s left (i + 1) a,
  load-store m (d + i) (load m (s + i)) a,
  load-store m (d + i) (load m (s + i)) (s + (a - d)),
  u8-load m (s + i),
)

copy_down_lem :
    (m : Memory) (d s i a : ℕ)
    → s ≤ d
    → load (copy_down m d s i) a ≡ (if within d i a then load m (s + (a - d)) else load m a)
unfolding copy_down
copy_down_lem m d s zero a le = ground arith
copy_down_lem m d s (suc i) a le = ground (
  arith,
  copy_down_lem (store m (d + i) (load m (s + i))) d s i a,
  load-store m (d + i) (load m (s + i)) a,
  load-store m (d + i) (load m (s + i)) (s + (a - d)),
  u8-load m (s + i),
)

fill_lem :
    (m : Memory) (d byte left i a : ℕ)
    → load (fill m d byte left i) a ≡ (if within (d + i) left a then u8 byte else load m a)
unfolding fill
fill_lem m d byte zero i a = ground arith
fill_lem m d byte (suc left) i a =
    ground
      (arith, fill_lem (store m (d + i) byte) d byte left (i + 1) a, load-store m (d + i) byte a)

-- `memset` writes the low byte of its value to each of the `n` bytes from `dest` on, and to no other.
pub memset_lem :
    (m : Memory) (dest value n a : ℕ)
    → load (memset m dest value n) a ≡ (if within dest n a then u8 value else load m a)
unfolding memset
memset_lem m dest value n a = ground (arith, fill_lem m dest (u8 value) n 0 a)

-- `memcpy` of ranges that do not overlap, or whose destination starts no later than the source,
-- copies the source as it was, and changes no byte outside the destination.
memcpy_lem :
    (m : Memory) (dest src n a : ℕ)
    → (dest ≤ src) ⊎ (src + n ≤ dest)
    → load (memcpy m dest src n) a
      ≡ (if within dest n a then load m (src + (a - dest)) else load m a)
unfolding memcpy
memcpy_lem m dest src n a apart = ground (arith, copy_up_lem m dest src n 0 a)

-- `memmove` copies the source as it was before the call, however the two ranges overlap, and
-- changes no byte outside the destination.
pub memmove_lem :
    (m : Memory) (dest src n a : ℕ)
    → load (memmove m dest src n) a
      ≡ (if within dest n a then load m (src + (a - dest)) else load m a)
unfolding memmove
memmove_lem m dest src n a =
    ground (arith, copy_up_lem m dest src n 0 a, copy_down_lem m dest src n a)
