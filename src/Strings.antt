-- ===== src/Strings.antt =====
-- kernel/lib/string.c over byte-addressed memory. A loop on an index recurs on the rounds left; the
-- two loops that only a NUL byte ends take fuel, and `none` means that it ran out.
pub mod Copy
pub mod Compare
mod Tests
use quin_kernel_template.Base.{
  ℕ, zero, suc, ◌+◌, Bool, Option, none, some, u8, ltb, ◌==◌, ◌&&◌, ◌||◌, not, if◌then◌else◌,
}
use quin_kernel_template.Base.Int.{ℤ, pos, sub_ℕ}
use quin_kernel_template.Memory.{Memory, load, store}

-- for (i; i < n; i++) d[i] = s[i], with `left` rounds to go.
pub copy_up : (m : Memory) (d s left i : ℕ) → Memory
copy_up m d s zero i = m
copy_up m d s (suc left) i = copy_up (store m (d + i) (load m (s + i))) d s left (i + 1)

-- for (i = n; i > 0; i--) d[i - 1] = s[i - 1]
pub copy_down : (m : Memory) (d s i : ℕ) → Memory
copy_down m d s zero = m
copy_down m d s (suc i) = copy_down (store m (d + i) (load m (s + i))) d s i

unfoldable pub memcpy : (m : Memory) (dest src n : ℕ) → Memory
unfolding copy_up
memcpy m dest src n = copy_up m dest src n 0

pub fill : (m : Memory) (d byte left i : ℕ) → Memory
fill m d byte zero i = m
fill m d byte (suc left) i = fill (store m (d + i) byte) d byte left (i + 1)

unfoldable pub memset : (m : Memory) (dest value n : ℕ) → Memory
unfolding fill
memset m dest value n = fill m dest (u8 value) n 0

unfoldable pub memmove : (m : Memory) (dest src n : ℕ) → Memory
unfolding copy_up copy_down
memmove m dest src n =
    if dest == src || n == 0
    then m
    else if ltb dest src
    then copy_up m dest src n 0
    else copy_down m dest src n

pub memcmp_loop : (m : Memory) (a b left i : ℕ) → ℤ
memcmp_loop m a b zero i = pos 0
memcmp_loop m a b (suc left) i =
    let rest = memcmp_loop m a b left (i + 1) in
    if not (load m (a + i) == load m (b + i)) then sub_ℕ (load m (a + i)) (load m (b + i)) else rest

unfoldable pub memcmp : (m : Memory) (a b n : ℕ) → ℤ
unfolding memcmp_loop
memcmp m a b n = memcmp_loop m a b n 0

pub strlen_loop : (fuel : ℕ) (m : Memory) (str len : ℕ) → Option ℕ
strlen_loop zero m str len = none
strlen_loop (suc fuel) m str len =
    let rest = strlen_loop fuel m str (len + 1) in
    if not (load m (str + len) == 0) then rest else some len

unfoldable pub strlen : (fuel : ℕ) (m : Memory) (str : ℕ) → Option ℕ
unfolding strlen_loop
strlen fuel m str = strlen_loop fuel m str 0

unfoldable pub strcmp : (fuel : ℕ) (m : Memory) (a b : ℕ) → Option ℤ
strcmp zero m a b = none
strcmp (suc fuel) m a b =
    let rest = strcmp fuel m (a + 1) (b + 1) in
    if not (load m a == 0) && load m a == load m b then rest else some (sub_ℕ (load m a) (load m b))

pub strncmp_loop : (m : Memory) (a b left i : ℕ) → ℤ
strncmp_loop m a b zero i = pos 0
strncmp_loop m a b (suc left) i =
    let rest = strncmp_loop m a b left (i + 1) in
    if not (load m (a + i) == load m (b + i)) || load m (a + i) == 0
    then sub_ℕ (load m (a + i)) (load m (b + i))
    else rest

unfoldable pub strncmp : (m : Memory) (a b n : ℕ) → ℤ
unfolding strncmp_loop
strncmp m a b n = strncmp_loop m a b n 0
