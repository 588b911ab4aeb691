-- ===== src/Memory.antt =====
-- Byte-addressed memory as the C code sees it: addresses are numbers, and a cell holds a byte.
pub mod Words
use quin_kernel_template.Base.{
  ℕ, ◌≡◌, ◌+◌, ◌-◌, ◌*◌, ◌/◌, ◌%◌, ◌^◌, Bool, arith, u8, ltb, leb, ◌==◌, ◌&&◌, if◌then◌else◌,
}

abbrev pub Memory : Type 0
Memory = ℕ → ℕ

-- `*(uint8_t *)a`
unfoldable pub load : Memory → ℕ → ℕ
load m a = u8 (m a)

-- `*(uint8_t *)a = v`
unfoldable pub store : Memory → ℕ → ℕ → Memory
store m a v b = if b == a then v else m b

pub load-store :
    (m : Memory) (a v b : ℕ) → load (store m a v) b ≡ (if b == a then u8 v else load m b)
unfolding load store
load-store m a v b = ground arith

pub u8-load : (m : Memory) (a : ℕ) → u8 (load m a) ≡ load m a
unfolding load
u8-load m a = omega arith

-- `a` lies in the `n` bytes from `start` on.
abbrev pub within : ℕ → ℕ → ℕ → Bool
within start n a = leb start a && ltb a (start + n)

-- `*(uint64_t *)a`, the low byte first, and `*(uint64_t *)a = v`.
unfoldable pub load64 : Memory → ℕ → ℕ
unfolding load
load64 m a =
    load m a
    + load m (a + 1) * 2 ^ 8
    + load m (a + 2) * 2 ^ 16
    + load m (a + 3) * 2 ^ 24
    + load m (a + 4) * 2 ^ 32
    + load m (a + 5) * 2 ^ 40
    + load m (a + 6) * 2 ^ 48
    + load m (a + 7) * 2 ^ 56

unfoldable pub store64 : Memory → ℕ → ℕ → Memory
store64 m a v b = if within a 8 b then v / 256 ^ (b - a) % 256 else m b
