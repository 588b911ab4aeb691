-- ===== src/Memory/Words.antt =====
-- Words of eight bytes in memory: reading one back, and what a write to one leaves alone.
use quin_kernel_template.Base.{
  ℕ, ◌+◌, ◌-◌, ◌/◌, ◌%◌, ◌^◌, ◌≤◌, ◌<◌, ◌≡◌, sym, ◌∙◌, ◌⊎◌, false, arith,
}
use quin_kernel_template.Memory.{Memory, load, load64, store64, within}

load_written : (m : Memory) (a v k : ℕ) → k < 8 → load (store64 m a v) (a + k) ≡ v / 256 ^ k % 256
unfolding load store64
load_written m a v k h = let e : a + k - a ≡ k = omega arith in rw e (ground arith)

load_first : (m : Memory) (a v : ℕ) → load (store64 m a v) a ≡ v % 256
unfolding load store64
load_first m a v = ground arith

pub load-store64_away :
    (m : Memory) (a v b : ℕ) → within a 8 b ≡ false → load (store64 m a v) b ≡ load m b
unfolding load store64
load-store64_away m a v b h = rw h

-- The word that was written is read back.
pub load64-store64 : (m : Memory) (a v : ℕ) → v < 2 ^ 64 → load64 (store64 m a v) a ≡ v
unfolding load64
load64-store64 m a v h = omega (
  arith,
  load_first m a v,
  load_written m a v 1 (omega arith),
  load_written m a v 2 (omega arith),
  load_written m a v 3 (omega arith),
  load_written m a v 4 (omega arith),
  load_written m a v 5 (omega arith),
  load_written m a v 6 (omega arith),
  load_written m a v 7 (omega arith),
)

-- A word is its eight bytes.
pub load64_ext :
    (m m' : Memory) (a : ℕ)
    → ((k : ℕ) → k < 8 → load m (a + k) ≡ load m' (a + k))
    → load64 m a ≡ load64 m' a
unfolding load64
load64_ext m m' a h =
    let first : load m a ≡ load m' a =
      let e : a + 0 ≡ a = omega arith in rw e at (h 0 (omega arith)) in
    omega (
      arith,
      h 1 (omega arith),
      h 2 (omega arith),
      h 3 (omega arith),
      h 4 (omega arith),
      h 5 (omega arith),
      h 6 (omega arith),
      h 7 (omega arith),
    )

-- A word whose bytes the write does not reach.
pub load64-store64_away :
    (m : Memory) (a v b : ℕ) → (a + 8 ≤ b) ⊎ (b + 8 ≤ a) → load64 (store64 m a v) b ≡ load64 m b
load64-store64_away m a v b apart =
    load64_ext (store64 m a v) m b λ k lt. load-store64_away m a v (b + k) (ground arith)

pub load64-lt : (m : Memory) (a : ℕ) → load64 m a < 2 ^ 64
unfolding load64 load
load64-lt m a = omega arith

nothing : (b : ℕ) → load (λ _. 0) b ≡ 0
unfolding load
nothing b = omega arith

nothing64 : (b : ℕ) → load64 (λ _. 0) b ≡ 0
unfolding load64 load
nothing64 b = omega arith

pub load64-zero : (m : Memory) (a : ℕ) → ((k : ℕ) → k < 8 → load m (a + k) ≡ 0) → load64 m a ≡ 0
load64-zero m a h = load64_ext m (λ _. 0) a (λ k lt. h k lt ∙ sym (nothing (a + k))) ∙ nothing64 a
