-- ===== src/Base/Bits.antt =====
-- Laws of `&` and `|` at variables: masks, disjoint fields, single bits. The native operations are
-- recursions on binary digits, counted by their first argument.
use Prim.Native.Nat.{ℕ, zero, suc, ◌+◌, ◌-◌, ◌*◌, ◌/◌, ◌%◌, ◌^◌, ◌≤◌, ◌<◌, min, max}
use Prim.Native.Nat.{bit_and, bit_or, bit_and-bitwise, bit_or-bitwise, bitwise, digits}
use mathlib.Core.Path.{◌≡◌, refl, ap}
use native.Mathlib.Nat.{pow-suc, one-le-pow}
use native.Mathlib.Omega.{arith}

module _ (z : ℕ → ℕ) (f : ℕ → ℕ → ℕ) where
  -- Digits beyond those of the first number are not looked at.
  surplus : (n m a b : ℕ) → a ≤ n → n ≤ m → digits z f m a b ≡ digits z f n a b
  surplus (suc n) zero a b small le = absurd (omega arith)
  surplus zero zero a b small le = refl
  surplus zero (suc m) zero b small le = refl
  surplus (suc n) (suc m) zero b small le = refl
  surplus zero (suc m) (suc a) b small le = absurd (omega arith)
  surplus (suc n) (suc m) (suc a) b small le =
      ap (λ t. t * 2 + f (suc a % 2) (b % 2))
        (surplus n m (suc a / 2) (b / 2) (omega arith) (omega arith))

  lowest_digit :
      (a b : ℕ) → 0 < a → bitwise z f a b ≡ bitwise z f (a / 2) (b / 2) * 2 + f (a % 2) (b % 2)
  lowest_digit zero b h = absurd (omega arith)
  lowest_digit (suc a) b h =
      ap (λ t. t * 2 + f (suc a % 2) (b % 2))
        (surplus (suc a / 2) a (suc a / 2) (b / 2) (omega arith) (omega arith))

and_digit : (x y : ℕ) → bit_and x y ≡ min (x % 2) (y % 2) + 2 * bit_and (x / 2) (y / 2)
and_digit zero y = simp bit_and-bitwise (omega arith)
and_digit (suc x) y =
    simp bit_and-bitwise (omega (arith, lowest_digit (λ (t : ℕ). 0) min (suc x) y (omega arith)))

pub or_digit : (x y : ℕ) → bit_or x y ≡ max (x % 2) (y % 2) + 2 * bit_or (x / 2) (y / 2)
or_digit zero y = simp bit_or-bitwise (omega arith)
or_digit (suc x) y =
    simp bit_or-bitwise (omega (arith, lowest_digit (λ (t : ℕ). t) max (suc x) y (omega arith)))

and_nothing : (n a : ℕ) → a ≤ n → bit_and a 0 ≡ 0
and_nothing n zero h = omega (arith, and_digit 0 0)
and_nothing zero (suc a) h = absurd (omega arith)
and_nothing (suc n) (suc a) h =
    omega (arith, and_digit (suc a) 0, and_nothing n (suc a / 2) (omega arith))

or_nothing : (n a : ℕ) → a ≤ n → bit_or a 0 ≡ a
or_nothing n zero h = omega (arith, or_digit 0 0)
or_nothing zero (suc a) h = absurd (omega arith)
or_nothing (suc n) (suc a) h =
    omega (arith, or_digit (suc a) 0, or_nothing n (suc a / 2) (omega arith))

pub bit_and-zero : (a : ℕ) → bit_and a 0 ≡ 0
bit_and-zero a = and_nothing a a (omega arith)

pub bit_or-zero : (a : ℕ) → bit_or a 0 ≡ a
bit_or-zero a = or_nothing a a (omega arith)

double_shift : (q k : ℕ) → q * 2 ^ suc k ≡ q * 2 ^ k * 2
double_shift q k = omega (arith, ap (λ (t : ℕ). q * t) (pow-suc 2 k))

and_ones : (k q r : ℕ) → r < 2 ^ k → bit_and (q * 2 ^ k + r) (2 ^ k - 1) ≡ r
and_ones zero q r fits = ground (arith, bit_and-zero (q * 1 + r))
and_ones (suc k) q r fits = ground (
  arith,
  double_shift q k,
  pow-suc 2 k,
  one-le-pow k 2,
  and_digit (q * 2 ^ suc k + r) (2 ^ suc k - 1),
  and_ones k q (r / 2),
)

-- `&` with a mask of the low `k` bits is the remainder by `2 ^ k`.
pub bit_and_low : (k a : ℕ) → bit_and a (2 ^ k - 1) ≡ a % 2 ^ k
bit_and_low k a = ground (arith, one-le-pow k 2, and_ones k (a / 2 ^ k) (a % 2 ^ k))

-- A mask that is shifted by `k` sees nothing of the low `k` bits.
and_shifted : (k a m r : ℕ) → r < 2 ^ k → bit_and (a * 2 ^ k + r) (m * 2 ^ k) ≡ bit_and a m * 2 ^ k
and_shifted zero a m r fits = ground arith
and_shifted (suc k) a m r fits = ground (
  arith,
  double_shift a k,
  double_shift m k,
  double_shift (bit_and a m) k,
  pow-suc 2 k,
  and_digit (a * 2 ^ suc k + r) (m * 2 ^ suc k),
  and_shifted k a m (r / 2),
)

-- `&` with a mask of `j` bits from bit `k` on keeps that field in its place.
pub bit_and_field : (j k a : ℕ) → bit_and a ((2 ^ j - 1) * 2 ^ k) ≡ a / 2 ^ k % 2 ^ j * 2 ^ k
bit_and_field j k a = ground (
  arith,
  one-le-pow k 2,
  and_shifted k (a / 2 ^ k) (2 ^ j - 1) (a % 2 ^ k),
  bit_and_low j (a / 2 ^ k),
)

-- `|` of a shifted number and one that fits below it is their sum.
pub bit_or_disjoint : (k q r : ℕ) → r < 2 ^ k → bit_or (q * 2 ^ k) r ≡ q * 2 ^ k + r
bit_or_disjoint zero q r fits = ground (arith, bit_or-zero q)
bit_or_disjoint (suc k) q r fits =
    ground (
      arith,
      double_shift q k,
      pow-suc 2 k,
      or_digit (q * 2 ^ suc k) r,
      bit_or_disjoint k q (r / 2),
    )

or_comm_below : (n a b : ℕ) → a ≤ n → b ≤ n → bit_or a b ≡ bit_or b a
or_comm_below zero zero zero ha hb = refl
or_comm_below zero zero (suc b) ha hb = absurd (omega arith)
or_comm_below zero (suc a) b ha hb = absurd (omega arith)
or_comm_below (suc n) a b ha hb =
    ground (
      arith,
      or_digit a b,
      or_digit b a,
      or_comm_below n (a / 2) (b / 2) (omega arith) (omega arith),
    )

pub bit_or_comm : (a b : ℕ) → bit_or a b ≡ bit_or b a
bit_or_comm a b = or_comm_below (max a b) a b (ground arith) (ground arith)

-- `|` works on the low `k` bits and on those above them apart.
pub bit_or_fields :
    (k p q r t : ℕ)
    → r < 2 ^ k
    → t < 2 ^ k
    → bit_or (p * 2 ^ k + r) (q * 2 ^ k + t) ≡ bit_or p q * 2 ^ k + bit_or r t
bit_or_fields zero p q r t hr ht = ground (arith, bit_or-zero 0)
bit_or_fields (suc k) p q r t hr ht = ground (
  arith,
  double_shift p k,
  double_shift q k,
  double_shift (bit_or p q) k,
  pow-suc 2 k,
  or_digit (p * 2 ^ suc k + r) (q * 2 ^ suc k + t),
  or_digit r t,
  bit_or_fields k p q (r / 2) (t / 2),
)
