-- ===== src/Bitmap/Search.antt =====
-- `bitmap_find_first_clear` against its description: the first clear bit in cyclic order from the
-- hint, and the bit count when there is none.
use native.Mathlib.Nat.{mod-lt, mod-eq_of_lt}
use native.Mathlib.Decide.{dec_lt}
use quin_kernel_template.Base.{
  ℕ, zero, suc, ◌+◌, ◌-◌, ◌%◌, ◌^◌, ◌≤◌, ◌<◌, ◌≡◌, refl, true, false, arith, u64, ◌==◌, inl, inr,
  Bool-cases,
}
use quin_kernel_template.Memory.{Memory}
use quin_kernel_template.Bitmap.{bitmap_test, find_loop, bitmap_find_first_clear}

-- Bit `(start + offset) % count` is set, for each offset from `lo` up to `hi`.
abbrev pub SetBetween : Memory → (bitmap count start lo hi : ℕ) → Type 0
SetBetween m bitmap count start lo hi =
    (o : ℕ) → lo ≤ o → o < hi → bitmap_test m bitmap ((start + o) % count) ≡ true

-- Every index is met, going round from `start`.
cyclic :
    (b start count : ℕ)
    → b < count
    → start < count
    → (start + (b + count - start) % count) % count ≡ b
cyclic b start count hb hs = elim (dec_lt b start) [
  | yes lt ↦
      let inner : (b + count - start) % count ≡ b + count - start = mod-eq_of_lt (omega arith) in
      let sum : start + (b + count - start) ≡ b + count = omega arith in
      rw (inner, sum) (grind arith)
  | no ge ↦
      let split : b + count - start ≡ b - start + count = omega arith in
      let inner : (b - start + count) % count ≡ b - start = grind arith in
      let sum : start + (b - start) ≡ b = omega arith in rw (split, inner, sum) (mod-eq_of_lt hb)
]

-- What a search returns: the clear bit at the least offset, or the count when all bits are set.
pub data Found (m : Memory) (bitmap count start lo : ℕ) : ℕ → Type 0 where
  clear :
      {bit : ℕ} (offset : ℕ)
      → lo ≤ offset
      → offset < count
      → bit ≡ (start + offset) % count
      → bitmap_test m bitmap bit ≡ false
      → SetBetween m bitmap count start lo offset
      → Found m bitmap count start lo bit
  full :
      {bit : ℕ}
      → bit ≡ count
      → SetBetween m bitmap count start lo count
      → Found m bitmap count start lo bit

module _ (m : Memory) (bitmap count start : ℕ) (small : count ≤ 2 ^ 63)
    (in_range : start < count) where
  no_wrap : (o : ℕ) → o < count → u64 (start + o) % count ≡ (start + o) % count
  no_wrap o h = let e : u64 (start + o) ≡ start + o = omega arith in rw e

  extend :
      (lo hi : ℕ)
      → bitmap_test m bitmap ((start + lo) % count) ≡ true
      → SetBetween m bitmap count start (lo + 1) hi
      → SetBetween m bitmap count start lo hi
  extend lo hi h rest o le lt = ground (arith, rest o)

  skip :
      {lo bit : ℕ}
      → bitmap_test m bitmap ((start + lo) % count) ≡ true
      → Found m bitmap count start (lo + 1) bit
      → Found m bitmap count start lo bit
  skip {lo} h (clear o le lt e c before) = clear o (omega arith) lt e c (extend lo o h before)
  skip {lo} h (full e all) = full e (extend lo count h all)

  find_loop-Found :
      (left offset : ℕ)
      → offset + left ≡ count
      → Found m bitmap count start offset (find_loop m bitmap count start left offset)
  unfolding find_loop
  find_loop-Found zero offset e = full refl (λ o lo hi. absurd (omega arith))
  find_loop-Found (suc left) offset e =
      rw (no_wrap offset (omega arith))
        (elim (Bool-cases (bitmap_test m bitmap ((start + offset) % count))) [
          | inl used ↦ rw used (skip used (find_loop-Found left (offset + 1) (omega arith)))
          | inr unused ↦ rw unused (
              clear offset (omega arith) (omega arith) refl unused
                (λ o lo hi. absurd (omega arith)))
        ])

-- `bitmap_find_first_clear` returns the first clear bit in cyclic order from the hint, taken modulo
-- the bit count, or the bit count when every bit is set.
pub find_first_clear-Found :
    (m : Memory) (bitmap count hint : ℕ)
    → 0 < count
    → count ≤ 2 ^ 63
    → Found m bitmap count (hint % count) 0 (bitmap_find_first_clear m bitmap count hint)
unfolding bitmap_find_first_clear
find_first_clear-Found m bitmap count hint pos small =
    let e : (count == 0) ≡ false = ground arith in
    rw e
      (find_loop-Found m bitmap count (hint % count) small (mod-lt hint pos) count 0 (omega arith))

Found-clear :
    {m : Memory} {bitmap count start r : ℕ}
    → Found m bitmap count start 0 r
    → r < count
    → bitmap_test m bitmap r ≡ false
Found-clear (clear o le lt e c before) h = c
Found-clear (full e all) h = absurd (omega arith)

Found-le : {m : Memory} {bitmap count start r : ℕ} → Found m bitmap count start 0 r → r ≤ count
Found-le (clear o le lt e c before) = grind arith
Found-le (full e all) = omega arith

Found-lt :
    {m : Memory} {bitmap count start r : ℕ} (b : ℕ)
    → start < count
    → Found m bitmap count start 0 r
    → b < count
    → bitmap_test m bitmap b ≡ false
    → r < count
Found-lt b s (clear o le lt e c before) h t = grind arith
Found-lt {count} {start} b s (full e all) h t =
    ground (arith, all ((b + count - start) % count), cyclic b start count)

-- The search gives a clear bit below the count whenever there is one, and the count otherwise.
pub find_first_clear_iff :
    (m : Memory) (bitmap count hint : ℕ)
    → 0 < count
    → count ≤ 2 ^ 63
    → let r = bitmap_find_first_clear m bitmap count hint in
      (r ≤ count)
      × (r < count → bitmap_test m bitmap r ≡ false)
      × ((b : ℕ) → b < count → bitmap_test m bitmap b ≡ false → r < count)
find_first_clear_iff m bitmap count hint pos small =
    let found = find_first_clear-Found m bitmap count hint pos small in
    (Found-le found, Found-clear found, λ b. Found-lt b (mod-lt hint pos) found)
