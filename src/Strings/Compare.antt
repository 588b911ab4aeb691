-- ===== src/Strings/Compare.antt =====
-- What the comparing and measuring functions of kernel/lib/string.c return.
use quin_kernel_template.Base.{ℕ, zero, suc, ◌+◌, ◌≤◌, ◌<◌, ◌≡◌, ◌≢◌, ◌⊎◌, refl, some, arith}
use quin_kernel_template.Base.Int.{ℤ, pos, sub_ℕ}
use quin_kernel_template.Memory.{Memory, load}
use quin_kernel_template.Strings.{
  memcmp_loop, memcmp, strlen_loop, strlen, strcmp, strncmp_loop, strncmp,
}

-- The bytes from index `i` up to `k` agree.
abbrev pub Same : Memory → (a b i k : ℕ) → Type 0
Same m a b i k = (j : ℕ) → i ≤ j → j < k → load m (a + j) ≡ load m (b + j)

-- ... and the first string does not end before `k`.
abbrev pub Running : Memory → (a i k : ℕ) → Type 0
Running m a i k = (j : ℕ) → i ≤ j → j < k → load m (a + j) ≢ 0

-- Index `k` is where a comparison of strings stops.
abbrev pub Stops : Memory → (a b k : ℕ) → Type 0
Stops m a b k = (load m (a + k) ≢ load m (b + k)) ⊎ (load m (a + k) ≡ 0)

-- The difference that the C code returns at index `k`.
abbrev pub gap : Memory → (a b k : ℕ) → ℤ
gap m a b k = sub_ℕ (load m (a + k)) (load m (b + k))

memcmp_loop-Same :
    (m : Memory) (a b left i : ℕ) → Same m a b i (i + left) → memcmp_loop m a b left i ≡ pos 0
unfolding memcmp_loop
memcmp_loop-Same m a b zero i same = refl
memcmp_loop-Same m a b (suc left) i same = ground (
  arith,
  same i (omega arith) (omega arith),
  memcmp_loop-Same m a b left (i + 1) (λ j lo hi. same j (omega arith) (omega arith)),
)

memcmp_loop-gap :
    (m : Memory) (a b left i k : ℕ)
    → i ≤ k
    → k < i + left
    → Same m a b i k
    → load m (a + k) ≢ load m (b + k)
    → memcmp_loop m a b left i ≡ gap m a b k
unfolding memcmp_loop
memcmp_loop-gap m a b zero i k lo hi same ne = absurd (omega arith)
memcmp_loop-gap m a b (suc left) i k lo hi same ne = ground (
  arith,
  same i,
  memcmp_loop-gap m a b left (i + 1) k,
  λ (j : ℕ) (p : i + 1 ≤ j) (q : j < k). same j (omega arith) q,
)

-- `memcmp` is 0 when the `n` bytes agree, and otherwise the difference of the first two bytes that
-- differ, as unsigned bytes.
memcmp_lem :
    (m : Memory) (a b n : ℕ)
    → (Same m a b 0 n → memcmp m a b n ≡ pos 0)
      × ((k : ℕ)
          → k < n
          → Same m a b 0 k
          → load m (a + k) ≢ load m (b + k)
          → memcmp m a b n ≡ gap m a b k)
unfolding memcmp
memcmp_lem m a b n = (
  λ same. memcmp_loop-Same m a b n 0 (λ j lo hi. same j lo (omega arith)),
  λ k hi same ne. memcmp_loop-gap m a b n 0 k (omega arith) (omega arith) same ne,
)

strlen_loop_lem :
    (fuel : ℕ) (m : Memory) (str i n : ℕ)
    → i ≤ n
    → n < i + fuel
    → Running m str i n
    → load m (str + n) ≡ 0
    → strlen_loop fuel m str i ≡ some n
unfolding strlen_loop
strlen_loop_lem zero m str i n lo hi run nul = absurd (omega arith)
strlen_loop_lem (suc fuel) m str i n lo hi run nul = ground (
  arith,
  run i,
  strlen_loop_lem fuel m str (i + 1) n,
  λ (j : ℕ) (p : i + 1 ≤ j) (q : j < n). run j (omega arith) q,
)

-- `strlen` returns the index of the first NUL byte, and ends within that many rounds and one more.
strlen_lem :
    (fuel : ℕ) (m : Memory) (str n : ℕ)
    → Running m str 0 n
    → load m (str + n) ≡ 0
    → n < fuel
    → strlen fuel m str ≡ some n
unfolding strlen
strlen_lem fuel m str n run nul enough =
    strlen_loop_lem fuel m str 0 n (omega arith) (omega arith) run nul

strncmp_loop-gap :
    (m : Memory) (a b left i k : ℕ)
    → i ≤ k
    → k < i + left
    → Same m a b i k
    → Running m a i k
    → Stops m a b k
    → strncmp_loop m a b left i ≡ gap m a b k
unfolding strncmp_loop
strncmp_loop-gap m a b zero i k lo hi same run stop = absurd (omega arith)
strncmp_loop-gap m a b (suc left) i k lo hi same run stop = ground (
  arith,
  same i,
  run i,
  strncmp_loop-gap m a b left (i + 1) k,
  λ (j : ℕ) (p : i + 1 ≤ j) (q : j < k). same j (omega arith) q,
  λ (j : ℕ) (p : i + 1 ≤ j) (q : j < k). run j (omega arith) q,
)

strncmp_loop-Same :
    (m : Memory) (a b left i : ℕ)
    → Same m a b i (i + left)
    → Running m a i (i + left)
    → strncmp_loop m a b left i ≡ pos 0
unfolding strncmp_loop
strncmp_loop-Same m a b zero i same run = refl
strncmp_loop-Same m a b (suc left) i same run = ground (
  arith,
  same i (omega arith) (omega arith),
  run i (omega arith) (omega arith),
  strncmp_loop-Same m a b left (i + 1) (λ j lo hi. same j (omega arith) (omega arith))
      (λ j lo hi. run j (omega arith) (omega arith)),
)

-- The pointers of `strcmp` after `i` rounds are `p` and `q`.
strcmp-gap :
    (fuel : ℕ) (m : Memory) (a b i k p q : ℕ)
    → p ≡ a + i
    → q ≡ b + i
    → i ≤ k
    → k < i + fuel
    → Same m a b i k
    → Running m a i k
    → Stops m a b k
    → strcmp fuel m p q ≡ some (gap m a b k)
unfolding strcmp
strcmp-gap zero m a b i k p q ep eq lo hi same run stop = absurd (omega arith)
strcmp-gap (suc fuel) m a b i k p q ep eq lo hi same run stop = ground (
  arith,
  same i,
  run i,
  strcmp-gap fuel m a b (i + 1) k (p + 1) (q + 1),
  λ (j : ℕ) (l : i + 1 ≤ j) (h : j < k). same j (omega arith) h,
  λ (j : ℕ) (l : i + 1 ≤ j) (h : j < k). run j (omega arith) h,
)

-- `strcmp` stops at the first index where the strings differ or the first one ends, and returns the
-- difference of the two bytes there; it ends within that many rounds and one more.
strcmp_lem :
    (fuel : ℕ) (m : Memory) (a b k : ℕ)
    → Same m a b 0 k
    → Running m a 0 k
    → Stops m a b k
    → k < fuel
    → strcmp fuel m a b ≡ some (gap m a b k)
strcmp_lem fuel m a b k same run stop enough =
    strcmp-gap fuel m a b 0 k a b (omega arith) (omega arith) (omega arith) (omega arith) same run
      stop

-- `strncmp` returns what `strcmp` returns when the strings stop within the first `n` bytes, and 0
-- when they run alike for `n` bytes.
strncmp-strcmp :
    (fuel : ℕ) (m : Memory) (a b n k : ℕ)
    → Same m a b 0 k
    → Running m a 0 k
    → Stops m a b k
    → k < fuel
    → ((k < n) → some (strncmp m a b n) ≡ strcmp fuel m a b) × ((n ≤ k) → strncmp m a b n ≡ pos 0)
unfolding strncmp
strncmp-strcmp fuel m a b n k same run stop enough = (
  λ hi. ground (
    arith,
    strcmp_lem fuel m a b k same run stop enough,
    strncmp_loop-gap m a b n 0 k (omega arith) (omega arith) same run stop,
  ),
  λ hi.
      strncmp_loop-Same m a b n 0 (λ j lo h. same j lo (omega arith))
        (λ j lo h. run j lo (omega arith)),
)
