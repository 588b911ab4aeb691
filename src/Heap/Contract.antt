-- ===== src/Heap/Contract.antt =====
-- What the users of a heap, as a list of blocks, can rely on: the block that they get, all others, and
-- both operations in turn.
use quin_kernel_template.Base.{
  ℕ, ◌+◌, ◌-◌, ◌≤◌, ◌≡◌, ◌≢◌, ◌⊎◌, ◌↔◌, inl, inr, refl, sym, ap, subst, ◌∙◌, arith, Bool, true,
  false, ◌||◌, List, [], ◌∷◌, leb, ◌==◌, Bool-cases, Option, some, none,
}
use quin_kernel_template.Heap.{header_size, min_split_size}
use quin_kernel_template.Heap.Blocks.{Block, after, fits, cut, ideal_alloc, block_at}
use quin_kernel_template.Heap.Alloc.{ideal_hit, ideal_skip}

-- Whether a block is free and large enough.
unfoldable pub any_fits : (size : ℕ) → List Block → Bool
any_fits size [] = false
any_fits size (b ∷ bs) = fits size b || any_fits size bs

-- The memory of the taken block begins behind a header, at the first block or later.
pub alloc_place :
    (size a : ℕ) (bs : List Block)
    → ((ideal_alloc size a bs).1 ≡ 0) ⊎ (a + header_size ≤ (ideal_alloc size a bs).1)
unfolding ideal_alloc
alloc_place size a [] = inl refl
alloc_place size a (b ∷ bs) = ground (arith, alloc_place size (after a b) bs)

-- First fit finds a block unless there is none.
pub alloc_none :
    (size a : ℕ) (bs : List Block) → ((ideal_alloc size a bs).1 ≡ 0) ↔ (any_fits size bs ≡ false)
unfolding ideal_alloc any_fits
alloc_none size a [] = ((λ e. refl), (λ e. refl))
alloc_none size a (b ∷ bs) = ground (arith, alloc_none size (after a b) bs)

pub block_at_here : (x a : ℕ) (b : Block) (bs : List Block) → x ≡ a → block_at x a (b ∷ bs) ≡ some b
unfolding block_at
block_at_here x a b bs e = ground arith

pub block_at_past :
    (x a : ℕ) (b : Block) (bs : List Block)
    → x ≢ a
    → block_at x a (b ∷ bs) ≡ block_at x (after a b) bs
unfolding block_at
block_at_past x a b bs e = ground arith

-- A block of the list begins at the first one or behind it.
pub block_at_ge : (x a : ℕ) (bs : List Block) (b : Block) → block_at x a bs ≡ some b → a ≤ x
unfolding block_at
block_at_ge x a [] b e = ground arith
block_at_ge x a (c ∷ bs) b e = ground (arith, block_at_ge x (after a c) bs b)

-- What first fit gives, in terms of its result.
abbrev WasFree : (size a : ℕ) → List Block → List Block × ℕ → Type 0
WasFree size a bs r =
    r.1 ≢ 0 → (b : Block) × (block_at (r.1 - header_size) a bs ≡ some b) × (fits size b ≡ true)

abbrev IsTaken : (size a : ℕ) → List Block × ℕ → Type 0
IsTaken size a r =
    r.1 ≢ 0
    → (b : Block) × (block_at (r.1 - header_size) a r.0 ≡ some b)
      × (b.free ≡ false)
      × (size ≤ b.size)

-- The taken block was free and large enough.
pub alloc-WasFree : (size a : ℕ) (bs : List Block) → WasFree size a bs (ideal_alloc size a bs)
unfolding ideal_alloc
alloc-WasFree size a [] = λ found. absurd (found refl)
alloc-WasFree size a (b ∷ bs) = elim (Bool-cases (fits size b)) [
  | inl e ↦
      subst (WasFree size a (b ∷ bs)) (sym (ideal_hit size a b bs e))
        (λ found. (b, block_at_here (a + header_size - header_size) a b bs (omega arith), e))
  | inr e ↦ subst (WasFree size a (b ∷ bs)) (sym (ideal_skip size a b bs e)) (λ found.
      let ih = alloc-WasFree size (after a b) bs found in
      (
        ih.0,
        block_at_past ((ideal_alloc size (after a b) bs).1 - header_size) a b bs
              (omega (arith, alloc_place size (after a b) bs))
            ∙ ih.1,
        ih.2,
      ))
]

cut_taken :
    (size a : ℕ) (b : Block) (bs : List Block)
    → fits size b ≡ true
    → (c : Block) × (block_at a a (cut size b bs) ≡ some c) × (c.free ≡ false) × (size ≤ c.size)
cut_taken size a b bs hit = elim (Bool-cases (leb (size + header_size + min_split_size) b.size)) [
  | inl e ↦ rw e (
    record { size = size; free = false },
    block_at_here a a (record { size = size; free = false })
        (record { size = b.size - size - header_size; free = true } ∷ bs) refl,
    refl,
    omega arith,
  )
  | inr e ↦ rw e (
    record { size = b.size; free = false },
    block_at_here a a (record { size = b.size; free = false }) bs refl,
    refl,
    ground arith,
  )
]

-- It is in use afterwards, and still large enough.
pub alloc-IsTaken : (size a : ℕ) (bs : List Block) → IsTaken size a (ideal_alloc size a bs)
unfolding ideal_alloc
alloc-IsTaken size a [] = λ found. absurd (found refl)
alloc-IsTaken size a (b ∷ bs) = elim (Bool-cases (fits size b)) [
  | inl e ↦ subst (IsTaken size a) (sym (ideal_hit size a b bs e)) (λ found.
      subst
        (λ (x : ℕ).
          (c : Block) × (block_at x a (cut size b bs) ≡ some c)
          × (c.free ≡ false)
          × (size ≤ c.size))
        {x = a} {y = a + header_size - header_size} (omega arith) (cut_taken size a b bs e))
  | inr e ↦ subst (IsTaken size a) (sym (ideal_skip size a b bs e)) (λ found.
      let ih = alloc-IsTaken size (after a b) bs found in
      (
        ih.0,
        block_at_past ((ideal_alloc size (after a b) bs).1 - header_size) a b
              (ideal_alloc size (after a b) bs).0 (omega (arith, alloc_place size (after a b) bs))
            ∙ ih.1,
        ih.2,
        ih.3,
      ))
]

cut_keeps :
    (size a x : ℕ) (b c : Block) (bs : List Block)
    → fits size b ≡ true
    → block_at x (after a b) bs ≡ some c
    → block_at x a (cut size b bs) ≡ some c
cut_keeps size a x b c bs hit there =
    elim (Bool-cases (leb (size + header_size + min_split_size) b.size)) [
      | inl e ↦ rw e (
          block_at_past x a (record { size = size; free = false })
            (record { size = b.size - size - header_size; free = true } ∷ bs)
            (omega (arith, block_at_ge x (after a b) bs c there))
          ∙ block_at_past x (a + header_size + size)
              (record { size = b.size - size - header_size; free = true }) bs
              (ground (arith, block_at_ge x (after a b) bs c there))
          ∙ ap (λ (y : ℕ). block_at x y bs)
              {x = a + header_size + size + header_size + (b.size - size - header_size)}
              {y = after a b} (ground arith)
          ∙ there)
      | inr e ↦ rw e (
          block_at_past x a (record { size = b.size; free = false }) bs
            (omega (arith, block_at_ge x (after a b) bs c there))
          ∙ there)
    ]

pub some_free : (b c : Block) → some b ≡ some c → b.free ≡ c.free
some_free b c e = ap (λ (o : Option Block). elim o [ some d ↦ d.free | none ↦ true ]) e

-- All blocks in use stay as they are.
pub alloc_keeps :
    (size a x : ℕ) (bs : List Block) (c : Block)
    → block_at x a bs ≡ some c
    → c.free ≡ false
    → block_at x a (ideal_alloc size a bs).0 ≡ some c
unfolding ideal_alloc
alloc_keeps size a x [] c there used = there
alloc_keeps size a x (b ∷ bs) c there used = elim (Bool-cases (fits size b)) [
  | inl e ↦
      subst (λ (r : List Block × ℕ). block_at x a r.0 ≡ some c) (sym (ideal_hit size a b bs e))
        (cut_keeps size a x b c bs e (behind (λ same. ground (arith, first same))))
  | inr e ↦
      subst (λ (r : List Block × ℕ). block_at x a r.0 ≡ some c) (sym (ideal_skip size a b bs e))
        (elim (Bool-cases (x == a)) [
          | inl same ↦
              block_at_here x a b (ideal_alloc size (after a b) bs).0 (ground arith)
              ∙ sym (block_at_here x a b bs (ground arith))
              ∙ there
          | inr other ↦
              block_at_past x a b (ideal_alloc size (after a b) bs).0 (ground arith)
              ∙ alloc_keeps size (after a b) x bs c (behind (ground arith)) used
        ])
]
  where
    behind : x ≢ a → block_at x (after a b) bs ≡ some c
    behind other = sym (block_at_past x a b bs other) ∙ there

    first : x ≡ a → b.free ≡ c.free
    first same = some_free b c (sym (block_at_here x a b bs same) ∙ there)
