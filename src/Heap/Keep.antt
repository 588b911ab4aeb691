-- ===== src/Heap/Keep.antt =====
-- The blocks that a release keeps, and taking a block and releasing it.
use quin_kernel_template.Base.{
  ℕ, ◌+◌, ◌-◌, ◌≡◌, ◌≢◌, inl, inr, refl, sym, ap, subst, ◌∙◌, arith, true, false, ◌&&◌, List, [],
  ◌∷◌, leb, ◌==◌, Bool-cases, some,
}
use quin_kernel_template.Heap.{header_size, min_split_size}
use quin_kernel_template.Heap.Blocks.{
  Block, after, fits, cut, join_next, absorb, ideal_alloc, ideal_free, block_at, Separate,
}
use quin_kernel_template.Heap.Alloc.{ideal_hit, ideal_skip}
use quin_kernel_template.Heap.Merge.{join_next-free, join_next-taken}
use quin_kernel_template.Heap.Release.{released, free_here, free_before, free_past}
use quin_kernel_template.Heap.Ideal.{free_first, Separate-head, Separate-tail}
use quin_kernel_template.Heap.Contract.{
  alloc_place, block_at_here, block_at_past, block_at_ge, some_free,
}

absorb_keeps :
    (a x : ℕ) (b c : Block) (bs : List Block)
    → block_at x (after a b) bs ≡ some c
    → x ≢ after a b
    → block_at x a (absorb b bs) ≡ some c
unfolding block_at
absorb_keeps a x b c [] there other = ground arith
absorb_keeps a x b c (d ∷ ds) there other =
    block_at_past x a (record { size = b.size + (header_size + d.size); free = b.free }) ds
      (omega (arith, block_at_ge x (after a b) (d ∷ ds) c there))
    ∙ ap (λ (y : ℕ). block_at x y ds) {x = a + header_size + (b.size + (header_size + d.size))}
        {y = after (after a b) d} (omega arith)
    ∙ sym (block_at_past x (after a b) d ds other)
    ∙ there

join_keeps :
    (a x : ℕ) (b c : Block) (bs : List Block)
    → block_at x (after a b) bs ≡ some c
    → c.free ≡ false
    → block_at x a (join_next (released b) bs) ≡ some c
unfolding block_at
join_keeps a x b c [] there used = ground arith
join_keeps a x b c (d ∷ ds) there used = elim (Bool-cases d.free) [
  | inl e ↦
      subst (λ (l : List Block). block_at x a l ≡ some c) (sym (join_next-free (released b) d ds e))
        (absorb_keeps a x (released b) c (d ∷ ds) there (λ same. ground (arith, first same)))
  | inr e ↦
      subst (λ (l : List Block). block_at x a l ≡ some c)
        (sym (join_next-taken (released b) d ds e))
        (block_at_past x a (released b) (d ∷ ds)
            (omega (arith, block_at_ge x (after a b) (d ∷ ds) c there))
          ∙ there)
]
  where
    first : x ≡ after a b → d.free ≡ c.free
    first same = some_free d c (sym (block_at_here x (after a b) d ds same) ∙ there)

-- All other blocks in use stay as they are.
pub free_keeps :
    (target a x : ℕ) (bs : List Block) (c : Block)
    → block_at x a bs ≡ some c
    → c.free ≡ false
    → x ≢ target
    → block_at x a (ideal_free target a bs) ≡ some c
unfolding ideal_free
free_keeps target a x [] c there used other = there
free_keeps target a x (b ∷ bs) c there used other = elim (Bool-cases (a == target)) [
  | inl e ↦
      subst (λ (l : List Block). block_at x a l ≡ some c) (sym (free_here target a b bs e))
        (join_keeps a x b c bs (behind (ground arith)) used)
  | inr e ↦ elim (Bool-cases (after a b == target && b.free)) [
    | inl f ↦
        subst (λ (l : List Block). block_at x a l ≡ some c) (sym (free_before target a b bs e f))
          (absorb_keeps a x b c (ideal_free target (after a b) bs)
            (free_keeps target (after a b) x bs c (behind (λ same. ground (arith, first same))) used
              other)
            (ground arith))
    | inr f ↦
        subst (λ (l : List Block). block_at x a l ≡ some c) (sym (free_past target a b bs e f))
          (elim (Bool-cases (x == a)) [
            | inl same ↦
                block_at_here x a b (ideal_free target (after a b) bs) (ground arith)
                ∙ sym (block_at_here x a b bs (ground arith))
                ∙ there
            | inr apart ↦
                block_at_past x a b (ideal_free target (after a b) bs) (ground arith)
                ∙ free_keeps target (after a b) x bs c (behind (ground arith)) used other
          ])
  ]
]
  where
    behind : x ≢ a → block_at x (after a b) bs ≡ some c
    behind apart = sym (block_at_past x a b bs apart) ∙ there

    first : x ≡ a → b.free ≡ c.free
    first same = some_free b c (sym (block_at_here x a b bs same) ∙ there)

-- Only a free block is taken, so what is taken at the start was free.
alloc_first :
    (size a : ℕ) (bs : List Block)
    → (ideal_alloc size a bs).1 ≡ a + header_size
    → free_first bs ≡ true
unfolding ideal_alloc
alloc_first size a [] e = absurd (omega arith)
alloc_first size a (b ∷ bs) e = ground (arith, alloc_place size (after a b) bs)

cut_back :
    (size a : ℕ) (b : Block) (bs : List Block)
    → fits size b ≡ true
    → (b.free && free_first bs) ≡ false
    → ideal_free a a (cut size b bs) ≡ b ∷ bs
cut_back size a b bs hit apart =
    elim (Bool-cases (leb (size + header_size + min_split_size) b.size)) [
      | inl e ↦ rw e (
          free_here a a (record { size = size; free = false })
            (record { size = b.size - size - header_size; free = true } ∷ bs) (ground arith)
          ∙ ap (λ (c : Block). c ∷ bs)
              {x = record {
                size = size + (header_size + (b.size - size - header_size));
                free = true;
              }}
              {y = b} (ground arith))
      | inr e ↦ rw e (
          free_here a a (record { size = b.size; free = false }) bs (ground arith)
          ∙ join_none bs (ground arith))
    ]
  where
    join_none :
        (l : List Block)
        → free_first l ≡ false
        → join_next (record { size = b.size; free = true }) l ≡ b ∷ l
    join_none [] e =
        ap (λ (c : Block). c ∷ []) {x = record { size = b.size; free = true }} (ground arith)
    join_none (c ∷ l) e =
        join_next-taken (record { size = b.size; free = true }) c l e
        ∙ ap (λ (d : Block). d ∷ c ∷ l) {x = record { size = b.size; free = true }} (ground arith)

-- Releasing what has been taken gives the list back.
pub alloc_free :
    (size a : ℕ) (bs : List Block)
    → Separate bs
    → (ideal_alloc size a bs).1 ≢ 0
    → ideal_free ((ideal_alloc size a bs).1 - header_size) a (ideal_alloc size a bs).0 ≡ bs
unfolding ideal_alloc
alloc_free size a [] s found = absurd (found refl)
alloc_free size a (b ∷ bs) s found = elim (Bool-cases (fits size b)) [
  | inl e ↦
      subst (λ (r : List Block × ℕ). ideal_free (r.1 - header_size) a r.0 ≡ b ∷ bs)
        (sym (ideal_hit size a b bs e))
        (ap (λ (x : ℕ). ideal_free x a (cut size b bs)) {x = a + header_size - header_size} {y = a}
            (omega arith)
          ∙ cut_back size a b bs e (Separate-head b bs s))
  | inr e ↦
      subst (λ (r : List Block × ℕ). r.1 ≢ 0 → ideal_free (r.1 - header_size) a r.0 ≡ b ∷ bs)
        (sym (ideal_skip size a b bs e))
        (λ some_place.
          free_past ((ideal_alloc size (after a b) bs).1 - header_size) a b
            (ideal_alloc size (after a b) bs).0 (ground (arith, alloc_place size (after a b) bs))
            (apart some_place)
          ∙ ap (λ (l : List Block). b ∷ l)
              (alloc_free size (after a b) bs (Separate-tail b bs s) some_place))
        found
]
  where
    apart :
        (ideal_alloc size (after a b) bs).1 ≢ 0
        → (after a b == (ideal_alloc size (after a b) bs).1 - header_size && b.free) ≡ false
    apart some_place = ground (
      arith,
      Separate-head b bs s,
      alloc_place size (after a b) bs,
      alloc_first size (after a b) bs,
    )
