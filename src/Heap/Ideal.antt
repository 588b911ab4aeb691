-- ===== src/Heap/Ideal.antt =====
-- The list of blocks of a heap under first fit and release: neighbours, the other blocks, and both in
-- turn.
use quin_kernel_template.Base.{
  ℕ, ◌+◌, ◌-◌, ◌≡◌, inl, inr, refl, sym, ap, subst, ◌∙◌, arith, Bool, true, false, ◌&&◌, List, [],
  ◌∷◌, leb, ◌==◌, Bool-cases,
}
use quin_kernel_template.Heap.{header_size, min_split_size}
use quin_kernel_template.Heap.Blocks.{
  Block, after, fits, cut, join_next, absorb, ideal_alloc, ideal_free, Separate,
}
use quin_kernel_template.Heap.Merge.{join_next-free, join_next-taken}
use quin_kernel_template.Heap.Release.{released, free_here, free_before, free_past}

-- Whether the first block is free.
abbrev pub free_first : List Block → Bool
free_first [] = false
free_first (b ∷ bs) = b.free

Separate-cons :
    (b : Block) (bs : List Block)
    → (b.free && free_first bs) ≡ false
    → Separate bs
    → Separate (b ∷ bs)
Separate-cons b [] e s = tt
Separate-cons b (c ∷ bs) e s = (e, s)

pub Separate-tail : (b : Block) (bs : List Block) → Separate (b ∷ bs) → Separate bs
Separate-tail b [] s = tt
Separate-tail b (c ∷ bs) s = s.1

pub Separate-head :
    (b : Block) (bs : List Block) → Separate (b ∷ bs) → (b.free && free_first bs) ≡ false
Separate-head b [] s = ground arith
Separate-head b (c ∷ bs) s = s.0

cut-Separate :
    (size : ℕ) (b : Block) (bs : List Block)
    → fits size b ≡ true
    → Separate (b ∷ bs)
    → Separate (cut size b bs)
cut-Separate size b bs hit s =
    elim (Bool-cases (leb (size + header_size + min_split_size) b.size)) [
      | inl e ↦ rw e (
          Separate-cons (record { size = size; free = false })
            (record { size = b.size - size - header_size; free = true } ∷ bs) refl
            (Separate-cons (record { size = b.size - size - header_size; free = true }) bs used
              (Separate-tail b bs s)))
      | inr e ↦
          rw e
            (Separate-cons (record { size = b.size; free = false }) bs refl (Separate-tail b bs s))
    ]
  where
    used : free_first bs ≡ false
    used = ground (arith, Separate-head b bs s)

free_first-alloc :
    (size a : ℕ) (bs : List Block)
    → free_first bs ≡ false
    → free_first (ideal_alloc size a bs).0 ≡ false
unfolding ideal_alloc
free_first-alloc size a [] e = refl
free_first-alloc size a (b ∷ bs) e = ground arith

pub ideal_alloc-Separate :
    (size a : ℕ) (bs : List Block) → Separate bs → Separate (ideal_alloc size a bs).0
unfolding ideal_alloc
ideal_alloc-Separate size a [] s = tt
ideal_alloc-Separate size a (b ∷ bs) s = elim (Bool-cases (fits size b)) [
  | inl e ↦ rw e (cut-Separate size b bs e s)
  | inr e ↦ rw e (
      Separate-cons b (ideal_alloc size (after a b) bs).0
        (elim (Bool-cases b.free) [
          | inl f ↦
              rw (f, free_first-alloc size (after a b) bs (ground (arith, Separate-head b bs s)))
                refl
          | inr f ↦ rw f refl
        ])
        (ideal_alloc-Separate size (after a b) bs (Separate-tail b bs s)))
]

join_next-Separate :
    (b : Block) (bs : List Block) → Separate bs → Separate (join_next (released b) bs)
join_next-Separate b [] s = tt
join_next-Separate b (c ∷ bs) s = elim (Bool-cases c.free) [
  | inl e ↦ subst Separate (sym (join_next-free (released b) c bs e)) (
      Separate-cons (record { size = b.size + (header_size + c.size); free = true }) bs
        (ground (arith, Separate-head c bs s)) (Separate-tail c bs s))
  | inr e ↦ subst Separate (sym (join_next-taken (released b) c bs e)) (rw e refl, s)
]

free_first-join : (b : Block) (bs : List Block) → free_first (join_next (released b) bs) ≡ true
free_first-join b [] = refl
free_first-join b (c ∷ bs) = ground arith

absorb-Separate :
    (b : Block) (bs : List Block) → free_first bs ≡ true → Separate bs → Separate (absorb b bs)
absorb-Separate b [] e s = tt
absorb-Separate b (c ∷ bs) e s =
    Separate-cons (record { size = b.size + (header_size + c.size); free = b.free }) bs
      (ground (arith, Separate-head c bs s)) (Separate-tail c bs s)

free_first-free :
    (target a : ℕ) (bs : List Block)
    → (a == target) ≡ false
    → free_first (ideal_free target a bs) ≡ free_first bs
unfolding ideal_free
free_first-free target a [] e = refl
free_first-free target a (b ∷ bs) e = elim (Bool-cases (after a b == target && b.free)) [
  | inl f ↦
      ap free_first (free_before target a b bs e f)
      ∙ free_first-absorb (ideal_free target (after a b) bs)
  | inr f ↦ ap free_first (free_past target a b bs e f)
]
  where
    free_first-absorb : (l : List Block) → free_first (absorb b l) ≡ b.free
    free_first-absorb [] = refl
    free_first-absorb (c ∷ l) = refl

-- The block before a released one takes it in.
absorb-free-Separate :
    (target a : ℕ) (b : Block) (bs : List Block)
    → (a == target) ≡ true
    → Separate (ideal_free target a bs)
    → Separate (absorb b (ideal_free target a bs))
unfolding ideal_free
absorb-free-Separate target a b [] e s = tt
absorb-free-Separate target a b (c ∷ bs) e s =
    absorb-Separate b (ideal_free target a (c ∷ bs))
      (ap free_first (free_here target a c bs e) ∙ free_first-join c bs) s

pub ideal_free-Separate :
    (target a : ℕ) (bs : List Block) → Separate bs → Separate (ideal_free target a bs)
unfolding ideal_free
ideal_free-Separate target a [] s = tt
ideal_free-Separate target a (b ∷ bs) s = elim (Bool-cases (a == target)) [
  | inl e ↦
      subst Separate (sym (free_here target a b bs e))
        (join_next-Separate b bs (Separate-tail b bs s))
  | inr e ↦ elim (Bool-cases (after a b == target && b.free)) [
    | inl f ↦ subst Separate (sym (free_before target a b bs e f)) (
        absorb-free-Separate target (after a b) b bs (ground arith)
          (ideal_free-Separate target (after a b) bs (Separate-tail b bs s)))
    | inr f ↦ subst Separate (sym (free_past target a b bs e f)) (
        Separate-cons b (ideal_free target (after a b) bs) (apart e f)
          (ideal_free-Separate target (after a b) bs (Separate-tail b bs s)))
  ]
]
  where
    apart :
        (a == target) ≡ false
        → (after a b == target && b.free) ≡ false
        → (b.free && free_first (ideal_free target (after a b) bs)) ≡ false
    apart e f = elim (Bool-cases b.free) [
      | inl g ↦
          rw (g, free_first-free target (after a b) bs (ground arith))
            (ground (arith, Separate-head b bs s))
      | inr g ↦ rw g refl
    ]
