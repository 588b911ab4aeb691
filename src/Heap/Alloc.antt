-- ===== src/Heap/Alloc.antt =====
-- kmalloc on a heap that is known as a list of blocks.
use quin_kernel_template.Base.{
  ℕ, zero, suc, ◌+◌, ◌-◌, ◌^◌, ◌<◌, ◌≤◌, ◌≡◌, ◌≢◌, ◌⊎◌, inl, inr, refl, sym, ap, u64, subst, ◌∙◌,
  arith, true, false, not, ◌&&◌, ◌||◌, List, [], ◌∷◌, length, ltb, leb, ◌==◌, if◌then◌else◌,
  Bool-cases,
}
use quin_kernel_template.Heap.{BlockHeader, Headers, header_size, min_split_size, take, first_fit}
use quin_kernel_template.Heap.Blocks.{Block, after, link, header, Chain, fits, cut, ideal_alloc}
use quin_kernel_template.Heap.Chain.{rest_of, taken_at, taken_whole_at}

-- The chain is a matter of the headers from its start on.
pub Chain-ext :
    (hs hs' : Headers) (prev a : ℕ) (bs : List Block) (end : ℕ)
    → ((x : ℕ) → a ≤ x → hs' x ≡ hs x)
    → Chain hs prev a bs end
    → Chain hs' prev a bs end
Chain-ext hs hs' prev a [] end same c = c
Chain-ext hs hs' prev a (b ∷ bs) end same c = (
  same a (omega arith) ∙ c.0,
  Chain-ext hs hs' a (after a b) bs end (λ x le. same x (omega arith)) c.1,
)

-- The same with the first block's pointer to the one before changed.
pub Chain-relink :
    (hs hs' : Headers) (prev prev' a : ℕ) (bs : List Block) (end : ℕ)
    → ((x : ℕ) → a < x → hs' x ≡ hs x)
    → (link bs a ≢ 0 → hs' a ≡ record (hs a) { prev = prev' })
    → 0 < a
    → Chain hs prev a bs end
    → Chain hs' prev' a bs end
Chain-relink hs hs' prev prev' a [] end same first pos c = c
Chain-relink hs hs' prev prev' a (b ∷ bs) end same first pos c = (
  first (omega arith) ∙ ap (λ (h : BlockHeader). record h { prev = prev' }) c.0,
  Chain-ext hs hs' a (after a b) bs end (λ x le. same x (omega arith)) c.1,
)

link-alloc : (size a x : ℕ) (bs : List Block) → link (ideal_alloc size a bs).0 x ≡ link bs x
unfolding ideal_alloc
link-alloc size a x [] = refl
link-alloc size a x (b ∷ bs) = ground arith

pub Chain-le :
    (hs : Headers) (prev a : ℕ) (bs : List Block) (end : ℕ) → Chain hs prev a bs end → a ≤ end
Chain-le hs prev a [] end c = omega arith
Chain-le hs prev a (b ∷ bs) end c = omega (arith, Chain-le hs a (after a b) bs end c.1)

-- What `link` gives lies at `a`, if it is not NULL.
pub link_place : (bs : List Block) (a : ℕ) → (link bs a ≡ 0) ⊎ (link bs a ≡ a)
link_place [] a = inl refl
link_place (b ∷ bs) a = inr refl

-- Taking the first block.
module _ (hs : Headers) (size prev a : ℕ) (b : Block) (bs : List Block) (end : ℕ)
    (c : Chain hs prev a (b ∷ bs) end) (pos : 0 < a) (small : end < 2 ^ 64)
    (room : size ≤ b.size) where
  at_size : (hs a).size ≡ b.size
  at_size = ap (λ (h : BlockHeader). h.size) c.0

  at_next : (hs a).next ≡ link bs (after a b)
  at_next = ap (λ (h : BlockHeader). h.next) c.0

  below : after a b ≤ end
  below = Chain-le hs a (after a b) bs end c.1

  next_place : ((hs a).next ≡ 0) ⊎ (a + header_size + (hs a).size ≤ (hs a).next)
  next_place = ground (arith, at_size, at_next, link_place bs (after a b))

  take_large :
      size + header_size + min_split_size ≤ b.size
      → Chain
          (take hs a size)
          prev
          a
          (record { size = size; free = false }
            ∷ record { size = b.size - size - header_size; free = true }
            ∷ bs)
          end
        × ((x : ℕ) → x < a → take hs a size x ≡ hs x)
  take_large large = (
    (
      ground (arith, at a, c.0),
      (
        at_new,
        subst (λ (x : ℕ). Chain (take hs a size) new x bs end) place
            (Chain-relink hs (take hs a size) a new (after a b) bs end
              (λ x lt. other x (omega arith) (omega arith) (omega (arith, spot)))
              (λ some_next. at_behind some_next) (omega arith) c.1),
      ),
    ),
    λ x lt. other x (omega arith) (omega arith) (omega (arith, spot)),
  )
    where
      new : ℕ
      new = a + header_size + size

      rest : Block
      rest = record { size = b.size - size - header_size; free = true }

      at :
          (x : ℕ)
          → take hs a size x ≡ (
              if x == a + header_size + size
              then rest_of hs a size
              else if x == a
              then record (hs a) { size = size; free = false; next = a + header_size + size }
              else if not ((hs a).next == 0) && x == (hs a).next
              then record (hs x) { prev = a + header_size + size }
              else hs x)
      at x =
          taken_at hs a size x (omega (arith, at_size, below)) (omega (arith, at_size))
            (omega (arith, at_size, below)) next_place

      spot : ((hs a).next ≡ 0) ⊎ ((hs a).next ≡ after a b)
      spot = rw at_next (link_place bs (after a b))

      other :
          (x : ℕ) → x ≢ new → x ≢ a → (x ≡ (hs a).next → (hs a).next ≡ 0) → take hs a size x ≡ hs x
      other x e1 e2 e3 = ground (arith, at x)

      not_new : (after a b == new) ≡ false
      not_new = ground arith

      not_first : (after a b == a) ≡ false
      not_first = ground arith

      is_next :
          link bs (after a b) ≢ 0 → (not ((hs a).next == 0) && after a b == (hs a).next) ≡ true
      is_next some_next = rw at_next (ground (arith, link_place bs (after a b)))

      at_behind :
          link bs (after a b) ≢ 0
          → take hs a size (after a b) ≡ record (hs (after a b)) { prev = new }
      at_behind some_next = at (after a b) ∙ rw (not_new, not_first, is_next some_next) refl

      place : after a b ≡ after new rest
      place = omega arith

      there : take hs a size new ≡ rest_of hs a size
      there = ground (arith, at new)

      at_new : take hs a size new ≡ header rest a (link bs (after new rest))
      at_new =
          subst (λ (x : ℕ). take hs a size new ≡ header rest a (link bs x)) place
            (there ∙ rw (at_size, at_next) refl)

  take_whole :
      b.size < size + header_size + min_split_size
      → Chain (take hs a size) prev a (record { size = b.size; free = false } ∷ bs) end
        × ((x : ℕ) → x < a → take hs a size x ≡ hs x)
  take_whole exact = (
    (
      ground (arith, at a, c.0),
      Chain-ext hs (take hs a size) a (after a b) bs end (λ x le. ground (arith, at x)) c.1,
    ),
    λ x lt. ground (arith, at x),
  )
    where
      at : (x : ℕ) → take hs a size x ≡ (if x == a then record (hs a) { free = false } else hs x)
      at x =
          taken_whole_at hs a size x (omega (arith, at_size, below)) (omega (arith, at_size))
            (omega (arith, at_size))

  take-Chain :
      Chain (take hs a size) prev a (cut size b bs) end
      × ((x : ℕ) → x < a → take hs a size x ≡ hs x)
  take-Chain = elim (Bool-cases (leb (size + header_size + min_split_size) b.size)) [
    | inl large ↦ rw large (take_large (ground arith))
    | inr exact ↦ rw exact (take_whole (ground arith))
  ]

-- One round of the loop.
round_hit :
    (fuel : ℕ) (hs : Headers) (size a : ℕ)
    → a ≢ 0
    → (not (hs a).free || ltb (hs a).size size) ≡ false
    → first_fit (suc fuel) hs a size ≡ (take hs a size, u64 (a + header_size))
unfolding first_fit
round_hit fuel hs size a some_block hit = ground arith

round_skip :
    (fuel : ℕ) (hs : Headers) (size a : ℕ)
    → a ≢ 0
    → (not (hs a).free || ltb (hs a).size size) ≡ true
    → first_fit (suc fuel) hs a size ≡ first_fit fuel hs (hs a).next size
unfolding first_fit
round_skip fuel hs size a some_block skip = ground arith

pub ideal_hit :
    (size a : ℕ) (b : Block) (bs : List Block)
    → fits size b ≡ true
    → ideal_alloc size a (b ∷ bs) ≡ (cut size b bs, a + header_size)
unfolding ideal_alloc
ideal_hit size a b bs hit = rw hit refl

pub ideal_skip :
    (size a : ℕ) (b : Block) (bs : List Block)
    → fits size b ≡ false
    → ideal_alloc size a (b ∷ bs)
      ≡ (b ∷ (ideal_alloc size (after a b) bs).0, (ideal_alloc size (after a b) bs).1)
unfolding ideal_alloc
ideal_skip size a b bs skip = rw skip refl

-- What the loop returns is what first fit does to the list, with the headers below the list kept.
abbrev pub Placed : Headers → (prev a end : ℕ) → Headers × ℕ → List Block × ℕ → Type 0
Placed hs prev a end r i = Chain r.0 prev a i.0 end × (r.1 ≡ i.1) × ((x : ℕ) → x < a → r.0 x ≡ hs x)

-- The block before the ones that the loop changed is as it was.
Placed-skip :
    (hs : Headers) (size prev a : ℕ) (b : Block) (bs : List Block) (end : ℕ) (r : Headers × ℕ)
    → (hs a ≡ header b prev (link bs (after a b)))
    → Placed hs a (after a b) end r (ideal_alloc size (after a b) bs)
    → Placed hs prev a end r
        (b ∷ (ideal_alloc size (after a b) bs).0, (ideal_alloc size (after a b) bs).1)
Placed-skip hs size prev a b bs end r c (chain, found, frame) = (
  (
    frame a (omega arith)
        ∙ c
        ∙ ap (header b prev) (sym (link-alloc size (after a b) (after a b) bs)),
    chain,
  ),
  found,
  λ x lt. frame x (omega arith),
)

-- The loop of `kmalloc` finds the block that first fit finds, changes the list of the blocks as first
-- fit does, and no header below the first one.
pub first_fit-Chain :
    (fuel : ℕ) (hs : Headers) (size prev a : ℕ) (bs : List Block) (end : ℕ)
    → Chain hs prev a bs end
    → 0 < a
    → end < 2 ^ 64
    → length bs < fuel
    → Placed hs prev a end (first_fit fuel hs (link bs a) size) (ideal_alloc size a bs)
unfolding first_fit ideal_alloc
first_fit-Chain zero hs size prev a bs end c pos small enough = absurd (omega arith)
first_fit-Chain (suc fuel) hs size prev a [] end c pos small enough = (c, refl, (λ x lt. refl))
first_fit-Chain (suc fuel) hs size prev a (b ∷ bs) end c pos small enough =
    elim (Bool-cases (fits size b)) [
      | inl hit ↦
          let taken = take-Chain hs size prev a b bs end c pos small (ground arith) in
          subst (λ (r : Headers × ℕ). Placed hs prev a end r (ideal_alloc size a (b ∷ bs)))
            (sym (round_hit fuel hs size a (omega arith) (test ∙ ap not hit)))
            (subst (Placed hs prev a end (take hs a size, u64 (a + header_size)))
              (sym (ideal_hit size a b bs hit)) (taken.0, omega (arith, below), taken.1))
      | inr skip ↦
          subst (λ (r : Headers × ℕ). Placed hs prev a end r (ideal_alloc size a (b ∷ bs)))
            (sym (round_skip fuel hs size a (omega arith) (test ∙ ap not skip)))
            (subst (Placed hs prev a end (first_fit fuel hs (hs a).next size))
              (sym (ideal_skip size a b bs skip))
              (Placed-skip hs size prev a b bs end (first_fit fuel hs (hs a).next size) c.0 (
                subst
                  (λ (x : ℕ).
                    Placed hs a (after a b) end (first_fit fuel hs x size)
                      (ideal_alloc size (after a b) bs))
                  (sym passed)
                  (first_fit-Chain fuel hs size a (after a b) bs end c.1 (omega arith) small
                    (omega arith)))))
    ]
  where
    test : (not (hs a).free || ltb (hs a).size size) ≡ not (fits size b)
    test = rw c.0 (ground arith)

    passed : (hs a).next ≡ link bs (after a b)
    passed = ap (λ (h : BlockHeader). h.next) c.0

    below : after a b ≤ end
    below = Chain-le hs a (after a b) bs end c.1
