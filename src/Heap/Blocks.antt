-- ===== src/Heap/Blocks.antt =====
-- The heap of heap.c as the list of its blocks, in the order of their addresses, and what kmalloc and
-- kfree do to that list.
use quin_kernel_template.Base.{
  ℕ, ◌+◌, ◌-◌, ◌≡◌, Bool, true, false, ◌&&◌, List, [], ◌∷◌, leb, ◌==◌, if◌then◌else◌, Option, none,
  some,
}
use quin_kernel_template.Heap.{BlockHeader, Headers, header_size, min_split_size}

pub record Block : Type 0 where
  pub size : ℕ
  pub free : Bool

-- Where the next block begins.
abbrev pub after : ℕ → Block → ℕ
after a b = a + header_size + b.size

-- The pointer to the blocks that begin at `a`: NULL when there are none.
abbrev pub link : List Block → ℕ → ℕ
link [] a = 0
link (b ∷ bs) a = a

abbrev pub header : Block → (prev next : ℕ) → BlockHeader
header b prev next = record { size = b.size; free = b.free; prev = prev; next = next }

-- The headers from `a` on, up to `end`, are those of the blocks, linked in both directions; the
-- block before the first one is at `prev`.
abbrev pub Chain : Headers → (prev a : ℕ) → List Block → (end : ℕ) → Type 0
Chain hs prev a [] end = a ≡ end
Chain hs prev a (b ∷ bs) end =
    (hs a ≡ header b prev (link bs (after a b))) × Chain hs a (after a b) bs end

abbrev pub fits : (size : ℕ) → Block → Bool
fits size b = b.free && leb size b.size

-- A free block is taken: the rest of it is a block of its own if it is large enough.
abbrev pub cut : (size : ℕ) → Block → List Block → List Block
cut size b bs =
    if leb (size + header_size + min_split_size) b.size
    then record { size = size; free = false }
      ∷ record { size = b.size - size - header_size; free = true }
      ∷ bs
    else record { size = b.size; free = false } ∷ bs

-- First fit: the blocks after, and where the memory of the taken one begins, or 0.
unfoldable pub ideal_alloc : (size a : ℕ) → List Block → List Block × ℕ
ideal_alloc size a [] = ([], 0)
ideal_alloc size a (b ∷ bs) =
    let rest = ideal_alloc size (after a b) bs in
    if fits size b then (cut size b bs, a + header_size) else (b ∷ rest.0, rest.1)

-- A block takes in the free one behind it.
abbrev pub join_next : Block → List Block → List Block
join_next b [] = b ∷ []
join_next b (c ∷ bs) =
    if c.free
    then record { size = b.size + (header_size + c.size); free = b.free } ∷ bs
    else b ∷ c ∷ bs

-- A block takes in the one behind it.
abbrev pub absorb : Block → List Block → List Block
absorb b [] = b ∷ []
absorb b (c ∷ bs) = record { size = b.size + (header_size + c.size); free = b.free } ∷ bs

-- The block at `target` is released and merged with its free neighbours.
unfoldable pub ideal_free : (target a : ℕ) → List Block → List Block
ideal_free target a [] = []
ideal_free target a (b ∷ bs) =
    let rest = ideal_free target (after a b) bs in
    if a == target
    then join_next (record { size = b.size; free = true }) bs
    else if after a b == target && b.free
    then absorb b rest
    else b ∷ rest

-- The block at an address.
unfoldable pub block_at : (target a : ℕ) → List Block → Option Block
block_at target a [] = none
block_at target a (b ∷ bs) = if a == target then some b else block_at target (after a b) bs

-- No two free blocks are neighbours.
abbrev pub Separate : List Block → Type 0
Separate [] = Unit
Separate (b ∷ []) = Unit
Separate (b ∷ c ∷ bs) = ((b.free && c.free) ≡ false) × Separate (c ∷ bs)
