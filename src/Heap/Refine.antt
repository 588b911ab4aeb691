-- ===== src/Heap/Refine.antt =====
-- kernel/mm/heap.c as a whole: the headers in memory against the list of the blocks.
use quin_kernel_template.Base.{
  ℕ, ◌+◌, ◌-◌, ◌*◌, ◌^◌, ◌<◌, ◌≤◌, ◌≡◌, ◌≢◌, inl, inr, refl, sym, ap, subst, ◌∙◌, arith, true,
  false, List, [], ◌∷◌, length, ◌==◌, Bool-cases, some, sub64,
}
use quin_kernel_template.Align.{align_up}
use quin_kernel_template.Panic.{Outcome, ok, panicked}
use quin_kernel_template.Vmm.{Vmm}
use quin_kernel_template.Heap.{
  BlockHeader, Headers, Heap, heap_init, kmalloc, kfree, first_fit, fuel, heap_vbase, heap_size,
  header_size, min_split_size, merge_prev, set_free, set_size, set_next, set_prev,
}
use quin_kernel_template.Heap.Blocks.{
  Block, after, link, Chain, ideal_alloc, ideal_free, block_at, Separate,
}
use quin_kernel_template.Heap.Alloc.{Chain-le, Placed, first_fit-Chain}
use quin_kernel_template.Heap.Release.{free-Chain, freed}
use quin_kernel_template.Heap.Ideal.{ideal_alloc-Separate, ideal_free-Separate}

abbrev pub heap_end : ℕ
heap_end = heap_vbase + heap_size

-- The heap's memory is cut into the blocks, of which no two free ones are neighbours.
abbrev pub IsHeap : Heap → List Block → Type 0
IsHeap h bs = (h.free_list ≡ heap_vbase) × Chain h.headers 0 heap_vbase bs heap_end × Separate bs

abbrev pub rounded : ℕ → ℕ
rounded size = align_up size min_split_size

-- One header and no bytes at least for each block.
Chain-length :
    (hs : Headers) (prev a : ℕ) (bs : List Block) (end : ℕ)
    → Chain hs prev a bs end
    → a + header_size * length bs ≤ end
Chain-length hs prev a [] end c = omega arith
Chain-length hs prev a (b ∷ bs) end c = omega (arith, Chain-length hs a (after a b) bs end c.1)

link_heap : (h : Heap) (bs : List Block) → IsHeap h bs → link bs heap_vbase ≡ h.free_list
link_heap h [] heap = absurd (omega arith)
link_heap h (b ∷ bs) heap = sym heap.0

-- What the headers say of a block in the list.
pub header_at :
    (hs : Headers) (prev a : ℕ) (bs : List Block) (end x : ℕ) (b : Block)
    → Chain hs prev a bs end
    → block_at x a bs ≡ some b
    → ((hs x).size ≡ b.size) × ((hs x).free ≡ b.free) × (x + header_size + b.size ≤ end)
unfolding block_at
header_at hs prev a [] end x b c there = ground arith
header_at hs prev a (d ∷ bs) end x b c there = elim (Bool-cases (x == a)) [
  | inl e ↦
      subst
        (λ (y : ℕ).
          ((hs y).size ≡ b.size) × ((hs y).free ≡ b.free) × (y + header_size + b.size ≤ end))
        {x = a} {y = x} (ground arith)
        (subst
          (λ (y : Block).
            ((hs a).size ≡ y.size) × ((hs a).free ≡ y.free) × (a + header_size + y.size ≤ end))
          {x = d} {y = b} (ground arith)
          (
            ap (λ (h : BlockHeader). h.size) c.0,
            ap (λ (h : BlockHeader). h.free) c.0,
            omega (arith, Chain-le hs a (after a d) bs end c.1),
          ))
  | inr e ↦ header_at hs a (after a d) bs end x b c.1 (ground arith)
]

-- A request that is not empty runs the loop.
kmalloc_step :
    (h : Heap) (size : ℕ)
    → size ≢ 0
    → let r = first_fit fuel h.headers h.free_list (rounded size) in
      kmalloc h size ≡ (record h { headers = r.0 }, r.1)
unfolding kmalloc
kmalloc_step h size some_size = ground arith

-- On a heap that is a list of blocks, with no two free neighbours, kmalloc of a request that is
-- not empty does to the blocks what first fit does for the rounded size, returns the address that
-- first fit finds, and leaves such a heap.
pub kmalloc_refines :
    (h : Heap) (bs : List Block) (size : ℕ)
    → IsHeap h bs
    → size ≢ 0
    → IsHeap (kmalloc h size).0 (ideal_alloc (rounded size) heap_vbase bs).0
      × ((kmalloc h size).1 ≡ (ideal_alloc (rounded size) heap_vbase bs).1)
kmalloc_refines h bs size heap some_size =
    subst
      (λ (r : Heap × ℕ).
        IsHeap r.0 (ideal_alloc (rounded size) heap_vbase bs).0
        × (r.1 ≡ (ideal_alloc (rounded size) heap_vbase bs).1))
      (sym (kmalloc_step h size some_size))
      ((heap.0, placed.0, ideal_alloc-Separate (rounded size) heap_vbase bs heap.2), placed.1)
  where
    placed :
        Placed h.headers 0 heap_vbase heap_end
          (first_fit fuel h.headers h.free_list (rounded size))
          (ideal_alloc (rounded size) heap_vbase bs)
    placed =
        subst
          (λ (p : ℕ).
            Placed h.headers 0 heap_vbase heap_end (first_fit fuel h.headers p (rounded size))
              (ideal_alloc (rounded size) heap_vbase bs))
          (link_heap h bs heap)
          (first_fit-Chain fuel h.headers (rounded size) 0 heap_vbase bs heap_end heap.1
            (omega arith) (omega arith)
            (omega (arith, Chain-length h.headers 0 heap_vbase bs heap_end heap.1)))

kfree_step :
    (h : Heap) (node : ℕ)
    → node + header_size < 2 ^ 64
    → kfree h (node + header_size) ≡ record h { headers = merge_prev (freed h.headers node) node }
unfolding kfree
kfree_step h node small =
    rw
      (
        begun,
        ap (λ (n : ℕ). n) {x = sub64 (node + header_size) header_size} {y = node} (omega arith),
      )
      refl
  where
    begun : (node + header_size == 0) ≡ false
    begun = ground arith

-- On a heap that is a list of blocks, with no two free neighbours, kfree of the memory of a block
-- of the list does to the blocks what a release does, and leaves such a heap.
pub kfree_refines :
    (h : Heap) (bs : List Block) (node : ℕ) (b : Block)
    → IsHeap h bs
    → block_at node heap_vbase bs ≡ some b
    → IsHeap (kfree h (node + header_size)) (ideal_free node heap_vbase bs)
kfree_refines h bs node b heap there =
    subst (λ (g : Heap). IsHeap g (ideal_free node heap_vbase bs))
      (sym (
        kfree_step h node
          (omega (arith, header_at h.headers 0 heap_vbase bs heap_end node b heap.1 there))))
      (
        heap.0,
        (free-Chain node h.headers 0 heap_vbase bs heap_end heap.1
            (λ none_there. ground (arith, none_there, there)) (omega arith) (omega arith)
            (λ e. inl refl)).0,
        ideal_free-Separate node heap_vbase bs heap.2,
      )

first_heap : Headers → Heap
first_heap hs =
    let sized = set_size hs heap_vbase (heap_size - header_size) in
    let linked = set_next (set_prev (set_free sized heap_vbase true) heap_vbase 0) heap_vbase 0 in
    record { headers = linked; free_list = heap_vbase }

first_heap-IsHeap :
    (hs : Headers)
    → IsHeap (first_heap hs) (record { size = heap_size - header_size; free = true } ∷ [])
unfolding first_heap
first_heap-IsHeap hs = (refl, (refl, omega arith), tt)

-- The heap that heap_init gives, if it does not panic.
abbrev heap_of : Heap → Outcome (Vmm × Heap) → Heap
heap_of g (ok r) = r.1
heap_of g panicked = g

init_heap_of : (v : Vmm) (hs : Headers) → heap_of (first_heap hs) (heap_init v hs) ≡ first_heap hs
unfolding heap_init first_heap
init_heap_of v hs = ground arith

-- If heap_init does not panic, the heap is one free block of all its memory but a header.
pub heap_init_lem :
    (v v' : Vmm) (hs : Headers) (h : Heap)
    → heap_init v hs ≡ ok (v', h)
    → IsHeap h (record { size = heap_size - header_size; free = true } ∷ [])
heap_init_lem v v' hs h e =
    subst (λ (g : Heap). IsHeap g (record { size = heap_size - header_size; free = true } ∷ []))
      (sym (init_heap_of v hs) ∙ ap (heap_of (first_heap hs)) e) (first_heap-IsHeap hs)
