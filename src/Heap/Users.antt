-- ===== src/Heap/Users.antt =====
-- What kernel/mm/heap.c gives to those that allocate and release memory.
use quin_kernel_template.Base.{
  ℕ, ◌+◌, ◌-◌, ◌^◌, ◌<◌, ◌≤◌, ◌≡◌, ◌≢◌, ◌↔◌, sym, subst, ◌∙◌, arith, true, false, List, some, u64,
}
use quin_kernel_template.Align.{align_up, mask_by_16}
use quin_kernel_template.Heap.{Heap, kmalloc, kfree, heap_vbase, heap_size, header_size}
use quin_kernel_template.Heap.Blocks.{Block, ideal_alloc, ideal_free, block_at}
use quin_kernel_template.Heap.Contract.{
  any_fits, alloc_place, alloc_none, alloc-WasFree, alloc-IsTaken, alloc_keeps,
}
use quin_kernel_template.Heap.Keep.{free_keeps, alloc_free}
use quin_kernel_template.Heap.Refine.{
  heap_end, IsHeap, rounded, header_at, kmalloc_refines, kfree_refines,
}

rounded_ge : (size : ℕ) → size + 15 < 2 ^ 64 → size ≤ rounded size
unfolding align_up
rounded_ge size small = omega (arith, mask_by_16 (u64 (size + 15)))

-- On a heap that is a list of blocks, with no two free neighbours, kmalloc of a request that is
-- not empty returns NULL exactly when no free block is large enough for the rounded size.
pub kmalloc_null :
    (h : Heap) (bs : List Block) (size : ℕ)
    → IsHeap h bs
    → size ≢ 0
    → ((kmalloc h size).1 ≡ 0) ↔ (any_fits (rounded size) bs ≡ false)
kmalloc_null h bs size heap some_size =
    subst (λ (p : ℕ). (p ≡ 0) ↔ (any_fits (rounded size) bs ≡ false))
      (sym (kmalloc_refines h bs size heap some_size).1) (alloc_none (rounded size) heap_vbase bs)

-- On a heap that is a list of blocks, with no two free neighbours, the memory that kmalloc
-- returns, if any, for a request that is not empty and that rounding up does not wrap, is that of
-- a block that was marked free, that is marked in use afterwards, with room for the request, and
-- that ends within the heap.
pub kmalloc_gives :
    (h : Heap) (bs : List Block) (size : ℕ)
    → IsHeap h bs
    → size ≢ 0
    → size + 15 < 2 ^ 64
    → let r = kmalloc h size in
      let node = r.1 - header_size in
      r.1 ≢ 0
      → ((h.headers node).free ≡ true)
        × ((r.0.headers node).free ≡ false)
        × (size ≤ (r.0.headers node).size)
        × (r.1 + (r.0.headers node).size ≤ heap_vbase + heap_size)
kmalloc_gives h bs size heap some_size small found =
    let taken = alloc-IsTaken (rounded size) heap_vbase bs (λ e. found (refined.1 ∙ e)) in
    let before = alloc-WasFree (rounded size) heap_vbase bs (λ e. found (refined.1 ∙ e)) in
    let old = header_at h.headers 0 heap_vbase bs heap_end place before.0 heap.1 before.1 in
    let new =
      header_at (kmalloc h size).0.headers 0 heap_vbase (ideal_alloc (rounded size) heap_vbase bs).0
        heap_end place taken.0 refined.0.1 taken.1 in
    subst
      (λ (p : ℕ).
        ((h.headers (p - header_size)).free ≡ true)
        × (((kmalloc h size).0.headers (p - header_size)).free ≡ false)
        × (size ≤ ((kmalloc h size).0.headers (p - header_size)).size)
        × (p + ((kmalloc h size).0.headers (p - header_size)).size ≤ heap_vbase + heap_size))
      (sym refined.1)
      (
        old.1 ∙ ground (arith, before.2),
        new.1 ∙ taken.2,
        omega (arith, new.0, taken.3, rounded_ge size small),
        omega (
          arith,
          new.0,
          new.2,
          alloc_place (rounded size) heap_vbase bs,
          (λ (e : (ideal_alloc (rounded size) heap_vbase bs).1 ≡ 0). found (refined.1 ∙ e)),
        ),
      )
  where
    refined :
        IsHeap (kmalloc h size).0 (ideal_alloc (rounded size) heap_vbase bs).0
        × ((kmalloc h size).1 ≡ (ideal_alloc (rounded size) heap_vbase bs).1)
    refined = kmalloc_refines h bs size heap some_size

    place : ℕ
    place = (ideal_alloc (rounded size) heap_vbase bs).1 - header_size

-- On a heap that is a list of blocks, with no two free neighbours, kmalloc of a request that is
-- not empty leaves the size and the mark of every block in use.
pub kmalloc_keeps :
    (h : Heap) (bs : List Block) (size x : ℕ) (b : Block)
    → IsHeap h bs
    → size ≢ 0
    → block_at x heap_vbase bs ≡ some b
    → b.free ≡ false
    → (((kmalloc h size).0.headers x).size ≡ b.size) × (((kmalloc h size).0.headers x).free ≡ false)
kmalloc_keeps h bs size x b heap some_size there used =
    let refined = kmalloc_refines h bs size heap some_size in
    let new =
      header_at (kmalloc h size).0.headers 0 heap_vbase (ideal_alloc (rounded size) heap_vbase bs).0
        heap_end x b refined.0.1 (alloc_keeps (rounded size) heap_vbase x bs b there used) in
    (new.0, new.1 ∙ used)

-- On a heap that is a list of blocks, with no two free neighbours, releasing the memory that
-- kmalloc has returned for a request that is not empty gives back the list of blocks as it was
-- before.
pub kfree-kmalloc :
    (h : Heap) (bs : List Block) (size : ℕ)
    → IsHeap h bs
    → size ≢ 0
    → (kmalloc h size).1 ≢ 0
    → IsHeap (kfree (kmalloc h size).0 (kmalloc h size).1) bs
kfree-kmalloc h bs size heap some_size found =
    let refined = kmalloc_refines h bs size heap some_size in
    let some_place =
      λ (e : (ideal_alloc (rounded size) heap_vbase bs).1 ≡ 0). found (refined.1 ∙ e) in
    let taken = alloc-IsTaken (rounded size) heap_vbase bs some_place in
    subst (λ (p : ℕ). IsHeap (kfree (kmalloc h size).0 p) bs)
      {x = (ideal_alloc (rounded size) heap_vbase bs).1 - header_size + header_size}
      (omega (arith, refined.1, alloc_place (rounded size) heap_vbase bs, some_place))
      (subst
        (IsHeap (
          kfree (kmalloc h size).0
            ((ideal_alloc (rounded size) heap_vbase bs).1 - header_size + header_size)))
        (alloc_free (rounded size) heap_vbase bs heap.2 some_place)
        (kfree_refines (kmalloc h size).0 (ideal_alloc (rounded size) heap_vbase bs).0
          ((ideal_alloc (rounded size) heap_vbase bs).1 - header_size) taken.0 refined.0 taken.1))

-- On a heap that is a list of blocks, with no two free neighbours, kfree of the memory of a block
-- leaves the size and the mark of every other block in use.
pub kfree_keeps :
    (h : Heap) (bs : List Block) (node x : ℕ) (b c : Block)
    → IsHeap h bs
    → block_at node heap_vbase bs ≡ some b
    → block_at x heap_vbase bs ≡ some c
    → c.free ≡ false
    → x ≢ node
    → (((kfree h (node + header_size)).headers x).size ≡ c.size)
      × (((kfree h (node + header_size)).headers x).free ≡ false)
kfree_keeps h bs node x b c heap there other used apart =
    let refined = kfree_refines h bs node b heap there in
    let new =
      header_at (kfree h (node + header_size)).headers 0 heap_vbase (ideal_free node heap_vbase bs)
        heap_end x c refined.1 (free_keeps node heap_vbase x bs c other used apart) in
    (new.0, new.1 ∙ used)
