-- ===== src/Heap.antt =====
-- kernel/mm/heap.c: a first-fit allocator on a doubly linked list of blocks that splits on
-- allocation and merges with both neighbours on release. `headers` gives the `struct block_header`
-- at each address; a null pointer is 0, and a header takes 32 bytes. The page faults that back the
-- heap's pages are vmm.c's.
pub mod Chain
pub mod Blocks
pub mod Alloc
pub mod Merge
pub mod Release
pub mod Ideal
pub mod Contract
pub mod Keep
pub mod Refine
pub mod Users
mod Tests
use quin_kernel_template.Base.{
  ℕ, zero, suc, ◌+◌, ◌-◌, ◌*◌, Bool, true, false, not, ◌&&◌, ◌||◌, u64, sub64, leb, ltb, ◌==◌,
  if◌then◌else◌,
}
use quin_kernel_template.Align.{align_up}
use quin_kernel_template.Panic.{Outcome, ok, panicked}
use quin_kernel_template.Vmm.{Vmm, vmm_register_lazy_region, vmm_writable}

abbrev pub heap_vbase : ℕ
heap_vbase = 0xffffffff90000000

abbrev pub heap_size : ℕ
heap_size = 16 * 1024 * 1024

abbrev pub min_split_size : ℕ
min_split_size = 16

abbrev pub header_size : ℕ
header_size = 32

pub record BlockHeader : Type 0 where
  pub size : ℕ
  pub free : Bool
  pub prev : ℕ
  pub next : ℕ

abbrev pub Headers : Type 0
Headers = ℕ → BlockHeader

abbrev pub put : Headers → ℕ → BlockHeader → Headers
put hs a h b = if b == a then h else hs b

-- `node->size = v`, and so on.
abbrev pub set_size : Headers → ℕ → ℕ → Headers
set_size hs a v = put hs a (record (hs a) { size = v })

abbrev pub set_free : Headers → ℕ → Bool → Headers
set_free hs a v = put hs a (record (hs a) { free = v })

abbrev pub set_prev : Headers → ℕ → ℕ → Headers
set_prev hs a v = put hs a (record (hs a) { prev = v })

abbrev pub set_next : Headers → ℕ → ℕ → Headers
set_next hs a v = put hs a (record (hs a) { next = v })

-- `if (node != NULL) node->prev = v`
abbrev pub set_prev_if : Headers → ℕ → ℕ → Headers
set_prev_if hs a v = if not (a == 0) then set_prev hs a v else hs

pub record Heap : Type 0 where
  pub headers : Headers
  pub free_list : ℕ

unfoldable pub heap_init : Vmm → Headers → Outcome (Vmm × Heap)
heap_init vmm hs =
    let r = vmm_register_lazy_region vmm heap_vbase (u64 (heap_vbase + heap_size)) vmm_writable in
    let sized = set_size hs heap_vbase (heap_size - header_size) in
    let linked = set_next (set_prev (set_free sized heap_vbase true) heap_vbase 0) heap_vbase 0 in
    if not r.1 then panicked else ok (r.0, record { headers = linked; free_list = heap_vbase })

-- The body of `if (remaining >= ...)` in `kmalloc`.
unfoldable pub split : Headers → (node size : ℕ) → Headers
split hs node size =
    let remaining = sub64 (hs node).size size in
    let new_node = u64 (node + header_size + size) in
    let h1 = set_free (set_size hs new_node (sub64 remaining header_size)) new_node true in
    let h2 = set_prev h1 new_node node in
    let h3 = set_next h2 new_node (h2 node).next in
    let h4 = set_prev_if h3 (h3 new_node).next new_node in
    set_next (set_size h4 node size) node new_node

unfoldable pub take : Headers → (node size : ℕ) → Headers
unfolding split
take hs node size =
    let remaining = sub64 (hs node).size size in
    let fitted = if leb (header_size + min_split_size) remaining then split hs node size else hs in
    set_free fitted node false

-- The loop of `kmalloc`, on fuel.
unfoldable pub first_fit : (fuel : ℕ) → Headers → (node size : ℕ) → Headers × ℕ
unfolding take
first_fit zero hs node size = (hs, 0)
first_fit (suc fuel) hs node size = elim (node == 0) [
  | true ↦ (hs, 0)
  | false ↦ elim (not (hs node).free || ltb (hs node).size size) [
    | true ↦ first_fit fuel hs (hs node).next size
    | false ↦ (take hs node size, u64 (node + header_size))
  ]
]

-- The blocks are disjoint, so there are no more than `heap_size / header_size`.
abbrev pub fuel : ℕ
fuel = 524289

unfoldable pub kmalloc : Heap → (size : ℕ) → Heap × ℕ
unfolding first_fit align_up
kmalloc h size =
    let r = first_fit fuel h.headers h.free_list (align_up size min_split_size) in
    elim (size == 0) [ true ↦ (h, 0) | false ↦ (record h { headers = r.0 }, r.1) ]

-- Merging with the block behind, and with the block before.
unfoldable pub merge_next : Headers → (node : ℕ) → Headers
merge_next hs node =
    let next = (hs node).next in
    let grown = set_size hs node (u64 ((hs node).size + (header_size + (hs next).size))) in
    let linked = set_next grown node (grown (grown node).next).next in
    if not (next == 0) && (hs next).free then set_prev_if linked (linked node).next node else hs

unfoldable pub merge_prev : Headers → (node : ℕ) → Headers
merge_prev hs node =
    let prev = (hs node).prev in
    let grown = set_size hs prev (u64 ((hs prev).size + (header_size + (hs node).size))) in
    let linked = set_next grown (grown node).prev (grown node).next in
    if not (prev == 0) && (hs prev).free
    then set_prev_if linked (linked node).next (linked node).prev
    else hs

unfoldable pub kfree : Heap → (ptr : ℕ) → Heap
unfolding merge_next merge_prev
kfree h ptr =
    let node = sub64 ptr header_size in
    if ptr == 0
    then h
    else record h { headers = merge_prev (merge_next (set_free h.headers node true) node) node }
