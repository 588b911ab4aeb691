-- ===== src/Heap/Tests.antt =====
-- Runs of kernel/mm/heap.c on a heap of 1024 bytes at 4096.
use quin_kernel_template.Base.{
  ◌+◌, ◌-◌, ◌≤◌, ◌↔◌, List, [], ◌∷◌, ◌≡◌, refl, true, false, ◌==◌, if◌then◌else◌, arith,
}
use quin_kernel_template.Align.{align_up}
use quin_kernel_template.Heap.Blocks.{Block, ideal_alloc, ideal_free, block_at}
use quin_kernel_template.Heap.Contract.{any_fits}
use quin_kernel_template.Heap.Refine.{
  IsHeap, rounded, kmalloc_refines, kfree_refines, heap_init_lem,
}
use quin_kernel_template.Heap.Users.{
  kmalloc_null, kmalloc_gives, kmalloc_keeps, kfree_keeps, kfree-kmalloc,
}
use quin_kernel_template.Vmm.{Vmm, vmm_init, vmm_register_lazy_region, vmm_writable}
use quin_kernel_template.Heap.{
  heap_init, set_size, set_prev, set_next, heap_vbase, heap_size, header_size, BlockHeader, Heap,
  kmalloc, kfree, set_free,
}

abbrev blank : BlockHeader
blank = record { size = 0; free = false; prev = 0; next = 0 }

abbrev whole : BlockHeader
whole = record { size = 992; free = true; prev = 0; next = 0 }

abbrev heap : Heap
heap = record { headers = λ a. if a == 4096 then whole else blank; free_list = 4096 }

-- Twenty bytes take a block of 32, behind its header.
first_block : (kmalloc heap 20).1 ≡ 4128
unfolding kmalloc
first_block = refl

abbrev two : Heap
two = (kmalloc (kmalloc heap 20).0 100).0

second_block : (kmalloc (kmalloc heap 20).0 100).1 ≡ 4192
unfolding kmalloc
second_block = refl

-- Releasing both, the first one last, merges all blocks again.
merged : (kfree (kfree two 4192) 4128).headers 4096 ≡ whole
unfolding kmalloc kfree
merged = refl

-- A request that rounding up wraps to zero gets a block of no bytes.
wrapped : ((kmalloc heap 0xffffffffffffffff).0.headers 4096).size ≡ 0
unfolding kmalloc
wrapped = refl

-- The heap as heap_init leaves it, and after a block of 32 bytes is taken.
abbrev fresh : Heap
fresh = record {
  headers = λ a.
      if a == heap_vbase
      then record { size = heap_size - header_size; free = true; prev = 0; next = 0 }
      else blank;
  free_list = heap_vbase;
}

abbrev fresh_blocks : List Block
fresh_blocks = record { size = heap_size - header_size; free = true } ∷ []

fresh-IsHeap : IsHeap fresh fresh_blocks
fresh-IsHeap = (refl, (refl, refl), tt)

abbrev taken_blocks : List Block
taken_blocks =
    record { size = 32; free = false }
    ∷ record { size = heap_size - header_size - 64; free = true }
    ∷ []

taken-IsHeap : IsHeap (kmalloc fresh 20).0 taken_blocks
unfolding ideal_alloc align_up
taken-IsHeap = (kmalloc_refines fresh fresh_blocks 20 fresh-IsHeap (omega arith)).0

kmalloc_refines_example :
    IsHeap (kmalloc fresh 20).0 (ideal_alloc (rounded 20) heap_vbase fresh_blocks).0
    × ((kmalloc fresh 20).1 ≡ (ideal_alloc (rounded 20) heap_vbase fresh_blocks).1)
kmalloc_refines_example = kmalloc_refines fresh fresh_blocks 20 fresh-IsHeap (omega arith)

kfree_refines_example :
    IsHeap
      (kfree (kmalloc fresh 20).0 (heap_vbase + header_size))
      (ideal_free heap_vbase heap_vbase taken_blocks)
unfolding block_at
kfree_refines_example =
    kfree_refines (kmalloc fresh 20).0 taken_blocks heap_vbase (record { size = 32; free = false })
      taken-IsHeap refl

kmalloc_null_example :
    ((kmalloc fresh 0x2000000).1 ≡ 0) ↔ (any_fits (rounded 0x2000000) fresh_blocks ≡ false)
kmalloc_null_example = kmalloc_null fresh fresh_blocks 0x2000000 fresh-IsHeap (omega arith)

kmalloc_gives_example :
    ((fresh.headers ((kmalloc fresh 20).1 - header_size)).free ≡ true)
    × (((kmalloc fresh 20).0.headers ((kmalloc fresh 20).1 - header_size)).free ≡ false)
    × (20 ≤ ((kmalloc fresh 20).0.headers ((kmalloc fresh 20).1 - header_size)).size)
    × ((kmalloc fresh 20).1
          + ((kmalloc fresh 20).0.headers ((kmalloc fresh 20).1 - header_size)).size
        ≤ heap_vbase + heap_size)
unfolding ideal_alloc align_up
kmalloc_gives_example =
    kmalloc_gives fresh fresh_blocks 20 fresh-IsHeap (omega arith) (omega arith)
      (omega (arith, (kmalloc_refines fresh fresh_blocks 20 fresh-IsHeap (omega arith)).1))

kmalloc_keeps_example :
    (((kmalloc (kmalloc fresh 20).0 100).0.headers heap_vbase).size ≡ 32)
    × (((kmalloc (kmalloc fresh 20).0 100).0.headers heap_vbase).free ≡ false)
unfolding block_at
kmalloc_keeps_example =
    kmalloc_keeps (kmalloc fresh 20).0 taken_blocks 100 heap_vbase
      (record { size = 32; free = false }) taken-IsHeap (omega arith) refl refl

kfree-kmalloc_example : IsHeap (kfree (kmalloc fresh 20).0 (kmalloc fresh 20).1) fresh_blocks
unfolding ideal_alloc align_up
kfree-kmalloc_example =
    kfree-kmalloc fresh fresh_blocks 20 fresh-IsHeap (omega arith)
      (omega (arith, (kmalloc_refines fresh fresh_blocks 20 fresh-IsHeap (omega arith)).1))

abbrev two_blocks : List Block
two_blocks =
    record { size = 32; free = false }
    ∷ record { size = 112; free = false }
    ∷ record { size = heap_size - header_size - 208; free = true }
    ∷ []

two-IsHeap : IsHeap (kmalloc (kmalloc fresh 20).0 100).0 two_blocks
unfolding ideal_alloc align_up
two-IsHeap = (kmalloc_refines (kmalloc fresh 20).0 taken_blocks 100 taken-IsHeap (omega arith)).0

kfree_keeps_example :
    (((kfree (kmalloc (kmalloc fresh 20).0 100).0 (heap_vbase + 64 + header_size)).headers
        heap_vbase).size
      ≡ 32)
    × (((kfree (kmalloc (kmalloc fresh 20).0 100).0 (heap_vbase + 64 + header_size)).headers
          heap_vbase).free
        ≡ false)
unfolding block_at
kfree_keeps_example =
    kfree_keeps (kmalloc (kmalloc fresh 20).0 100).0 two_blocks (heap_vbase + 64) heap_vbase
      (record { size = 112; free = false }) (record { size = 32; free = false }) two-IsHeap refl
      refl refl (omega arith)

abbrev vmm : Vmm
vmm =
    vmm_init 0 0
      (record {
        bitmap = 0;
        frame_count = 0;
        next_search_index = 0;
        hhdm_offset = 0;
        free_frames = 0;
      })
      (λ a. 0)

abbrev registered : Vmm
registered = (vmm_register_lazy_region vmm heap_vbase (heap_vbase + heap_size) vmm_writable).0

heap_init_lem_example :
    IsHeap
      (record {
        headers =
            set_next
              (set_prev
                (set_free
                  (set_size (λ a. blank) heap_vbase (heap_size - header_size))
                  heap_vbase
                  true)
                heap_vbase
                0)
              heap_vbase
              0;
        free_list = heap_vbase;
      })
      fresh_blocks
unfolding heap_init vmm_register_lazy_region vmm_init
heap_init_lem_example =
    heap_init_lem vmm registered (λ a. blank)
      (record {
        headers =
            set_next
              (set_prev
                (set_free (set_size (λ a. blank) heap_vbase (heap_size - header_size)) heap_vbase
                  true)
                heap_vbase 0)
              heap_vbase 0;
        free_list = heap_vbase;
      })
      refl
