-- ===== src/Vmm/Tests.antt =====
-- Runs of kernel/arch/x86_64/mm/vmm.c.
use quin_kernel_template.Base.{
  ℕ, ◌+◌, ◌*◌, ◌/◌, ◌%◌, ◌^◌, ◌≤◌, ◌≡◌, refl, Bool, true, false, arith, ◌==◌, if◌then◌else◌, [],
  ◌∷◌,
}
use quin_kernel_template.Align.{align_down}
use quin_kernel_template.Bitmap.{bitmap_test, bitmap_set, bitmap_find_first_clear}
use quin_kernel_template.Memory.{Memory, load, store, load64, store64}
use quin_kernel_template.Memory.Words.{load64-zero}
use quin_kernel_template.Pmm.{Pmm, pmm_alloc_frame}
use quin_kernel_template.Pmm.Free.{MayFree}
use quin_kernel_template.Pmm.Valid.{IsValid, clear_count, own_frame}
use quin_kernel_template.Strings.{memset}
use quin_kernel_template.Ring3.{ring3_demo_thread}
use quin_kernel_template.Ring3.Result.{DemoResult}
use quin_kernel_template.Ring3.Entry.{ring3_demo_thread-DemoResult}
use quin_kernel_template.Panic.{Outcome, ok, panicked}
use quin_kernel_template.Syscall.{Cpu, syscall_init, syscall_kernel_stack_pages}
use quin_kernel_template.Syscall.Entry.{Entered, init-Entered}
use quin_kernel_template.Vmm.{
  vmm_alloc_guarded, vmm_writable, Vmm, LazyRegion, vmm_init, translate_flags,
  vmm_register_lazy_region, vmm_handle_page_fault, vmm_map, vmm_unmap, vmm_alloc_guarded,
}
use quin_kernel_template.Vmm.Fault.{FaultResult, flags_of, handle_page_fault-FaultResult}
use quin_kernel_template.Vmm.Guarded.{reserved, region_start, alloc_guarded-Region}
use quin_kernel_template.Vmm.Region.{Region}
use quin_kernel_template.Vmm.Lazy.{any_covers}
use quin_kernel_template.Vmm.Map.{MapResult, map-MapResult}
use quin_kernel_template.Vmm.Tables.{words, HasTables}
use quin_kernel_template.Vmm.Translate.{translate, page_number}
use quin_kernel_template.Vmm.Tree.{Owners, translate_from, page, is_large_page}
use quin_kernel_template.Vmm.Unmap.{Unmapped, unmap-Unmapped}

abbrev pmm : Pmm
pmm = record {
  bitmap = 4096;
  frame_count = 10;
  next_search_index = 0;
  hhdm_offset = 0;
  free_frames = 8;
}

abbrev booted : Vmm
booted = vmm_init 0 0 pmm (λ a. 0)

-- Writable and not executable.
flags_test : translate_flags 9 ≡ 2 ^ 63 + 3
unfolding translate_flags
flags_test = refl

abbrev registered : Vmm
registered = (vmm_register_lazy_region booted 8192 16384 1).0

outside : any_covers (20000 / 4096 * 4096) registered.lazy_regions ≡ false
unfolding any_covers vmm_register_lazy_region vmm_init
outside = refl

-- Ten frames at offset 0: frame 1 holds the bitmap, frame 2 is the root table, still empty, and
-- frames 3 to 9 are free. One region is lazy.
abbrev tables_memory : Memory
tables_memory a = if a == 4096 then 0x07 else if a == 4097 then 0xfc else 0

abbrev tables_pmm : Pmm
tables_pmm = record pmm { free_frames = 7 }

abbrev region : LazyRegion
region = record { start = 0xffffffff90000000; end = 0xffffffff90004000; flags = 9; used = true }

abbrev tables : Vmm
tables = record {
  hhdm_offset = 0;
  dynamic_next_vaddr = 0xffffffffb0000000;
  mmio_next_vaddr = 0xffffffffc0000000;
  lazy_regions = region ∷ [];
  cr3 = 8192;
  pmm = tables_pmm;
  mem = tables_memory;
}

abbrev root_only : Owners
root_only = record { level = λ f. if f == 2 then 4 else 0; prefix = λ f. 0 }

tables_pmm-IsValid : IsValid tables_pmm tables_memory
unfolding bitmap_test load clear_count
tables_pmm-IsValid = record {
  pos = omega arith;
  small = omega arith;
  above = omega arith;
  own_in_range = λ j lt. omega arith;
  own_used = λ j lt. let e : own_frame tables_pmm j ≡ 1 = omega arith in rw e;
  zero_used = refl;
  counted = refl;
}

root-MayFree : MayFree tables_pmm tables_memory 2
unfolding bitmap_test load
root-MayFree = record {
  in_range = omega arith;
  used = refl;
  not_zero = omega arith;
  not_own = λ j lt. omega arith;
}

beyond : (a : ℕ) → 8192 ≤ a → load tables_memory a ≡ 0
unfolding load
beyond a h = ground arith

root_empty : (i : ℕ) → words tables 2 i ≡ 0
root_empty i = load64-zero tables_memory (0 + 2 * 4096 + i * 8) λ k lt. beyond _ (omega arith)

tables-HasTables : HasTables tables root_only
tables-HasTables = record {
  valid = tables_pmm-IsValid;
  offset = refl;
  addressable = omega arith;
  root_level = refl;
  root_prefix = refl;
  held = λ f o. let e : f ≡ 2 = ground arith in rw e root-MayFree;
  tree = record {
    child = λ f i n e lt p q.
        let two : f ≡ 2 = ground arith in absurd (ground (arith, root_empty i, two, p));
  };
}

map-MapResult_example :
    MapResult tables root_only 0x400000 12288 2 (vmm_map tables 0x400000 12288 2)
unfolding translate translate_from load64 load
map-MapResult_example = map-MapResult tables root_only 0x400000 12288 2 tables-HasTables refl

unmap-Unmapped_example : Unmapped tables root_only 0x400000 (vmm_unmap tables 0x400000)
unfolding translate translate_from load64 load
unmap-Unmapped_example = unmap-Unmapped tables root_only 0x400000 tables-HasTables refl

handle_page_fault-FaultResult_example :
    FaultResult tables root_only
      (0xffffffff90001234 / 4096 * 4096)
      9
      (vmm_handle_page_fault tables 0xffffffff90001234 2)
unfolding translate translate_from load64 load flags_of
handle_page_fault-FaultResult_example =
    handle_page_fault-FaultResult tables root_only 0xffffffff90001234 2 9 tables-HasTables
      (omega arith) refl refl refl

-- The fault is resolved, and vmm_unmap undoes it.
abbrev faulted : Vmm × Bool
faulted = vmm_handle_page_fault tables 0xffffffff90001234 2

faulted_resolved : faulted.1 ≡ true
unfolding vmm_handle_page_fault align_down pmm_alloc_frame bitmap_find_first_clear bitmap_test
    bitmap_set load store memset load64 store64
faulted_resolved = refl

faulted_translation :
    translate faulted.0 0xffffffff90001999
    ≡ page
        (record { frame = 3; writable = true; user = false; no_cache = false; no_execute = true })
unfolding vmm_handle_page_fault align_down pmm_alloc_frame bitmap_find_first_clear bitmap_test
    bitmap_set load store memset load64 store64 translate translate_from
faulted_translation = refl

no_large_page : (v : ℕ) → is_large_page (translate tables v) ≡ false
unfolding translate translate_from
no_large_page v = rw (root_empty (v / 2 ^ 39 % 512)) refl

alloc_guarded-Region_example :
    Region
      (reserved tables 2)
      root_only
      (page_number (region_start tables))
      2
      9
      (region_start tables)
      (vmm_alloc_guarded tables 2 9)
alloc_guarded-Region_example =
    alloc_guarded-Region tables root_only 2 9 tables-HasTables (omega arith)
      λ v lo hi. no_large_page v

ring3_demo_thread-DemoResult_example : DemoResult tables root_only (ring3_demo_thread tables)
unfolding translate translate_from load64 load
ring3_demo_thread-DemoResult_example =
    ring3_demo_thread-DemoResult tables root_only tables-HasTables refl refl

abbrev calling : Cpu
calling = record {
  vmm = tables;
  tss = record { rsp0 = 0; iopb_offset = 104 };
  kernel_syscall_rsp = 0;
  msrs = λ x. 0;
}

abbrev stack_top_of : Outcome Cpu → ℕ
stack_top_of (ok c) = c.tss.rsp0
stack_top_of panicked = 0

-- The stack is found here, and syscall_init does not panic.
calling_has_stack : stack_top_of (syscall_init 0x1000 calling) ≡ 0xffffffffb0005000
unfolding syscall_init bitmap_find_first_clear bitmap_test bitmap_set load store load64 store64
    memset vmm_alloc_guarded pmm_alloc_frame quin_kernel_template.Bitmap.bitmap_clear
    quin_kernel_template.Pmm.pmm_free_frame quin_kernel_template.Syscall.enable_syscalls
    quin_kernel_template.Vmm.current_pml4 quin_kernel_template.Vmm.descend
    quin_kernel_template.Vmm.ensure_next_level quin_kernel_template.Vmm.map_pages
    quin_kernel_template.Vmm.or_if quin_kernel_template.Vmm.page_table_indices
    quin_kernel_template.Vmm.phys_to_virt_table quin_kernel_template.Vmm.set_leaf
    quin_kernel_template.Vmm.translate_flags quin_kernel_template.Vmm.vmm_map
    quin_kernel_template.Vmm.walk
calling_has_stack = refl

init-Entered_example :
    Entered 0x1000 calling
      (vmm_alloc_guarded calling.vmm syscall_kernel_stack_pages vmm_writable)
      (syscall_init 0x1000 calling)
init-Entered_example = init-Entered 0x1000 calling
