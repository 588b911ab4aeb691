-- ===== src/Vmm.antt =====
-- kernel/arch/x86_64/mm/vmm.c: mapping pages by the four-level page tables that live in frames of
-- the frame allocator. `Vmm` holds the static variables, the register CR3, the frame allocator's
-- state and the memory. There is no translation cache here, so `invlpg` has no effect to model.
pub mod Entry
pub mod Lazy
pub mod Word
pub mod Tree
pub mod Tables
pub mod Walk
pub mod Reach
pub mod Translate
pub mod Map
pub mod Unmap
pub mod Fault
pub mod GiveBack
pub mod Region
pub mod Guarded
pub mod Store
mod Tests
use quin_kernel_template.Base.{
  ℕ, zero, suc, ◌+◌, ◌-◌, ◌*◌, ◌/◌, ◌^◌, Bool, true, false, not, ◌&&◌, List, [], ◌∷◌, u64, leb, ltb,
  ◌==◌, if◌then◌else◌, bit_and, bit_or,
}
use quin_kernel_template.Align.{align_down}
use quin_kernel_template.Memory.{Memory, load64, store64}
use quin_kernel_template.Panic.{Outcome, ok, panicked, ◌>>=◌}
use quin_kernel_template.Pmm.{Pmm, page_size, pmm_alloc_frame, pmm_free_frame}

abbrev pub pte_present : ℕ
pte_present = 1

abbrev pub pte_writable : ℕ
pte_writable = 2

abbrev pub pte_user : ℕ
pte_user = 4

abbrev pub pte_cache_disable : ℕ
pte_cache_disable = 16

abbrev pub pte_no_execute : ℕ
pte_no_execute = 2 ^ 63

abbrev pub pte_addr_mask : ℕ
pte_addr_mask = 0x000ffffffffff000

abbrev pub vmm_writable : ℕ
vmm_writable = 1

abbrev pub vmm_user : ℕ
vmm_user = 2

abbrev pub vmm_no_cache : ℕ
vmm_no_cache = 4

abbrev pub vmm_no_execute : ℕ
vmm_no_execute = 8

pub record LazyRegion : Type 0 where
  pub start : ℕ
  pub end : ℕ
  pub flags : ℕ
  pub used : Bool

pub record Vmm : Type 0 where
  pub hhdm_offset : ℕ
  pub dynamic_next_vaddr : ℕ
  pub mmio_next_vaddr : ℕ
  pub lazy_regions : List LazyRegion
  pub cr3 : ℕ
  pub pmm : Pmm
  pub mem : Memory

unfoldable pub phys_to_virt_table : Vmm → ℕ → ℕ
phys_to_virt_table s phys = u64 (phys + s.hhdm_offset)

unfoldable pub current_pml4 : Vmm → ℕ
unfolding phys_to_virt_table
current_pml4 s = phys_to_virt_table s (bit_and s.cr3 pte_addr_mask)

-- `if (flags & flag) pte_flags |= bit`
unfoldable pub or_if : (flags flag bit pte_flags : ℕ) → ℕ
or_if flags flag bit pte_flags =
    if not (bit_and flags flag == 0) then bit_or pte_flags bit else pte_flags

unfoldable pub translate_flags : ℕ → ℕ
unfolding or_if
translate_flags flags = or_if flags vmm_no_execute pte_no_execute (
    or_if flags vmm_no_cache pte_cache_disable
      (or_if flags vmm_user pte_user (or_if flags vmm_writable pte_writable pte_present)))

pub record Indices : Type 0 where
  pub pml4_i : ℕ
  pub pdpt_i : ℕ
  pub pd_i : ℕ
  pub pt_i : ℕ

unfoldable pub page_table_indices : ℕ → Indices
page_table_indices virt = record {
  pml4_i = bit_and (virt / 2 ^ 39) 511;
  pdpt_i = bit_and (virt / 2 ^ 30) 511;
  pd_i = bit_and (virt / 2 ^ 21) 511;
  pt_i = bit_and (virt / 2 ^ 12) 511;
}

-- `table[index]` and `table[index] = v`
abbrev pub entry : Vmm → (table index : ℕ) → ℕ
entry s table index = load64 s.mem (table + index * 8)

abbrev pub set_entry : Vmm → (table index v : ℕ) → Vmm
set_entry s table index v = record s { mem = store64 s.mem (table + index * 8) v }

abbrev pub present : ℕ → Bool
present e = not (bit_and e pte_present == 0)

-- `pmm_alloc_frame`, on the state it shares with this component.
abbrev pub take_frame : Vmm → Vmm × ℕ
take_frame s = let r = pmm_alloc_frame s.pmm s.mem in (record s { pmm = r.0; mem = r.1 }, r.2)

-- The state after, and the table's address, 0 for NULL.
unfoldable pub ensure_next_level : Vmm → (table index : ℕ) → Vmm × ℕ
unfolding phys_to_virt_table
ensure_next_level s table index =
    let new = take_frame s in
    let linked =
      set_entry new.0 table index
        (bit_or (bit_or (bit_or new.1 pte_present) pte_writable) pte_user) in
    if not (present (entry s table index))
    then if new.1 == 0
      then (new.0, 0)
      else (linked, phys_to_virt_table linked (bit_and (entry linked table index) pte_addr_mask))
    else (s, phys_to_virt_table s (bit_and (entry s table index) pte_addr_mask))

-- `table != NULL ? ensure_next_level(table, index) : NULL`
unfoldable pub descend : Vmm × ℕ → (index : ℕ) → Vmm × ℕ
unfolding ensure_next_level
descend r index = if r.1 == 0 then r else ensure_next_level r.0 r.1 index

-- The page table that the first three indices lead to, made on the way where it is missing.
unfoldable pub walk : Vmm → Indices → Vmm × ℕ
unfolding ensure_next_level descend current_pml4
walk s i = descend (descend (ensure_next_level s (current_pml4 s) i.pml4_i) i.pdpt_i) i.pd_i

unfoldable pub set_leaf : Vmm × ℕ → (pt_i phys flags : ℕ) → Vmm × Bool
unfolding translate_flags
set_leaf pt pt_i phys flags = if pt.1 == 0 then (pt.0, false) else (
  set_entry pt.0 pt.1 pt_i (bit_or (bit_and phys pte_addr_mask) (translate_flags flags)),
  true,
)

unfoldable pub vmm_map : Vmm → (virt phys flags : ℕ) → Vmm × Bool
unfolding walk set_leaf page_table_indices
vmm_map s virt phys flags = let i = page_table_indices virt in set_leaf (walk s i) i.pt_i phys flags

-- `vmm_unmap` from the indices on.
unfoldable pub unmap_at : Vmm → Indices → Vmm
unfolding current_pml4 phys_to_virt_table
unmap_at s i =
    let pml4_table = current_pml4 s in
    let pdpt = phys_to_virt_table s (bit_and (entry s pml4_table i.pml4_i) pte_addr_mask) in
    let pd = phys_to_virt_table s (bit_and (entry s pdpt i.pdpt_i) pte_addr_mask) in
    let pt = phys_to_virt_table s (bit_and (entry s pd i.pd_i) pte_addr_mask) in
    if not (present (entry s pml4_table i.pml4_i))
    then s
    else if not (present (entry s pdpt i.pdpt_i))
    then s
    else if not (present (entry s pd i.pd_i))
    then s
    else set_entry s pt i.pt_i 0

unfoldable pub vmm_unmap : Vmm → (virt : ℕ) → Vmm
unfolding page_table_indices unmap_at
vmm_unmap s virt = unmap_at s (page_table_indices virt)

abbrev pub max_lazy_regions : ℕ
max_lazy_regions = 8

-- The loop of `vmm_register_lazy_region`: the table with the first unused entry filled.
unfoldable pub register : List LazyRegion → (start end flags : ℕ) → List LazyRegion × Bool
register [] start end flags = ([], false)
register (r ∷ rs) start end flags =
    let rest = register rs start end flags in
    if not r.used
    then (record { start = start; end = end; flags = flags; used = true } ∷ rs, true)
    else (r ∷ rest.0, rest.1)

unfoldable pub vmm_register_lazy_region : Vmm → (start end flags : ℕ) → Vmm × Bool
unfolding register
vmm_register_lazy_region s start end flags =
    let r = register s.lazy_regions start end flags in (record s { lazy_regions = r.0 }, r.1)

unfoldable pub covers : ℕ → LazyRegion → Bool
covers page r = r.used && leb r.start page && ltb page r.end

-- The loop of `vmm_handle_page_fault`: it returns at the first region that covers the page.
unfoldable pub fault_in : Vmm → (page : ℕ) → List LazyRegion → Vmm × Bool
unfolding covers vmm_map
fault_in s page [] = (s, false)
fault_in s page (r ∷ rs) =
    let rest = fault_in s page rs in
    let new = take_frame s in
    if covers page r
    then if new.1 == 0 then (new.0, false) else vmm_map new.0 page new.1 r.flags
    else rest

unfoldable pub vmm_handle_page_fault : Vmm → (fault_addr error_code : ℕ) → Vmm × Bool
unfolding fault_in align_down
vmm_handle_page_fault s fault_addr error_code =
    if not (bit_and error_code 0x1 == 0)
    then (s, false)
    else fault_in s (align_down fault_addr page_size) s.lazy_regions

-- CR2 holds the address of the fault.
unfoldable pub page_fault_isr : Vmm → (cr2 error_code : ℕ) → Outcome Vmm
unfolding vmm_handle_page_fault
page_fault_isr s cr2 error_code =
    let r = vmm_handle_page_fault s cr2 error_code in if not r.1 then panicked else ok r.0

-- The state at boot, with `vmm_init` done; with_page_faults of Isr/Dispatch is its last call, which
-- registers `page_fault_isr`.
unfoldable pub vmm_init : (hhdm_offset cr3 : ℕ) → Pmm → Memory → Vmm
vmm_init hhdm_offset cr3 pmm mem = record {
  hhdm_offset = hhdm_offset;
  dynamic_next_vaddr = 0xffffffffb0000000;
  mmio_next_vaddr = 0xffffffffc0000000;
  lazy_regions = unused_regions max_lazy_regions;
  cr3 = cr3;
  pmm = pmm;
  mem = mem;
}
  where
    unused_regions : ℕ → List LazyRegion
    unused_regions zero = []
    unused_regions (suc n) =
        record { start = 0; end = 0; flags = 0; used = false } ∷ unused_regions n

-- The loop of `vmm_alloc_guarded`, with `left` rounds to go; 0 for NULL.
unfoldable pub map_pages : Vmm → (region_start flags left i : ℕ) → Outcome (Vmm × ℕ)
unfolding vmm_map
map_pages s region_start flags zero i = ok (s, region_start)
map_pages s region_start flags (suc left) i =
    let new = take_frame s in
    let mapped = vmm_map new.0 (u64 (region_start + i * page_size)) new.1 flags in
    let rest = map_pages mapped.0 region_start flags left (i + 1) in
    let freed = pmm_free_frame mapped.0.pmm mapped.0.mem new.1 in
    if new.1 == 0
    then ok (new.0, 0)
    else if not mapped.1
    then (freed >>= λ r. ok (record mapped.0 { pmm = r.0; mem = r.1 }, 0))
    else rest

unfoldable pub vmm_alloc_guarded : Vmm → (page_count flags : ℕ) → Outcome (Vmm × ℕ)
unfolding map_pages
vmm_alloc_guarded s page_count flags =
    let region_start = u64 (s.dynamic_next_vaddr + page_size) in
    let region_end = u64 (region_start + page_count * page_size) in
    map_pages (record s { dynamic_next_vaddr = u64 (region_end + page_size) }) region_start flags
      page_count 0

unfoldable pub vmm_map_mmio : Vmm → (phys_addr : ℕ) → Outcome (Vmm × ℕ)
unfolding vmm_map
vmm_map_mmio s phys_addr =
    let virt = s.mmio_next_vaddr in
    let next = record s { mmio_next_vaddr = u64 (s.mmio_next_vaddr + page_size) } in
    let mapped =
      vmm_map next virt phys_addr (bit_or (bit_or vmm_writable vmm_no_cache) vmm_no_execute) in
    if not mapped.1 then panicked else ok (mapped.0, virt)
