-- ===== src/Pmm.antt =====
-- kernel/mm/pmm.c: the physical frame allocator over a bitmap that lives in the memory it manages.
-- `Pmm` holds the static variables; the bitmap's bytes are in memory, at the address `bitmap`.
pub mod Valid
pub mod Alloc
pub mod Free
pub mod Memmap
pub mod Marking
pub mod Init
mod Tests
use quin_kernel_template.Base.{
  ℕ, zero, suc, ◌+◌, ◌-◌, ◌*◌, ◌/◌, Bool, true, false, not, ◌&&◌, ◌||◌, Option, none, some, List,
  [], ◌∷◌, u64, sub64, ltb, leb, ◌==◌, if◌then◌else◌,
}
use quin_kernel_template.Align.{align_up}
use quin_kernel_template.Boot.{
  RegionKind, usable, bootloader_reclaimable, executable_and_modules, MemmapEntry, boot_get_memmap,
}
use quin_kernel_template.Bitmap.{bitmap_set, bitmap_clear, bitmap_test, bitmap_find_first_clear}
use quin_kernel_template.Memory.{Memory}
use quin_kernel_template.Panic.{Outcome, ok, panicked}
use quin_kernel_template.Strings.{memset}

abbrev pub page_size : ℕ
page_size = 4096

pub record Pmm : Type 0 where
  pub bitmap : ℕ
  pub frame_count : ℕ
  pub next_search_index : ℕ
  pub hhdm_offset : ℕ
  pub free_frames : ℕ

abbrev pub phys_to_virt : Pmm → ℕ → ℕ
phys_to_virt s phys = u64 (phys + s.hhdm_offset)

-- The regions that the bitmap is sized by.
pub is_ram : RegionKind → Bool
is_ram usable = true
is_ram bootloader_reclaimable = true
is_ram executable_and_modules = true
is_ram _ = false

pub is_usable : RegionKind → Bool
is_usable usable = true
is_usable _ = false

-- The first loop of `pmm_init`.
pub highest_end : List MemmapEntry → ℕ → ℕ
unfolding is_ram
highest_end [] highest = highest
highest_end (e ∷ es) highest =
    let end = u64 (e.base + e.length) in
    highest_end es (if is_ram e.kind && ltb highest end then end else highest)

-- The second loop: the base of the first region that the bitmap fits in, and 0 if there is none.
pub bitmap_region : List MemmapEntry → ℕ → ℕ
unfolding is_usable
bitmap_region [] bytes = 0
bitmap_region (e ∷ es) bytes =
    let rest = bitmap_region es bytes in
    elim (is_usable e.kind) [ true ↦ if leb bytes e.length then e.base else rest | false ↦ rest ]

-- Memory and `free_frames` as the marking loops update them.
pub record Marks : Type 0 where
  pub mem : Memory
  pub free : ℕ

-- for (frame; frame < end_frame; frame++), with `left` rounds to go.
pub release_frames : (bitmap left frame : ℕ) → Marks → Marks
release_frames bitmap zero frame k = k
release_frames bitmap (suc left) frame k =
    release_frames bitmap left (frame + 1)
      (record { mem = bitmap_clear k.mem bitmap frame; free = u64 (k.free + 1) })

pub release_regions : (bitmap : ℕ) → List MemmapEntry → Marks → Marks
unfolding is_usable
release_regions bitmap [] k = k
release_regions bitmap (e ∷ es) k =
    let start = e.base / page_size in
    let end = u64 (e.base + e.length) / page_size in
    release_regions bitmap es
      (if is_usable e.kind then release_frames bitmap (end - start) start k else k)

pub claim_frame : (bitmap frame : ℕ) → Marks → Marks
claim_frame bitmap frame k =
    if not (bitmap_test k.mem bitmap frame)
    then record { mem = bitmap_set k.mem bitmap frame; free = sub64 k.free 1 }
    else k

pub claim_frames : (bitmap left frame : ℕ) → Marks → Marks
unfolding claim_frame
claim_frames bitmap zero frame k = k
claim_frames bitmap (suc left) frame k =
    claim_frames bitmap left (frame + 1) (claim_frame bitmap frame k)

-- From the choice of the bitmap's place on.
pub init_bitmap :
    Memory
    → (hhdm_offset frame_count bitmap_bytes bitmap_phys : ℕ) → List MemmapEntry
    → Pmm × Memory
unfolding release_frames release_regions claim_frames
init_bitmap m hhdm_offset frame_count bitmap_bytes bitmap_phys entries =
    let bitmap = u64 (bitmap_phys + hhdm_offset) in
    let filled : Marks = record { mem = memset m bitmap 0xff bitmap_bytes; free = 0 } in
    let released = release_regions bitmap entries filled in
    let first = bitmap_phys / page_size in
    let claimed =
      claim_frames bitmap (align_up bitmap_bytes page_size / page_size) first released in
    let done = claim_frame bitmap 0 claimed in
    (
      record {
        bitmap = bitmap;
        frame_count = frame_count;
        next_search_index = 0;
        hhdm_offset = hhdm_offset;
        free_frames = done.free;
      },
      done.mem,
    )

pub pmm_init : Memory → (hhdm_offset : ℕ) → Option (List MemmapEntry) → Outcome (Pmm × Memory)
unfolding highest_end bitmap_region init_bitmap
pmm_init m hhdm_offset response = elim (boot_get_memmap response) [
  | none ↦ panicked
  | some entries ↦
      let frame_count = highest_end entries 0 / page_size in
      let bitmap_bytes = align_up frame_count 8 / 8 in
      let bitmap_phys = bitmap_region entries bitmap_bytes in
      if bitmap_phys == 0
      then panicked
      else ok (init_bitmap m hhdm_offset frame_count bitmap_bytes bitmap_phys entries)
]

-- The new state, the new memory and the physical address, 0 when no frame is left.
unfoldable pub pmm_alloc_frame : Pmm → Memory → Pmm × Memory × ℕ
pmm_alloc_frame s m =
    let frame = bitmap_find_first_clear m s.bitmap s.frame_count s.next_search_index in
    if frame == s.frame_count then (s, m, 0) else (
      record s { free_frames = sub64 s.free_frames 1; next_search_index = u64 (frame + 1) },
      memset (bitmap_set m s.bitmap frame) (phys_to_virt s (u64 (frame * page_size))) 0 page_size,
      u64 (frame * page_size),
    )

unfoldable pub pmm_free_frame : Pmm → Memory → ℕ → Outcome (Pmm × Memory)
pmm_free_frame s m phys_addr =
    let frame = phys_addr / page_size in
    if leb s.frame_count frame || not (bitmap_test m s.bitmap frame)
    then panicked
    else ok (record s { free_frames = u64 (s.free_frames + 1) }, bitmap_clear m s.bitmap frame)

abbrev pub pmm_free_frame_count : Pmm → ℕ
pmm_free_frame_count s = s.free_frames

abbrev pub pmm_total_frame_count : Pmm → ℕ
pmm_total_frame_count s = s.frame_count
