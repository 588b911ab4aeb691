-- ===== src/Pmm/Init.antt =====
-- `pmm_init`: that it establishes the invariant, and which frames it leaves free.
use quin_kernel_template.Base.{
  ℕ, ◌+◌, ◌-◌, ◌/◌, ◌^◌, ◌≤◌, ◌<◌, ◌≡◌, ◌≢◌, refl, sym, subst, Bool, true, not, arith, u64, ◌==◌,
  ◌&&◌, ◌||◌, leb, ltb, if◌then◌else◌, Option, none, some, List, Bool-cases, inl, inr,
}
use quin_kernel_template.Align.{align_up, mask_by_8, mask_by_4096}
use quin_kernel_template.Bitmap.{bitmap_test}
use quin_kernel_template.Boot.{MemmapEntry, boot_get_memmap}
use quin_kernel_template.Memory.{Memory}
use quin_kernel_template.Panic.{Outcome, ok, panicked}
use quin_kernel_template.Pmm.{
  Pmm, page_size, Marks, highest_end, bitmap_region, release_regions, claim_frame, claim_frames,
  init_bitmap, pmm_init,
}
use quin_kernel_template.Strings.{memset}
use quin_kernel_template.Pmm.Valid.{IsValid}
use quin_kernel_template.Pmm.Memmap.{
  usable_frame, IsMap, usable_frame-lt, Placed, bitmap_region-Placed, highest_end-lt,
}
use quin_kernel_template.Pmm.Marking.{
  Counted, claim_frame_test, claim_frame-Counted, claim_frames_test, claim_frames-Counted,
  release_regions_test, release_regions-Counted, filled_test, clear_count_full,
}

bytes_for : (count : ℕ) → count < 2 ^ 60 → align_up count 8 / 8 ≡ (count + 7) / 8
unfolding align_up
bytes_for count small = omega (arith, mask_by_8 (u64 (count + 7)))

pages_for :
    (bytes : ℕ) → bytes < 2 ^ 60 → align_up bytes page_size / page_size ≡ (bytes + 4095) / page_size
unfolding align_up
pages_for bytes small = omega (arith, mask_by_4096 (u64 (bytes + 4095)))

-- The frames that the bitmap takes.
abbrev pub bitmap_frame : Pmm → ℕ → Bool
bitmap_frame s j =
    let first = (s.bitmap - s.hhdm_offset) / page_size in
    leb first j && ltb j (first + ((s.frame_count + 7) / 8 + 4095) / page_size)

-- What `pmm_init` leaves, for a memory map.
pub record Started (hhdm_offset : ℕ) (es : List MemmapEntry) (s : Pmm) (m : Memory) : Type 0 where
  pub offset : s.hhdm_offset ≡ hhdm_offset
  pub all_memory : s.frame_count ≡ highest_end es 0 / page_size
  pub valid : IsValid s m
  pub frames :
      (j : ℕ)
      → j < s.frame_count
      → bitmap_test m s.bitmap j ≡ not (usable_frame es j && not (j == 0 || bitmap_frame s j))

module _ (m : Memory) (hhdm_offset : ℕ) (es : List MemmapEntry) (map : IsMap es)
    (phys count bytes : ℕ) (count_eq : count ≡ highest_end es 0 / page_size)
    (bytes_eq : bytes ≡ (count + 7) / 8) (some_place : phys ≢ 0)
    (placed : Placed phys bytes (highest_end es 0))
    (fits : hhdm_offset + highest_end es 0 ≤ 2 ^ 64) where
  abbrev bitmap : ℕ
  bitmap = u64 (phys + hhdm_offset)

  abbrev filled : Marks
  filled = record { mem = memset m bitmap 0xff bytes; free = 0 }

  abbrev released : Marks
  released = release_regions bitmap es filled

  abbrev pages : ℕ
  pages = align_up bytes page_size / page_size

  abbrev claimed : Marks
  claimed = claim_frames bitmap pages (phys / page_size) released

  abbrev done : Marks
  done = claim_frame bitmap 0 claimed

  few : count < 2 ^ 52
  few = omega (arith, count_eq, highest_end-lt es 0 (omega arith))

  few_words : count < 2 ^ 64
  few_words = omega (arith, few)

  pages_eq : pages ≡ (bytes + 4095) / page_size
  pages_eq = pages_for bytes (omega (arith, few, bytes_eq))

  some_frame : 0 < count
  some_frame = omega (arith, some_place, placed.0, placed.1, count_eq)

  in_memory : phys / page_size + pages ≤ count
  in_memory = omega (arith, placed.0, placed.1, count_eq, pages_eq)

  bitmap_eq : bitmap ≡ phys + hhdm_offset
  bitmap_eq = omega (arith, fits, placed.1, bytes_eq, some_frame)

  filled_all : (j : ℕ) → j < count → bitmap_test filled.mem bitmap j ≡ true
  filled_all j lt = filled_test m bitmap bytes j (omega (arith, bytes_eq))

  done_test :
      (j : ℕ)
      → j < count
      → bitmap_test done.mem bitmap j
        ≡ not (
            usable_frame es j
            && not (j == 0 || (leb (phys / page_size) j && ltb j (phys / page_size + pages))))
  done_test j lt =
      let claim0 = claim_frame_test bitmap count few_words 0 j claimed in
      let claims = claim_frames_test bitmap count few_words pages (phys / page_size) j released in
      let frees = release_regions_test bitmap count few_words es j filled map in
      let start = filled_all j lt in ground (arith, claim0, claims, frees, start)

  done-Counted : Counted bitmap count done
  done-Counted =
      let start : Counted bitmap count filled =
        sym (clear_count_full filled.mem bitmap count filled_all) in
      let top : highest_end es 0 / page_size ≤ count = omega (arith, count_eq) in
      let frees =
        release_regions-Counted bitmap count few_words es 0 filled map top
          (λ j u. filled_all j (omega (arith, count_eq, usable_frame-lt es 0 j map u))) start in
      let claims =
        claim_frames-Counted bitmap count few_words pages (phys / page_size) released in_memory
          frees in
      claim_frame-Counted bitmap count few_words 0 claimed some_frame claims

  own_used_after :
      (j : ℕ)
      → j < count
      → bitmap_test done.mem bitmap ((bitmap - hhdm_offset + j / 8) / page_size) ≡ true
  own_used_after j lt =
      let byte = phys + j / 8 in
      let place : bitmap - hhdm_offset + j / 8 ≡ byte = omega (arith, bitmap_eq) in
      let first : phys / page_size ≤ byte / page_size = omega arith in
      let last : byte / page_size < phys / page_size + pages =
        omega (arith, pages_eq, bytes_eq, placed.0, lt) in
      let used : bitmap_test done.mem bitmap (byte / page_size) ≡ true =
        ground
          (arith, first, last, done_test (byte / page_size) (omega (arith, last, in_memory))) in
      subst (λ b. bitmap_test done.mem bitmap (b / page_size) ≡ true) (sym place) used

  init_bitmap-Started :
      let r = init_bitmap m hhdm_offset count bytes phys es in Started hhdm_offset es r.0 r.1
  unfolding init_bitmap
  init_bitmap-Started = record {
    offset = refl;
    all_memory = count_eq;
    valid = record {
      pos = some_frame;
      small = omega (arith, fits, count_eq);
      above = omega (arith, bitmap_eq);
      own_in_range = λ j lt. omega (arith, bitmap_eq, in_memory, pages_eq, bytes_eq, placed.0, lt);
      own_used = own_used_after;
      zero_used = ground (arith, done_test 0 some_frame);
      counted = done-Counted;
    };
    frames = λ j lt.
        let place : bitmap - hhdm_offset ≡ phys = omega (arith, bitmap_eq) in
        let bytes_pages : pages ≡ ((count + 7) / 8 + 4095) / page_size =
          omega (arith, pages_eq, bytes_eq) in
        rw (place, sym bytes_pages) (done_test j lt);
  }

-- The two outcomes of `pmm_init` on a memory map.
pub data InitResult (hhdm_offset : ℕ) (es : List MemmapEntry)
    : Outcome (Pmm × Memory) → Type 0 where
  no_place :
      bitmap_region es ((highest_end es 0 / page_size + 7) / 8) ≡ 0
      → InitResult hhdm_offset es panicked
  started :
      (s : Pmm) (m : Memory) → Started hhdm_offset es s m → InitResult hhdm_offset es (ok (s, m))

-- `pmm_init` after the bootloader's answer.
init_from :
    Memory
    → (hhdm_offset : ℕ) → (es : List MemmapEntry) → (count bytes phys : ℕ) → Outcome (Pmm × Memory)
init_from m hhdm_offset es count bytes phys =
    if phys == 0 then panicked else ok (init_bitmap m hhdm_offset count bytes phys es)

init_from-InitResult :
    (m : Memory) (hhdm_offset : ℕ) (es : List MemmapEntry)
    → IsMap es
    → hhdm_offset + highest_end es 0 ≤ 2 ^ 64
    → let count = highest_end es 0 / page_size in
      let bytes = (count + 7) / 8 in
      InitResult hhdm_offset es (init_from m hhdm_offset es count bytes (bitmap_region es bytes))
unfolding init_from
init_from-InitResult m hhdm_offset es map fits =
    let count = highest_end es 0 / page_size in
    let bytes = (count + 7) / 8 in
    elim (Bool-cases (bitmap_region es bytes == 0)) [
      | inl nowhere ↦ rw nowhere (no_place (ground arith))
      | inr place ↦
          let some_place : bitmap_region es bytes ≢ 0 = ground arith in
          let placed = bitmap_region-Placed es bytes 0 map some_place in
          let r = init_bitmap m hhdm_offset count bytes (bitmap_region es bytes) es in
          rw place (
            started r.0 r.1 (
              init_bitmap-Started m hhdm_offset es map (bitmap_region es bytes) count bytes refl
                refl some_place placed fits))
    ]

after_answer : Memory → (hhdm_offset : ℕ) → Option (List MemmapEntry) → Outcome (Pmm × Memory)
after_answer m hhdm_offset answer = elim answer [
  | none ↦ panicked
  | some es ↦
      let count = highest_end es 0 / page_size in
      let bytes = align_up count 8 / 8 in
      init_from m hhdm_offset es count bytes (bitmap_region es bytes)
]

-- For a memory map whose usable entries are whole pages below 2^64 that do not overlap, and which
-- the direct map at hhdm_offset covers, pmm_init panics when the first usable entry with room for
-- the bitmap is at address 0 or there is none, and otherwise leaves a well-formed allocator that
-- covers memory up to the highest end, with a frame marked free exactly when it is in a usable
-- entry, is not frame 0, and does not hold the bitmap.
pub pmm_init-InitResult :
    (m : Memory) (hhdm_offset : ℕ) (response : Option (List MemmapEntry)) (es : List MemmapEntry)
    → boot_get_memmap response ≡ some es
    → IsMap es
    → hhdm_offset + highest_end es 0 ≤ 2 ^ 64
    → InitResult hhdm_offset es (pmm_init m hhdm_offset response)
unfolding pmm_init init_from after_answer
pmm_init-InitResult m hhdm_offset response es answer map fits =
    let count = highest_end es 0 / page_size in
    let small : count < 2 ^ 60 = omega (arith, highest_end-lt es 0 (omega arith)) in
    subst (λ o. InitResult hhdm_offset es (after_answer m hhdm_offset o)) (sym answer)
      (subst
        (λ b. InitResult hhdm_offset es (init_from m hhdm_offset es count b (bitmap_region es b)))
        (sym (bytes_for count small)) (init_from-InitResult m hhdm_offset es map fits))
