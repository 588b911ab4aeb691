-- ===== src/Pmm/Marking.antt =====
-- The marking loops of `pmm_init`: the bits that they leave, and that the free count follows them.
use quin_kernel_template.Base.{
  ℕ, zero, suc, ◌+◌, ◌-◌, ◌*◌, ◌/◌, ◌%◌, ◌^◌, ◌≤◌, ◌<◌, ◌≡◌, refl, Bool, true, not, arith, u64,
  ◌==◌, ◌&&◌, bit_and, ◌<<<◌, u8, ◌||◌, leb, ltb, if◌then◌else◌, List, [], ◌∷◌, Bool-cases, inl,
  inr,
}
use quin_kernel_template.Base.Table.{holds_to, holds_to_at}
use quin_kernel_template.Bitmap.{bitmap_test, bitmap_clear}
use quin_kernel_template.Bitmap.Bit.{test-set, test-clear}
use quin_kernel_template.Boot.{MemmapEntry}
use quin_kernel_template.Memory.{Memory, within}
use quin_kernel_template.Pmm.{
  page_size, Marks, is_usable, highest_end, release_frames, release_regions, claim_frame,
  claim_frames,
}
use quin_kernel_template.Strings.{memset}
use quin_kernel_template.Strings.Copy.{memset_lem}
use quin_kernel_template.Pmm.Valid.{clear_count, clear_count-le, clear_count-set, clear_count-clear}
use quin_kernel_template.Pmm.Memmap.{
  in_entry, usable_frame, IsWhole, IsMap, next_highest, entry_below,
}

-- The free count is right.
abbrev pub Counted : (bitmap n : ℕ) → Marks → Type 0
Counted bitmap n k = k.free ≡ clear_count k.mem bitmap n

module _ (bitmap n : ℕ) (few : n < 2 ^ 64) where
  release_frames_test :
      (left frame j : ℕ) (k : Marks)
      → bitmap_test (release_frames bitmap left frame k).mem bitmap j
        ≡ (not (leb frame j && ltb j (frame + left)) && bitmap_test k.mem bitmap j)
  unfolding release_frames
  release_frames_test zero frame j k = ground arith
  release_frames_test (suc left) frame j k = ground (
    arith,
    release_frames_test left (frame + 1) j
        (record { mem = bitmap_clear k.mem bitmap frame; free = u64 (k.free + 1) }),
    test-clear k.mem bitmap frame j,
  )

  release_frames-Counted :
      (left frame : ℕ) (k : Marks)
      → frame + left ≤ n
      → ((j : ℕ) → frame ≤ j → j < frame + left → bitmap_test k.mem bitmap j ≡ true)
      → Counted bitmap n k
      → Counted bitmap n (release_frames bitmap left frame k)
  unfolding release_frames
  release_frames-Counted zero frame k room set c = c
  release_frames-Counted (suc left) frame k room set c =
      release_frames-Counted left (frame + 1)
        (record { mem = bitmap_clear k.mem bitmap frame; free = u64 (k.free + 1) }) (omega arith)
        (λ j lo hi. ground (arith, set j, test-clear k.mem bitmap frame j))
        (ground (
          arith,
          c,
          set frame,
          clear_count-clear k.mem bitmap frame n,
          clear_count-le (bitmap_clear k.mem bitmap frame) bitmap n,
        ))

  pub claim_frame_test :
      (frame j : ℕ) (k : Marks)
      → bitmap_test (claim_frame bitmap frame k).mem bitmap j
        ≡ (frame == j || bitmap_test k.mem bitmap j)
  unfolding claim_frame
  claim_frame_test frame j k = ground (arith, test-set k.mem bitmap frame j)

  pub claim_frame-Counted :
      (frame : ℕ) (k : Marks)
      → frame < n
      → Counted bitmap n k
      → Counted bitmap n (claim_frame bitmap frame k)
  unfolding claim_frame
  claim_frame-Counted frame k room c =
      ground (arith, c, clear_count-set k.mem bitmap frame n, clear_count-le k.mem bitmap n)

  pub claim_frames_test :
      (left frame j : ℕ) (k : Marks)
      → bitmap_test (claim_frames bitmap left frame k).mem bitmap j
        ≡ ((leb frame j && ltb j (frame + left)) || bitmap_test k.mem bitmap j)
  unfolding claim_frames
  claim_frames_test zero frame j k = ground arith
  claim_frames_test (suc left) frame j k = ground (
    arith,
    claim_frames_test left (frame + 1) j (claim_frame bitmap frame k),
    claim_frame_test frame j k,
  )

  pub claim_frames-Counted :
      (left frame : ℕ) (k : Marks)
      → frame + left ≤ n
      → Counted bitmap n k
      → Counted bitmap n (claim_frames bitmap left frame k)
  unfolding claim_frames
  claim_frames-Counted zero frame k room c = c
  claim_frames-Counted (suc left) frame k room c =
      claim_frames-Counted left (frame + 1) (claim_frame bitmap frame k) (omega arith)
        (claim_frame-Counted frame k (omega arith) c)

  abbrev release_entry : MemmapEntry → Marks → Marks
  release_entry e k =
      if is_usable e.kind
      then release_frames bitmap (u64 (e.base + e.length) / page_size - e.base / page_size)
          (e.base / page_size) k
      else k

  release_entry_test :
      (e : MemmapEntry) (j : ℕ) (k : Marks)
      → (is_usable e.kind ≡ true → IsWhole e)
      → bitmap_test (release_entry e k).mem bitmap j
        ≡ (not (in_entry e j) && bitmap_test k.mem bitmap j)
  unfolding in_entry
  release_entry_test e j k whole = elim (Bool-cases (is_usable e.kind)) [
    | inr skipped ↦ ground (arith, skipped)
    | inl kind ↦
        let w : IsWhole e = whole kind in
        let left = u64 (e.base + e.length) / page_size - e.base / page_size in
        let round = release_frames_test left (e.base / page_size) j k in
        ground (arith, w.fits, kind, round)
  ]

  pub release_regions_test :
      (es : List MemmapEntry) (j : ℕ) (k : Marks)
      → IsMap es
      → bitmap_test (release_regions bitmap es k).mem bitmap j
        ≡ (not (usable_frame es j) && bitmap_test k.mem bitmap j)
  unfolding release_regions usable_frame
  release_regions_test [] j k m = ground arith
  release_regions_test (e ∷ es) j k m =
      let here = release_entry_test e j k m.0 in
      let later = release_regions_test es j (release_entry e k) m.2 in ground (arith, here, later)

  release_entry-Counted :
      (e : MemmapEntry) (es : List MemmapEntry) (h : ℕ) (k : Marks)
      → (is_usable e.kind ≡ true → IsWhole e)
      → highest_end (e ∷ es) h / page_size ≤ n
      → ((j : ℕ) → in_entry e j ≡ true → bitmap_test k.mem bitmap j ≡ true)
      → Counted bitmap n k
      → Counted bitmap n (release_entry e k)
  unfolding in_entry
  release_entry-Counted e es h k whole top set c = elim (Bool-cases (is_usable e.kind)) [
    | inr skipped ↦ ground (arith, skipped, c)
    | inl kind ↦
        let w : IsWhole e = whole kind in
        let below = entry_below e es h kind w in
        let left = u64 (e.base + e.length) / page_size - e.base / page_size in
        let fits : e.base / page_size + left ≤ n = omega (arith, w.fits, below, top) in
        let round =
          release_frames-Counted left (e.base / page_size) k fits
            (λ j lo hi. set j (ground (arith, w.fits, kind, lo, hi))) c in
        ground (arith, kind, round)
  ]

  pub release_regions-Counted :
      (es : List MemmapEntry) (h : ℕ) (k : Marks)
      → IsMap es
      → highest_end es h / page_size ≤ n
      → ((j : ℕ) → usable_frame es j ≡ true → bitmap_test k.mem bitmap j ≡ true)
      → Counted bitmap n k
      → Counted bitmap n (release_regions bitmap es k)
  unfolding release_regions usable_frame highest_end
  release_regions-Counted [] h k m top set c = c
  release_regions-Counted (e ∷ es) h k m top set c =
      release_regions-Counted es (next_highest e h) (release_entry e k) m.2 top
        (λ j u. ground (arith, u, set j, m.1 j, release_entry_test e j k m.0))
        (release_entry-Counted e es h k m.0 top (λ j i. set j (ground (arith, i))) c)

bit_of_full : ℕ → Bool
bit_of_full i = not (bit_and 0xff (u8 (1 <<< i)) == 0)

full_table : holds_to 8 bit_of_full ≡ true
unfolding holds_to bit_of_full
full_table = refl

pub filled_test :
    (m : Memory) (bitmap bytes j : ℕ)
    → j < bytes * 8
    → bitmap_test (memset m bitmap 0xff bytes) bitmap j ≡ true
unfolding bitmap_test bit_of_full
filled_test m bitmap bytes j lt =
    let i : within bitmap bytes (bitmap + j / 8) ≡ true = ground arith in
    rw (memset_lem m bitmap 0xff bytes (bitmap + j / 8), i)
      (holds_to_at 8 bit_of_full (j % 8) full_table (omega arith))

pub clear_count_full :
    (m : Memory) (bitmap n : ℕ)
    → ((j : ℕ) → j < n → bitmap_test m bitmap j ≡ true)
    → clear_count m bitmap n ≡ 0
unfolding clear_count
clear_count_full m bitmap zero h = refl
clear_count_full m bitmap (suc n) h =
    ground (arith, h n (omega arith), clear_count_full m bitmap n (λ j lt. h j (omega arith)))
