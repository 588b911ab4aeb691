-- ===== src/Pmm/Alloc.antt =====
-- `pmm_alloc_frame`: which frame it gives, what it changes, and that it keeps the invariant.
use quin_kernel_template.Base.{
  ℕ, ◌+◌, ◌*◌, ◌/◌, ◌≤◌, ◌<◌, ◌≡◌, ◌≢◌, refl, sym, ◌∙◌, true, false, arith, if◌then◌else◌, u64,
  ◌==◌, ◌||◌, sub64, Bool-cases, inl, inr,
}
use quin_kernel_template.Bitmap.{bitmap_test, bitmap_set, bitmap_find_first_clear}
use quin_kernel_template.Bitmap.Bit.{test-set, load-set_away, test-load}
use quin_kernel_template.Bitmap.Search.{find_first_clear_iff}
use quin_kernel_template.Memory.{Memory, load, within}
use quin_kernel_template.Pmm.{Pmm, page_size, phys_to_virt, pmm_alloc_frame}
use quin_kernel_template.Pmm.Valid.{
  own_frame, IsValid, IsFree, clear_count-le, clear_count_ext, clear_count-set,
}
use quin_kernel_template.Strings.{memset}
use quin_kernel_template.Strings.Copy.{memset_lem}

-- What a call that gives frame `f` has done.
pub record Allocated (s : Pmm) (m : Memory) (f : ℕ) (s' : Pmm) (m' : Memory) : Type 0 where
  pub was_free : IsFree s m f
  pub not_zero : f ≢ 0
  pub same_place :
      (s'.bitmap ≡ s.bitmap) × (s'.frame_count ≡ s.frame_count) × (s'.hhdm_offset ≡ s.hhdm_offset)
  pub now_used :
      (j : ℕ) → j < s.frame_count → bitmap_test m' s.bitmap j ≡ (f == j || bitmap_test m s.bitmap j)
  pub zeroed : (a : ℕ) → a < page_size → load m' (s.hhdm_offset + f * page_size + a) ≡ 0
  pub elsewhere :
      (a : ℕ)
      → within (s.hhdm_offset + f * page_size) page_size a ≡ false
      → a ≢ s.bitmap + f / 8
      → load m' a ≡ load m a
  pub one_less : s'.free_frames + 1 ≡ s.free_frames

module _ {s : Pmm} {m : Memory} (v : IsValid s m) where
  module _ (f : ℕ) (free : IsFree s m f) where
    frame_address : phys_to_virt s (u64 (f * page_size)) ≡ s.hhdm_offset + f * page_size
    frame_address = omega (arith, v.small)

    abbrev after : Memory
    after = memset (bitmap_set m s.bitmap f) (phys_to_virt s (u64 (f * page_size))) 0 page_size

    load-after :
        (a : ℕ)
        → load after a ≡ (
            if within (s.hhdm_offset + f * page_size) page_size a
            then 0
            else load (bitmap_set m s.bitmap f) a)
    load-after a =
        rw frame_address
          (memset_lem (bitmap_set m s.bitmap f) (s.hhdm_offset + f * page_size) 0 page_size a)

    own_byte :
        (j : ℕ)
        → j < s.frame_count
        → within (s.hhdm_offset + f * page_size) page_size (s.bitmap + j / 8) ≡ false
    own_byte j lt = ground (arith, v.own_used j lt, v.above)

    test-after :
        (j : ℕ)
        → j < s.frame_count
        → bitmap_test after s.bitmap j ≡ (f == j || bitmap_test m s.bitmap j)
    test-after j lt =
        test-load after (bitmap_set m s.bitmap f) s.bitmap j
          (ground (arith, load-after (s.bitmap + j / 8), own_byte j lt))
        ∙ test-set m s.bitmap f j

    abbrev next : Pmm
    next = record s { free_frames = sub64 s.free_frames 1; next_search_index = u64 (f + 1) }

    one_less_lem : next.free_frames + 1 ≡ s.free_frames
    one_less_lem = ground (
      arith,
      v.counted,
      v.small,
      clear_count-le m s.bitmap s.frame_count,
      clear_count-set m s.bitmap f s.frame_count,
    )

    next-Allocated : Allocated s m f next after
    next-Allocated = record {
      was_free = free;
      not_zero = ground (arith, v.zero_used);
      same_place = (refl, refl, refl);
      now_used = test-after;
      zeroed = λ a lt. ground (arith, load-after (s.hhdm_offset + f * page_size + a));
      elsewhere = λ a out away. ground (arith, load-after a, load-set_away m s.bitmap f a away);
      one_less = one_less_lem;
    }

    next-IsValid : IsValid next after
    next-IsValid = record {
      pos = v.pos;
      small = v.small;
      above = v.above;
      own_in_range = v.own_in_range;
      own_used =
          λ j lt. ground (arith, v.own_used j lt, v.own_in_range j lt, test-after (own_frame s j));
      zero_used = ground (arith, v.zero_used, v.pos, test-after 0);
      counted = ground (
        arith,
        one_less_lem,
        v.counted,
        clear_count-set m s.bitmap f s.frame_count,
        clear_count_ext after (bitmap_set m s.bitmap f) s.bitmap s.frame_count
            (λ j lt. test-after j lt ∙ sym (test-set m s.bitmap f j)),
      );
    }

-- The two outcomes of a call.
pub data AllocResult (s : Pmm) (m : Memory) (r : Pmm × Memory × ℕ) : Type 0 where
  exhausted :
      r ≡ (s, m, 0)
      → ((f : ℕ) → f < s.frame_count → bitmap_test m s.bitmap f ≡ true)
      → AllocResult s m r
  allocated :
      (f : ℕ) → r.2 ≡ f * page_size → Allocated s m f r.0 r.1 → IsValid r.0 r.1 → AllocResult s m r

-- From a valid state `pmm_alloc_frame` either finds no free frame, returns 0 and changes nothing, or
-- returns the address of a frame that was free and is not frame 0, with the frame zeroed, marked as
-- used and counted out, with all other memory but the byte of the frame's bit as before, and with
-- the invariant kept: the bitmap's own frames are never handed out, so zeroing spares the bitmap.
pub alloc_frame-AllocResult :
    (s : Pmm) (m : Memory) → IsValid s m → AllocResult s m (pmm_alloc_frame s m)
unfolding pmm_alloc_frame
alloc_frame-AllocResult s m v = elim (Bool-cases (found == s.frame_count)) [
  | inl none_left ↦ rw none_left (exhausted refl (λ f lt. ground (arith, searched.2 f lt)))
  | inr one_left ↦ rw one_left (
      let free : IsFree s m found = ground (arith, searched) in
      allocated found (omega (arith, v.small, free)) (next-Allocated v found free)
        (next-IsValid v found free))
]
  where
    found : ℕ
    found = bitmap_find_first_clear m s.bitmap s.frame_count s.next_search_index

    searched :
        (found ≤ s.frame_count)
        × (found < s.frame_count → bitmap_test m s.bitmap found ≡ false)
        × ((b : ℕ) → b < s.frame_count → bitmap_test m s.bitmap b ≡ false → found < s.frame_count)
    searched =
        find_first_clear_iff m s.bitmap s.frame_count s.next_search_index v.pos
          (omega (arith, v.small))
