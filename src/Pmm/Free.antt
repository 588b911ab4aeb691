-- ===== src/Pmm/Free.antt =====
-- `pmm_free_frame`: when it panics, what it changes, and that it undoes an allocation.
use quin_kernel_template.Base.{
  ℕ, ◌+◌, ◌*◌, ◌/◌, ◌≤◌, ◌<◌, ◌≡◌, ◌≢◌, ◌∙◌, ap, true, false, not, arith, u64, ◌==◌, ◌&&◌, ◌⊎◌, ◌↔◌,
}
use quin_kernel_template.Bitmap.{bitmap_test, bitmap_clear}
use quin_kernel_template.Bitmap.Bit.{test-clear}
use quin_kernel_template.Memory.{Memory}
use quin_kernel_template.Panic.{ok, panicked}
use quin_kernel_template.Pmm.{Pmm, page_size, pmm_alloc_frame, pmm_free_frame}
use quin_kernel_template.Pmm.Alloc.{
  Allocated, AllocResult, exhausted, allocated, alloc_frame-AllocResult,
}
use quin_kernel_template.Pmm.Valid.{own_frame, IsValid, IsFree, clear_count-le, clear_count-clear}

-- A frame that a caller may give back: not frame 0, nor one that holds the bitmap.
pub record MayFree (s : Pmm) (m : Memory) (f : ℕ) : Type 0 where
  pub in_range : f < s.frame_count
  pub used : bitmap_test m s.bitmap f ≡ true
  pub not_zero : f ≢ 0
  pub not_own : (j : ℕ) → j < s.frame_count → own_frame s j ≢ f

-- `pmm_free_frame` panics exactly on an address whose frame is out of range or already free.
free_frame_panics :
    (s : Pmm) (m : Memory) (phys : ℕ)
    → (pmm_free_frame s m phys ≡ panicked)
      ↔ ((s.frame_count ≤ phys / page_size) ⊎ (bitmap_test m s.bitmap (phys / page_size) ≡ false))
unfolding pmm_free_frame
free_frame_panics s m phys = (λ h. ground arith, λ h. ground arith)

-- What giving frame `f` back has done.
pub record Freed (s : Pmm) (m : Memory) (f : ℕ) (s' : Pmm) (m' : Memory) : Type 0 where
  pub now_free : IsFree s' m' f
  pub others : (j : ℕ) → bitmap_test m' s'.bitmap j ≡ (not (f == j) && bitmap_test m s.bitmap j)
  pub one_more : s'.free_frames ≡ s.free_frames + 1

module _ {s : Pmm} {m : Memory} {f : ℕ} (v : IsValid s m) (may : MayFree s m f) where
  abbrev next : Pmm
  next = record s { free_frames = u64 (s.free_frames + 1) }

  abbrev after : Memory
  after = bitmap_clear m s.bitmap f

  one_more_lem : next.free_frames ≡ s.free_frames + 1
  one_more_lem = ground (
    arith,
    v.counted,
    v.small,
    may.used,
    clear_count-le after s.bitmap s.frame_count,
    clear_count-clear m s.bitmap f s.frame_count,
  )

  next-Freed : Freed s m f next after
  next-Freed = record {
    now_free = (may.in_range, ground (arith, test-clear m s.bitmap f f));
    others = test-clear m s.bitmap f;
    one_more = one_more_lem;
  }

  next-IsValid : IsValid next after
  next-IsValid = record {
    pos = v.pos;
    small = v.small;
    above = v.above;
    own_in_range = v.own_in_range;
    own_used = λ j lt.
        ground (arith, v.own_used j lt, may.not_own j lt, test-clear m s.bitmap f (own_frame s j));
    zero_used = ground (arith, v.zero_used, may.not_zero, test-clear m s.bitmap f 0);
    counted =
        ground
          (arith, one_more_lem, v.counted, may.used, clear_count-clear m s.bitmap f s.frame_count);
  }

-- Given any address in a frame that may be given back, `pmm_free_frame` does not panic: the frame
-- becomes free, every other frame keeps its state, one more frame is counted as free, and the
-- invariant is kept.
pub free_frame-Freed :
    (s : Pmm) (m : Memory) (f a : ℕ)
    → IsValid s m
    → MayFree s m f
    → a < page_size
    → (s' : Pmm) × (m' : Memory) × (pmm_free_frame s m (f * page_size + a) ≡ ok (s', m'))
      × Freed s m f s' m'
      × IsValid s' m'
unfolding pmm_free_frame
free_frame-Freed s m f a v may low =
    let frame : (f * page_size + a) / page_size ≡ f = omega arith in
    (
      next v may,
      after v may,
      ground (arith, frame, may.used, may.in_range),
      next-Freed v may,
      next-IsValid v may,
    )

-- The same, with the state and the memory written out.
pub free_frame_step :
    {s : Pmm} {m : Memory} {f : ℕ}
    → IsValid s m
    → MayFree s m f
    → (pmm_free_frame s m (f * page_size)
        ≡ ok (record s { free_frames = u64 (s.free_frames + 1) }, bitmap_clear m s.bitmap f))
      × IsValid (record s { free_frames = u64 (s.free_frames + 1) }) (bitmap_clear m s.bitmap f)
unfolding pmm_free_frame
free_frame_step {f = f} v may =
    let frame : f * page_size / page_size ≡ f = omega arith in
    (ground (arith, frame, may.used, may.in_range), next-IsValid v may)

pub Allocated-MayFree :
    {s s' : Pmm} {m m' : Memory} {f : ℕ} → IsValid s m → Allocated s m f s' m' → MayFree s' m' f
Allocated-MayFree {s} {s'} {m} {m'} {f} v done = record {
  in_range = ground (arith, done.was_free, done.same_place);
  used = ground (arith, done.was_free, done.same_place, done.now_used f);
  not_zero = done.not_zero;
  not_own = λ j lt e. ground (arith, done.was_free, done.same_place, v.own_used j);
}

-- What giving back the frame of an allocation's result `r` comes to.
abbrev pub Undone : Pmm → Memory → Pmm × Memory × ℕ → Type 0
Undone s m r =
    (s' : Pmm) × (m' : Memory) × (pmm_free_frame r.0 r.1 r.2 ≡ ok (s', m'))
    × ((j : ℕ) → j < s.frame_count → bitmap_test m' s'.bitmap j ≡ bitmap_test m s.bitmap j)
    × (s'.free_frames ≡ s.free_frames)
    × IsValid s' m'

AllocResult-Undone :
    {s : Pmm} {m : Memory} {r : Pmm × Memory × ℕ}
    → IsValid s m
    → r.2 ≢ 0
    → AllocResult s m r
    → Undone s m r
AllocResult-Undone v got (exhausted e all) = absurd (got (ap (λ t. t.2) e))
AllocResult-Undone {s} {m} {r} v got (allocated f e done w) =
    let (s', m', freed, change, v') =
      free_frame-Freed r.0 r.1 f 0 w (Allocated-MayFree v done) (omega arith) in
    let same : r.2 ≡ f * page_size + 0 = omega arith in
    (
      s',
      m',
      ap (λ p. pmm_free_frame r.0 r.1 p) same ∙ freed,
      λ j lt. ground (arith, change.others j, done.now_used j lt, done.same_place, done.was_free),
      ground (arith, change.one_more, done.one_less),
      v',
    )

-- Giving back the frame that `pmm_alloc_frame` just returned does not panic, restores the state of
-- every frame and the count of free frames, and keeps the invariant.
pub free-alloc_frame :
    (s : Pmm) (m : Memory)
    → IsValid s m
    → (pmm_alloc_frame s m).2 ≢ 0
    → Undone s m (pmm_alloc_frame s m)
free-alloc_frame s m v got = AllocResult-Undone v got (alloc_frame-AllocResult s m v)
