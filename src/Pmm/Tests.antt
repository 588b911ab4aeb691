-- ===== src/Pmm/Tests.antt =====
-- Runs of kernel/mm/pmm.c on a small memory map, and its theorems at such states.
use quin_kernel_template.Base.{
  ℕ, ◌+◌, ◌*◌, ◌≡◌, ◌≢◌, refl, arith, ◌==◌, if◌then◌else◌, some, [], ◌∷◌, List,
}
use quin_kernel_template.Align.{align_up}
use quin_kernel_template.Bitmap.{bitmap_test, bitmap_set, bitmap_clear, bitmap_find_first_clear}
use quin_kernel_template.Boot.{usable, reserved, MemmapEntry, boot_get_memmap}
use quin_kernel_template.Memory.{Memory, load, store}
use quin_kernel_template.Strings.{memset}
use quin_kernel_template.Panic.{Outcome, ok, panicked}
use quin_kernel_template.Pmm.{
  Pmm, page_size, is_usable, highest_end, pmm_init, pmm_alloc_frame, pmm_free_frame,
}
use quin_kernel_template.Pmm.Valid.{clear_count, own_frame, IsValid}
use quin_kernel_template.Pmm.Alloc.{AllocResult, alloc_frame-AllocResult}
use quin_kernel_template.Pmm.Memmap.{in_entry, usable_frame, IsMap}
use quin_kernel_template.Pmm.Init.{InitResult, pmm_init-InitResult}
use quin_kernel_template.Pmm.Free.{MayFree, Freed, Undone, free_frame-Freed, free-alloc_frame}

-- Ten frames at offset 0; frame 1 holds the bitmap, frames 2 to 9 are free.
abbrev memory : Memory
memory a = if a == 4096 then 0x03 else if a == 4097 then 0xfc else 0

abbrev state : Pmm
state = record {
  bitmap = 4096;
  frame_count = 10;
  next_search_index = 0;
  hhdm_offset = 0;
  free_frames = 8;
}

abbrev map_of_ten : List MemmapEntry
map_of_ten =
    record { base = 0; length = 4096; kind = reserved }
    ∷ record { base = 4096; length = 9 * 4096; kind = usable }
    ∷ []

abbrev free_after : Outcome (Pmm × Memory) → ℕ
free_after (ok (s, m)) = s.free_frames
free_after panicked = 0

abbrev state_after : Outcome (Pmm × Memory) → Pmm
state_after (ok (s, m)) = s
state_after panicked = state

init_gives_state : state_after (pmm_init (λ _. 0) 0 (some map_of_ten)) ≡ state
unfolding pmm_init boot_get_memmap align_up bitmap_test bitmap_set bitmap_clear load store memset
init_gives_state = refl

init_without_region : pmm_init (λ _. 0) 0 (some []) ≡ panicked
unfolding pmm_init boot_get_memmap align_up
init_without_region = refl

first_frame_is_two : (pmm_alloc_frame state memory).2 ≡ 2 * 4096
unfolding pmm_alloc_frame bitmap_find_first_clear bitmap_test load
first_frame_is_two = refl

state-IsValid : IsValid state memory
unfolding bitmap_test load clear_count
state-IsValid = record {
  pos = omega arith;
  small = omega arith;
  above = omega arith;
  own_in_range = λ j lt. omega arith;
  own_used = λ j lt. let e : own_frame state j ≡ 1 = omega arith in rw e;
  zero_used = refl;
  counted = refl;
}

-- The same with frame 5 in use.
abbrev memory_with_five : Memory
memory_with_five a = if a == 4096 then 0x23 else if a == 4097 then 0xfc else 0

abbrev state_with_five : Pmm
state_with_five = record state { free_frames = 7 }

state_with_five-IsValid : IsValid state_with_five memory_with_five
unfolding bitmap_test load clear_count
state_with_five-IsValid = record {
  pos = omega arith;
  small = omega arith;
  above = omega arith;
  own_in_range = λ j lt. omega arith;
  own_used = λ j lt. let e : own_frame state j ≡ 1 = omega arith in rw e;
  zero_used = refl;
  counted = refl;
}

five-MayFree : MayFree state_with_five memory_with_five 5
unfolding bitmap_test load
five-MayFree = record {
  in_range = omega arith;
  used = refl;
  not_zero = omega arith;
  not_own = λ j lt. omega arith;
}

free_frame-Freed_example :
    (s' : Pmm) × (m' : Memory) × (pmm_free_frame state_with_five memory_with_five
        (5 * page_size + 17)
      ≡ ok (s', m'))
    × Freed state_with_five memory_with_five 5 s' m'
    × IsValid s' m'
free_frame-Freed_example =
    free_frame-Freed state_with_five memory_with_five 5 17 state_with_five-IsValid five-MayFree
      (omega arith)

alloc_frame-AllocResult_example : AllocResult state memory (pmm_alloc_frame state memory)
alloc_frame-AllocResult_example = alloc_frame-AllocResult state memory state-IsValid

gives_a_frame : (pmm_alloc_frame state memory).2 ≢ 0
gives_a_frame = rw first_frame_is_two (omega arith)

free-alloc_frame_example : Undone state memory (pmm_alloc_frame state memory)
free-alloc_frame_example = free-alloc_frame state memory state-IsValid gives_a_frame

map_of_ten-IsMap : IsMap map_of_ten
unfolding in_entry usable_frame is_usable
map_of_ten-IsMap = (
  λ h. ground (arith, h),
  λ j h. ground (arith, h),
  (λ h. record { fits = omega arith; base_aligned = refl; length_aligned = refl }, λ j h. refl, tt),
)

answer_of_ten : boot_get_memmap (some map_of_ten) ≡ some map_of_ten
unfolding boot_get_memmap
answer_of_ten = refl

end_of_ten : highest_end map_of_ten 0 ≡ 10 * 4096
unfolding highest_end
end_of_ten = refl

pmm_init-InitResult_example : InitResult 0 map_of_ten (pmm_init (λ _. 0) 0 (some map_of_ten))
pmm_init-InitResult_example =
    pmm_init-InitResult (λ _. 0) 0 (some map_of_ten) map_of_ten answer_of_ten map_of_ten-IsMap
      (omega (arith, end_of_ten))
