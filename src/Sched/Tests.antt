-- ===== src/Sched/Tests.antt =====
-- Runs of kernel/sched/sched.c on three threads at the addresses 100, 200 and 300.
use quin_kernel_template.Base.{ℕ, arith, true, ◌≤◌, ◌+◌, ◌*◌, ◌≡◌, refl, false, [], ◌∷◌}
use quin_kernel_template.Sched.{
  Sched, switch, sched_init, sched_add_thread, switch_to_next, sched_tick,
}
use quin_kernel_template.Sched.Ring.{IsRing, has, init-IsRing, add_thread-IsRing}
use quin_kernel_template.Sched.Fair.{reaches}
use quin_kernel_template.Sched.Slice.{RingIs, ticks, rotate, slices_rotate}

abbrev zeroed : Sched
zeroed = record {
  threads = λ a. record { stack_pointer = a + 7; stack_base = a; id = 0; next = 0 };
  current = 0;
  next_thread_id = 1;
  ticks_since_switch = 0;
}

abbrev booted : Sched
booted = sched_init 100 zeroed

abbrev two : Sched
two = sched_add_thread booted 200

abbrev three : Sched
three = sched_add_thread two 300

booted-IsRing : IsRing booted []
booted-IsRing = init-IsRing 100 zeroed

two-IsRing : IsRing two (200 ∷ [])
unfolding has sched_init
two-IsRing = (add_thread-IsRing booted 200 [] booted-IsRing refl).0

elsewhere : has 300 (two.current ∷ 200 ∷ []) ≡ false
unfolding has sched_init sched_add_thread
elsewhere = refl

add_thread-IsRing_example :
    IsRing three (300 ∷ 200 ∷ [])
    × ((sched_add_thread two 300).current ≡ two.current)
    × (((sched_add_thread two 300).threads 300).id ≡ two.next_thread_id)
add_thread-IsRing_example = add_thread-IsRing two 300 (200 ∷ []) two-IsRing elsewhere

three-IsRing : IsRing three (300 ∷ 200 ∷ [])
three-IsRing = (add_thread-IsRing two 300 (200 ∷ []) two-IsRing elsewhere).0

three-RingIs : RingIs three (three.current ∷ 300 ∷ 200 ∷ [])
three-RingIs = record { rest = 300 ∷ 200 ∷ []; starts = refl; is_ring = three-IsRing }

fresh : three.ticks_since_switch ≡ 0
unfolding sched_init sched_add_thread
fresh = refl

slices_rotate_example : RingIs (ticks (2 * 10) three) (rotate 2 (three.current ∷ 300 ∷ 200 ∷ []))
slices_rotate_example = slices_rotate 2 three (three.current ∷ 300 ∷ 200 ∷ []) three-RingIs fresh

-- The twentieth tick switches to the third thread, and saves the second one's stack pointer.
twenty_ticks :
    (sched_tick (ticks 19 three)).1 ≡ switch (record { save_to = 300; stack_pointer = 207 })
unfolding ticks sched_tick switch_to_next sched_init sched_add_thread
twenty_ticks = refl

inside : has 200 (three.current ∷ 300 ∷ 200 ∷ []) ≡ true
unfolding has sched_init sched_add_thread
inside = refl

reaches_example : (n : ℕ) × (n ≤ 10 * 3) × ((ticks n three).current ≡ 200)
unfolding sched_init sched_add_thread
reaches_example =
    reaches three (three.current ∷ 300 ∷ 200 ∷ []) 200 three-RingIs (omega arith) inside
