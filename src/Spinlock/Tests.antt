-- ===== src/Spinlock/Tests.antt =====
-- Runs of kernel/sched/spinlock.c, and its theorems at such states.
use quin_kernel_template.Base.{◌≡◌, refl, arith}
use quin_kernel_template.Spinlock.{Machine, spinlock_init}
use quin_kernel_template.Spinlock.Exclusion.{
  Place, exchanging, Cpus, move, idle, here, next, call, win, lose, Reach, Exclusive,
  Reach-Exclusive,
}

abbrev open_lock : Machine
open_lock = record { locked = 0; rflags = 0x202 }

abbrev held_lock : Machine
held_lock = record { locked = 1; rflags = 0x2 }

init_opens : spinlock_init held_lock ≡ record { locked = 0; rflags = 0x2 }
unfolding spinlock_init
init_opens = refl

-- CPUs 0 and 1 both call, 0 wins and 1 loses.
abbrev contended : Cpus
contended = record {
  locked = 1;
  place =
      move (move (move (move idle.place 0 exchanging) 1 exchanging) 0 Place.inside) 1 Place.reading;
}

contended-Reach : Reach idle contended
contended-Reach =
    next (next (next (next here (call 0 refl)) (call 1 refl)) (win 0 refl refl))
      (lose 1 refl (omega arith))

Reach-Exclusive_example : Exclusive contended
Reach-Exclusive_example = Reach-Exclusive contended-Reach
