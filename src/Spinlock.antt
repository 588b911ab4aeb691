-- ===== src/Spinlock.antt =====
-- kernel/sched/spinlock.c. One CPU runs the functions on its flags register and the lock word; the
-- spinning loops take fuel, and `none` means that it ran out.
pub mod Nesting
pub mod Exclusion
mod Tests
use quin_kernel_template.Base.{
  ℕ, zero, suc, ◌-◌, ◌/◌, ◌%◌, ◌*◌, Bool, true, false, Option, none, some, not, ◌==◌, if◌then◌else◌,
}

-- The lock word, and RFLAGS of the CPU that runs.
pub record Machine : Type 0 where
  pub locked : ℕ
  pub rflags : ℕ

-- Bit 9 of RFLAGS is IF; `cli` clears it.
abbrev pub interrupt_flag : ℕ
interrupt_flag = 0x200

abbrev pub interrupts_on : ℕ → Bool
interrupts_on rflags = not (rflags / interrupt_flag % 2 == 0)

cli : ℕ → ℕ
cli rflags = if interrupts_on rflags then rflags - interrupt_flag else rflags

unfoldable pub spinlock_init : Machine → Machine
spinlock_init s = record s { locked = 0 }

-- while (lock->locked) pause;
spin : ℕ → Machine → Option Machine
spin zero s = none
spin (suc fuel) s = let more = spin fuel s in if not (s.locked == 0) then more else some s

-- while (exchange(&lock->locked, 1)) spin;
acquire_loop : ℕ → Machine → Option Machine
unfolding spin
acquire_loop zero s = none
acquire_loop (suc fuel) s =
    let taken = record s { locked = 1 } in
    let again : Option Machine = elim (spin fuel taken) [
      | none ↦ none
      | some s' ↦ acquire_loop fuel s'
    ] in
    if not (s.locked == 0) then again else some taken

unfoldable pub spinlock_acquire : ℕ → Machine → Option Machine
unfolding acquire_loop
spinlock_acquire fuel s = acquire_loop fuel s

unfoldable pub spinlock_release : Machine → Machine
spinlock_release s = record s { locked = 0 }

unfoldable pub read_and_disable_interrupts : Machine → ℕ × Machine
unfolding cli
read_and_disable_interrupts s = (s.rflags, record s { rflags = cli s.rflags })

unfoldable pub restore_interrupt_state : Machine → ℕ → Machine
restore_interrupt_state s flags = record s { rflags = flags }

unfoldable pub spinlock_acquire_irqsave : ℕ → Machine → Option (ℕ × Machine)
unfolding read_and_disable_interrupts
spinlock_acquire_irqsave fuel s =
    let (flags, s') = read_and_disable_interrupts s in
    elim (spinlock_acquire fuel s') [ none ↦ none | some t ↦ some (flags, t) ]

unfoldable pub spinlock_release_irqrestore : Machine → ℕ → Machine
unfolding spinlock_release restore_interrupt_state
spinlock_release_irqrestore s flags = restore_interrupt_state (spinlock_release s) flags
