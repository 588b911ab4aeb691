-- ===== src/Spinlock/Nesting.antt =====
-- The interrupt-saving variants on one CPU.
use quin_kernel_template.Base.{ℕ, zero, suc, ◌<◌, ◌≡◌, ◌≢◌, refl, false, none, some, arith}
use quin_kernel_template.Spinlock.{
  Machine, interrupts_on, cli, spin, spinlock_acquire, spinlock_acquire_irqsave,
  spinlock_release_irqrestore,
}

-- Taking a free lock with the interrupt-saving variant takes one round, leaves the lock held and
-- interrupts off, and returns the flags; releasing it puts flags and lock back exactly as they were,
-- whether interrupts were on or off before.
release-acquire_irqsave :
    (fuel : ℕ) (s : Machine)
    → 0 < fuel
    → s.locked ≡ 0
    → (t : Machine) × (spinlock_acquire_irqsave fuel s ≡ some (s.rflags, t))
      × (t.locked ≡ 1)
      × (interrupts_on t.rflags ≡ false)
      × (spinlock_release_irqrestore t s.rflags ≡ s)
unfolding spinlock_acquire_irqsave spinlock_acquire spinlock_release_irqrestore
release-acquire_irqsave zero s pos free = absurd (omega arith)
release-acquire_irqsave (suc fuel) s pos free = (
  record { locked = 1; rflags = cli s.rflags },
  ground arith,
  refl,
  unfold cli in ground arith,
  ground arith,
)

spin_held : (fuel : ℕ) (s : Machine) → s.locked ≢ 0 → spin fuel s ≡ none
unfolding spin
spin_held zero s held = refl
spin_held (suc fuel) s held = ground (arith, spin_held fuel s held)

-- On one CPU with the lock already held nobody can release it: whatever the fuel, an acquire does
-- not come back. This is the deadlock that the interrupt-saving variants are there to prevent.
acquire_held : (fuel : ℕ) (s : Machine) → s.locked ≢ 0 → spinlock_acquire fuel s ≡ none
unfolding spinlock_acquire
acquire_held zero s held = refl
acquire_held (suc fuel) s held =
    ground (arith, spin_held fuel (record s { locked = 1 }) (omega arith))
