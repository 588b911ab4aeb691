-- ===== src/Timer.antt =====
-- kernel/drivers/timer/timer.c: the tick counter and its handler, over Sched.
use quin_kernel_template.Base.{ℕ, ◌+◌, u64}
use quin_kernel_template.Sched.{Sched, Decision, sched_tick}

-- The static variable, and the scheduler.
pub record Timer : Type 0 where
  pub ticks : ℕ
  pub sched : Sched

-- The switch of threads that follows, if any, is the scheduler's.
unfoldable pub timer_tick_handler : Timer → Timer × Decision
timer_tick_handler s =
    let r = sched_tick s.sched in (record { ticks = u64 (s.ticks + 1); sched = r.0 }, r.1)

unfoldable pub timer_get_ticks : Timer → ℕ
timer_get_ticks s = s.ticks
