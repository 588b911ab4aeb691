-- ===== src/Sched.antt =====
-- kernel/sched/sched.c: the ready ring and the time slice. A thread is the address of its `struct
-- thread`; `threads` gives the fields at each address. `switch_to_next` and `sched_add_thread` run
-- with interrupts off on the lock's critical section, which is one step here.
pub mod Ring
pub mod Slice
pub mod Fair
mod Tests
use quin_kernel_template.Base.{ℕ, ◌+◌, Bool, true, false, not, u64, leb, ◌==◌, if◌then◌else◌}

pub record Thread : Type 0 where
  pub stack_pointer : ℕ
  pub stack_base : ℕ
  pub id : ℕ
  pub next : ℕ

abbrev pub Threads : Type 0
Threads = ℕ → Thread

-- `*thread = t`
abbrev pub put : Threads → ℕ → Thread → Threads
put ts a t b = if b == a then t else ts b

-- `thread->next = v` and `thread->id = v`
abbrev pub set_next : Threads → ℕ → ℕ → Threads
set_next ts a v = put ts a (record (ts a) { next = v })

abbrev pub set_id : Threads → ℕ → ℕ → Threads
set_id ts a v = put ts a (record (ts a) { id = v })

abbrev pub time_slice_ticks : ℕ
time_slice_ticks = 10

-- The static variables, and the structures that they point to.
pub record Sched : Type 0 where
  pub threads : Threads
  pub current : ℕ
  pub next_thread_id : ℕ
  pub ticks_since_switch : ℕ

unfoldable pub sched_init : (bootstrap_thread : ℕ) → Sched → Sched
sched_init bootstrap_thread s = record s {
  threads = set_next (set_id s.threads bootstrap_thread 0) bootstrap_thread bootstrap_thread;
  current = bootstrap_thread;
}

unfoldable pub sched_add_thread : Sched → ℕ → Sched
sched_add_thread s thread =
    let named = set_id s.threads thread s.next_thread_id in
    let linked = set_next named thread (named s.current).next in
    record s {
      threads = set_next linked s.current thread;
      next_thread_id = u64 (s.next_thread_id + 1);
    }

-- Which stack pointers `context_switch` is called with: where the old one is saved, and the new one.
pub record Switch : Type 0 where
  pub save_to : ℕ
  pub stack_pointer : ℕ

pub data Decision : Type 0 where
  stay : Decision
  switch : Switch → Decision

-- The new state, and the call of `context_switch` that follows, if any.
unfoldable pub switch_to_next : Sched → Sched × Decision
switch_to_next s =
    let prev = s.current in
    let next = (s.threads s.current).next in
    (
      record s { current = next; ticks_since_switch = 0 },
      if not (next == prev)
          then switch (record { save_to = prev; stack_pointer = (s.threads next).stack_pointer })
          else stay,
    )

unfoldable pub sched_tick : Sched → Sched × Decision
sched_tick s =
    let ticked = record s { ticks_since_switch = u64 (s.ticks_since_switch + 1) } in
    if leb time_slice_ticks ticked.ticks_since_switch then switch_to_next ticked else (ticked, stay)

unfoldable pub sched_yield : Sched → Sched × Decision
sched_yield s = switch_to_next s
