-- ===== src/Thread/Tests.antt =====
-- Runs of kernel/sched/thread.c and context_switch.S.
use quin_kernel_template.Base.{ℕ, ◌≤◌, ◌≡◌, inl, arith, true, ◌==◌, if◌then◌else◌}
use quin_kernel_template.Thread.{
  Words, Saved, Stack, initial_stack, push, save, context_switch, thread_trampoline,
}
use quin_kernel_template.Thread.Switch.{
  save_away, context_switch-initial_stack, context_switch-resumes,
}

abbrev registers : Saved
registers = record { rbp = 1; rbx = 2; r12 = 3; r13 = 4; r14 = 5; r15 = 6 }

abbrev others : Saved
others = record { rbp = 11; rbx = 12; r12 = 13; r13 = 14; r14 = 15; r15 = 16 }

-- Word 4096 holds the address to return to.
abbrev words : Words
words a = if a == 4096 then 77 else 0

abbrev stack : Stack
stack = record { words = words; sp = 4096 }

-- The thread that switches back has its stack at 3000, and the first thread's stack as it was left.
abbrev other_stack : Stack
other_stack = record { words = (save registers stack).words; sp = 3000 }

-- The second thread's pushes are below the first one's words.
kept :
    (a : ℕ)
    → (context_switch registers stack 5000).0 ≤ a
    → a ≤ 4096
    → (save others other_stack).words a ≡ (save registers stack).words a
unfolding context_switch save push
kept a low high = save_away others other_stack a (omega arith) (omega arith) (inl (omega arith))

context_switch-resumes_example :
    ((context_switch others other_stack (context_switch registers stack 5000).0).1.saved
      ≡ registers)
    × ((context_switch others other_stack (context_switch registers stack 5000).0).1.stack.sp
        ≡ 4104)
    × ((context_switch others other_stack (context_switch registers stack 5000).0).1.rip ≡ 77)
context_switch-resumes_example =
    context_switch-resumes registers stack 5000 others other_stack (omega arith) (omega arith) kept

context_switch-initial_stack_example :
    let made = initial_stack words 65536 700 800 900 in
    let resumed = (context_switch registers (record { words = made.words; sp = 4096 }) made.sp).1 in
    (resumed.rip ≡ 700)
    × (resumed.stack.sp ≡ 81920)
    × (thread_trampoline resumed.saved ≡ record { target = 800; rdi = 900; interrupts = true })
context_switch-initial_stack_example =
    context_switch-initial_stack registers 4096 words 65536 700 800 900 (omega arith) (omega arith)
      (omega arith) (inl (omega arith))
