-- ===== src/Thread.antt =====
-- kernel/sched/thread.c and kernel/arch/x86_64/cpu/context_switch.S: a new thread's stack, and the
-- switch from one stack to another. `Words` gives the 64-bit word at each address of a stack.
pub mod Switch
mod Tests
use quin_kernel_template.Base.{ℕ, ◌+◌, ◌-◌, ◌*◌, Bool, true, u64, sub64, ◌==◌, if◌then◌else◌}
use quin_kernel_template.Heap.{Heap, kmalloc, kfree}
use quin_kernel_template.Panic.{Outcome, ok, panicked, ◌>>=◌}
use quin_kernel_template.Pmm.{page_size}
use quin_kernel_template.Sched.{Thread, Sched, put, sched_add_thread}
use quin_kernel_template.Vmm.{Vmm, vmm_alloc_guarded, vmm_writable}

abbrev pub Words : Type 0
Words = ℕ → ℕ

abbrev pub thread_stack_pages : ℕ
thread_stack_pages = 4

abbrev pub thread_size : ℕ
thread_size = 32

-- A stack: its words and its pointer.
pub record Stack : Type 0 where
  pub words : Words
  pub sp : ℕ

-- `*(--sp) = v`, the instruction `push`, and the instruction `pop`: the stack and the word.
unfoldable pub push : Stack → ℕ → Stack
push s v =
    let sp = sub64 s.sp 8 in record { words = λ a. if a == sp then v else s.words a; sp = sp }

abbrev pub top : Stack → ℕ
top s = s.words s.sp

unfoldable pub pop : Stack → Stack
pop s = record s { sp = u64 (s.sp + 8) }

unfoldable pub initial_stack : Words → (stack trampoline entry arg : ℕ) → Stack
unfolding push
initial_stack words stack trampoline entry arg =
    let sp = u64 (stack + thread_stack_pages * page_size) in
    let s1 = push (record { words = words; sp = sp }) trampoline in
    let s2 = push s1 0 in
    let s3 = push s2 0 in
    let s4 = push s3 entry in let s5 = push s4 arg in let s6 = push s5 0 in push s6 0

-- All that `thread_create` works on.
pub record World : Type 0 where
  pub heap : Heap
  pub vmm : Vmm
  pub sched : Sched
  pub words : Words

-- With the stack allocated.
unfoldable pub start_thread : World → (t stack trampoline entry arg : ℕ) → World
unfolding initial_stack sched_add_thread
start_thread w t stack trampoline entry arg =
    let made = initial_stack w.words stack trampoline entry arg in
    let old = w.sched.threads t in
    let named = record old { stack_pointer = made.sp; stack_base = stack } in
    let sched = record w.sched { threads = put w.sched.threads t named } in
    record w { words = made.words; sched = sched_add_thread sched t }

-- The state after, and the thread, 0 for NULL.
unfoldable pub thread_create : World → (trampoline entry arg : ℕ) → Outcome (World × ℕ)
unfolding kmalloc vmm_alloc_guarded kfree start_thread
thread_create w trampoline entry arg =
    let t = kmalloc w.heap thread_size in
    let w1 = record w { heap = t.0 } in
    if t.1 == 0
    then ok (w1, 0)
    else (vmm_alloc_guarded w.vmm thread_stack_pages vmm_writable >>= λ stack.
        let w2 = record w1 { vmm = stack.0 } in
        if stack.1 == 0
        then ok (record w2 { heap = kfree w2.heap t.1 }, 0)
        else ok (start_thread w2 t.1 stack.1 trampoline entry arg, t.1))

abbrev pub thread_exited : World → Outcome World
thread_exited w = panicked

-- The registers that a call preserves.
pub record Saved : Type 0 where
  pub rbp : ℕ
  pub rbx : ℕ
  pub r12 : ℕ
  pub r13 : ℕ
  pub r14 : ℕ
  pub r15 : ℕ

-- The six pushes, on a stack that the return address is on.
unfoldable pub save : Saved → Stack → Stack
unfolding push
save r s =
    let s1 = push s r.rbp in
    let s2 = push s1 r.rbx in
    let s3 = push s2 r.r12 in let s4 = push s3 r.r13 in let s5 = push s4 r.r14 in push s5 r.r15

-- Where execution goes on.
pub record Resumed : Type 0 where
  pub saved : Saved
  pub stack : Stack
  pub rip : ℕ

-- The six pops and `ret`.
unfoldable pub restore : Stack → Resumed
unfolding pop
restore s =
    let s1 = pop s in
    let s2 = pop s1 in
    let s3 = pop s2 in
    let s4 = pop s3 in
    let s5 = pop s4 in
    let s6 = pop s5 in
    record {
      saved = record {
        r15 = top s;
        r14 = top s1;
        r13 = top s2;
        r12 = top s3;
        rbx = top s4;
        rbp = top s5;
      };
      stack = pop s6;
      rip = top s6;
    }

-- The word that goes to `*old_sp`, and where execution goes on. `s` is the stack at the entry.
unfoldable pub context_switch : Saved → Stack → (new_sp : ℕ) → ℕ × Resumed
unfolding save restore
context_switch r s new_sp = let old = save r s in (old.sp, restore (record old { sp = new_sp }))

-- What the trampoline calls first, and with interrupts on.
pub record Call : Type 0 where
  pub target : ℕ
  pub rdi : ℕ
  pub interrupts : Bool

unfoldable pub thread_trampoline : Saved → Call
thread_trampoline r = record { target = r.r12; rdi = r.r13; interrupts = true }
