-- ===== src/Thread/Switch.antt =====
-- What context_switch.S leaves on the stack that it switches away from, and what it takes from the
-- stack that it switches to.
use quin_kernel_template.Base.{ℕ, ◌+◌, ◌^◌, ◌<◌, ◌≤◌, ◌≡◌, ap, ◌∙◌, ◌⊎◌, arith, true}
use quin_kernel_template.Thread.{
  Words, Saved, Stack, initial_stack, save, restore, push, pop, context_switch, thread_trampoline,
}

-- At `sp` lie the six registers, in the order in which they are popped, and the return address.
pub record Suspended (words : Words) (sp : ℕ) (r : Saved) (rip : ℕ) : Type 0 where
  pub at_r15 : words sp ≡ r.r15
  pub at_r14 : words (sp + 8) ≡ r.r14
  pub at_r13 : words (sp + 16) ≡ r.r13
  pub at_r12 : words (sp + 24) ≡ r.r12
  pub at_rbx : words (sp + 32) ≡ r.rbx
  pub at_rbp : words (sp + 40) ≡ r.rbp
  pub at_rip : words (sp + 48) ≡ rip

-- The same words, in another memory.
Suspended-ext :
    (words words' : Words) (sp : ℕ) (r : Saved) (rip : ℕ)
    → ((a : ℕ) → sp ≤ a → a ≤ sp + 48 → words' a ≡ words a)
    → Suspended words sp r rip
    → Suspended words' sp r rip
Suspended-ext words words' sp r rip same on = record {
  at_r15 = same sp (omega arith) (omega arith) ∙ on.at_r15;
  at_r14 = same (sp + 8) (omega arith) (omega arith) ∙ on.at_r14;
  at_r13 = same (sp + 16) (omega arith) (omega arith) ∙ on.at_r13;
  at_r12 = same (sp + 24) (omega arith) (omega arith) ∙ on.at_r12;
  at_rbx = same (sp + 32) (omega arith) (omega arith) ∙ on.at_rbx;
  at_rbp = same (sp + 40) (omega arith) (omega arith) ∙ on.at_rbp;
  at_rip = same (sp + 48) (omega arith) (omega arith) ∙ on.at_rip;
}

restore-Suspended :
    (words : Words) (sp : ℕ) (r : Saved) (rip : ℕ)
    → sp + 56 < 2 ^ 64
    → Suspended words sp r rip
    → ((restore (record { words = words; sp = sp })).saved ≡ r)
      × ((restore (record { words = words; sp = sp })).stack.sp ≡ sp + 56)
      × ((restore (record { words = words; sp = sp })).rip ≡ rip)
unfolding restore pop
restore-Suspended words sp r rip fits on = (
  ground (arith, on.at_r15, on.at_r14, on.at_r13, on.at_r12, on.at_rbx, on.at_rbp),
  ground arith,
  ground (arith, on.at_rip),
)

save-Suspended :
    (r : Saved) (s : Stack)
    → 48 ≤ s.sp
    → s.sp < 2 ^ 64
    → Suspended (save r s).words (save r s).sp r (s.words s.sp) × ((save r s).sp + 48 ≡ s.sp)
unfolding save push
save-Suspended r s room fits = (
  record {
    at_r15 = ground arith;
    at_r14 = ground arith;
    at_r13 = ground arith;
    at_r12 = ground arith;
    at_rbx = ground arith;
    at_rbp = ground arith;
    at_rip = ground arith;
  },
  ground arith,
)

-- A push writes below the pointer it starts from only.
pub save_away :
    (r : Saved) (s : Stack) (a : ℕ)
    → 48 ≤ s.sp
    → s.sp < 2 ^ 64
    → (s.sp ≤ a) ⊎ (a + 48 < s.sp)
    → (save r s).words a ≡ s.words a
unfolding save push
save_away r s a room fits away = ground arith

-- A thread whose stack had room for six registers when it was switched away from, and whose seven
-- saved words are as they were whenever it is
-- switched back to, gets all its registers back, returns to its caller and has popped the return
-- address.
pub context_switch-resumes :
    (r : Saved) (s : Stack) (new_sp : ℕ) (r' : Saved) (s' : Stack)
    → 48 ≤ s.sp
    → s.sp + 8 < 2 ^ 64
    → ((a : ℕ)
        → (context_switch r s new_sp).0 ≤ a
        → a ≤ s.sp
        → (save r' s').words a ≡ (save r s).words a)
    → ((context_switch r' s' (context_switch r s new_sp).0).1.saved ≡ r)
      × ((context_switch r' s' (context_switch r s new_sp).0).1.stack.sp ≡ s.sp + 8)
      × ((context_switch r' s' (context_switch r s new_sp).0).1.rip ≡ s.words s.sp)
unfolding context_switch
context_switch-resumes r s new_sp r' s' room fits kept =
    let back =
      restore-Suspended (save r' s').words old r (s.words s.sp) (omega (arith, at)) again in
    (back.0, (back.1 ∙ omega (arith, at)), back.2)
  where
    old : ℕ
    old = (save r s).sp

    at : old + 48 ≡ s.sp
    at = (save-Suspended r s room (omega arith)).1

    on : Suspended (save r s).words old r (s.words s.sp)
    on = (save-Suspended r s room (omega arith)).0

    again : Suspended (save r' s').words old r (s.words s.sp)
    again =
        Suspended-ext (save r s).words (save r' s').words old r (s.words s.sp)
          (λ a low high. kept a low (omega (arith, at))) on

abbrev first_registers : (entry arg : ℕ) → Saved
first_registers entry arg = record { rbp = 0; rbx = 0; r12 = entry; r13 = arg; r14 = 0; r15 = 0 }

initial_stack-Suspended :
    (words : Words) (stack trampoline entry arg : ℕ)
    → stack + 16384 < 2 ^ 64
    → Suspended
        (initial_stack words stack trampoline entry arg).words
        (initial_stack words stack trampoline entry arg).sp
        (first_registers entry arg)
        trampoline
      × ((initial_stack words stack trampoline entry arg).sp + 56 ≡ stack + 16384)
unfolding initial_stack push
initial_stack-Suspended words stack trampoline entry arg fits = (
  record {
    at_r15 = ground arith;
    at_r14 = ground arith;
    at_r13 = ground arith;
    at_r12 = ground arith;
    at_rbx = ground arith;
    at_rbp = ground arith;
    at_rip = ground arith;
  },
  ground arith,
)

-- The first switch to the stack that `thread_create` builds, from any thread whose stack has room for
-- six registers and lies outside the new one, goes on in the trampoline with the new stack empty, and the trampoline calls
-- the entry function with its argument, interrupts on.
pub context_switch-initial_stack :
    (r : Saved) (from : ℕ) (words : Words) (stack trampoline entry arg : ℕ)
    → stack + 16384 < 2 ^ 64
    → 48 ≤ from
    → from < 2 ^ 64
    → (from ≤ stack) ⊎ (stack + 16384 + 48 ≤ from)
    → let made = initial_stack words stack trampoline entry arg in
      let resumed = (context_switch r (record { words = made.words; sp = from }) made.sp).1 in
      (resumed.rip ≡ trampoline)
      × (resumed.stack.sp ≡ stack + 16384)
      × (thread_trampoline resumed.saved ≡ record { target = entry; rdi = arg; interrupts = true })
unfolding context_switch thread_trampoline
context_switch-initial_stack r from words stack trampoline entry arg fits room small apart =
    let back =
      restore-Suspended (save r s).words made.sp first trampoline (omega (arith, at)) again in
    (back.2, (back.1 ∙ at), ap (λ (x : Saved). thread_trampoline x) back.0)
  where
    made : Stack
    made = initial_stack words stack trampoline entry arg

    s : Stack
    s = record { words = made.words; sp = from }

    first : Saved
    first = first_registers entry arg

    on : Suspended made.words made.sp first trampoline
    on = (initial_stack-Suspended words stack trampoline entry arg fits).0

    at : made.sp + 56 ≡ stack + 16384
    at = (initial_stack-Suspended words stack trampoline entry arg fits).1

    kept : (a : ℕ) → made.sp ≤ a → a ≤ made.sp + 48 → (save r s).words a ≡ made.words a
    kept a low high = save_away r s a room small (ground (arith, at, apart))

    again : Suspended (save r s).words made.sp first trampoline
    again = Suspended-ext made.words (save r s).words made.sp first trampoline kept on
