-- ===== src/Isr.antt =====
-- kernel/arch/x86_64/cpu/isr.c: the table of handlers, and the dispatch of an interrupt. `S` is the
-- kernel's state; a handler takes it and the interrupt frame to a new state, or panics. Acknowledging
-- at the interrupt controller (lapic.c's `lapic_send_eoi`) is a parameter.
mod Dispatch
mod Tests
use quin_kernel_template.Base.{ℕ, Option, none, some, ltb, ◌==◌, if◌then◌else◌}
use quin_kernel_template.Panic.{Outcome, ok, panicked}

-- The fields of the frame that the kernel's handlers read.
pub record InterruptFrame : Type 0 where
  pub vector : ℕ
  pub error_code : ℕ
  pub rip : ℕ

abbrev pub Handler : Type 0 → Type 0
Handler S = S → InterruptFrame → Outcome S

abbrev pub Handlers : Type 0 → Type 0
Handlers S = ℕ → Option (Handler S)

unfoldable pub interrupt_register_handler :
    {S : Type 0} → Handlers S → (vector : ℕ) → Handler S → Handlers S
interrupt_register_handler handlers vector handler v =
    if v == vector then some handler else handlers v

unfoldable pub isr_dispatch :
    {S : Type 0} → Handlers S → (lapic_send_eoi : S → S) → S → InterruptFrame → Outcome S
isr_dispatch handlers lapic_send_eoi s frame =
    if ltb frame.vector 32
    then elim (handlers frame.vector) [ some handler ↦ handler s frame | none ↦ panicked ]
    else elim (handlers frame.vector) [
      | some handler ↦ handler (lapic_send_eoi s) frame
      | none ↦ ok (lapic_send_eoi s)
    ]
