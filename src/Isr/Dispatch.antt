-- ===== src/Isr/Dispatch.antt =====
-- isr.c with vmm.c's page-fault handler at vector 14, as `vmm_init` registers it.
use quin_kernel_template.Base.{
  ℕ, ◌*◌, ◌/◌, ◌%◌, ◌^◌, ◌<◌, ◌≡◌, arith, Bool, true, false, List, [], ◌∷◌, ◌++◌, ◌⊎◌, none, some,
  ltb, if◌then◌else◌,
}
use quin_kernel_template.Isr.{
  InterruptFrame, Handler, Handlers, interrupt_register_handler, isr_dispatch,
}
use quin_kernel_template.Panic.{ok, panicked}
use quin_kernel_template.Vmm.{Vmm, page_fault_isr, vmm_handle_page_fault}
use quin_kernel_template.Vmm.Lazy.{any_covers, handle_page_fault-refuses}

-- What happens, in order.
pub data Event : Type 0 where
  eoi : Event
  handled : (vector : ℕ) → Event

-- The handler that only leaves its trace.
abbrev pub tracing : Handler (List Event)
tracing trace frame = ok (trace ++ (handled frame.vector ∷ []))

-- With a handler for the vectors that `has` tells of.
abbrev pub traced : (ℕ → Bool) → Handlers (List Event)
traced has v = if has v then some tracing else none

-- An interrupt of a device is acknowledged once, handler or not, and before its handler runs;
-- an exception is never acknowledged, and panics when it has no handler.
pub isr_dispatch-trace :
    (has : ℕ → Bool) (frame : InterruptFrame)
    → isr_dispatch (traced has) (λ trace. trace ++ (eoi ∷ [])) [] frame ≡ (
        if ltb frame.vector 32
        then (if has frame.vector then ok (handled frame.vector ∷ []) else panicked)
        else ok (eoi ∷ (if has frame.vector then handled frame.vector ∷ [] else [])))
unfolding isr_dispatch
isr_dispatch-trace has frame = ground arith

-- The kernel's handlers, with the page-fault handler registered; `cr2` reads the fault's address.
abbrev pub with_page_faults : (cr2 : ℕ) → Handlers Vmm → Handlers Vmm
with_page_faults cr2 handlers =
    interrupt_register_handler handlers 14 (λ s frame. page_fault_isr s cr2 frame.error_code)

-- A page fault, as the CPU raises it at vector 14, panics when a protection violation caused it or
-- its address is in no lazy region, whatever else is registered; when the fault is resolved, the
-- interrupted thread goes on in the state that the resolution leaves, with nothing acknowledged.
pub isr_dispatch-page_fault :
    (handlers : Handlers Vmm) (send_eoi : Vmm → Vmm) (s : Vmm) (frame : InterruptFrame) (cr2 : ℕ)
    → frame.vector ≡ 14
    → cr2 < 2 ^ 64
    → ((frame.error_code % 2 ≡ 1) ⊎ (any_covers (cr2 / 4096 * 4096) s.lazy_regions ≡ false)
        → isr_dispatch (with_page_faults cr2 handlers) send_eoi s frame ≡ panicked)
      × ((s' : Vmm)
          → vmm_handle_page_fault s cr2 frame.error_code ≡ (s', true)
          → isr_dispatch (with_page_faults cr2 handlers) send_eoi s frame ≡ ok s')
unfolding isr_dispatch interrupt_register_handler page_fault_isr
isr_dispatch-page_fault handlers send_eoi s frame cr2 fault fits = (
  λ refused. ground (arith, handle_page_fault-refuses s cr2 frame.error_code refused fits),
  λ s' e. ground (arith, e),
)
