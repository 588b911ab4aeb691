-- ===== src/Isr/Tests.antt =====
-- Runs of kernel/arch/x86_64/cpu/isr.c.
use quin_kernel_template.Base.{
  ◌≡◌, ◌%◌, ◌/◌, ◌*◌, ◌⊎◌, refl, true, false, [], ◌∷◌, ◌++◌, none, ◌==◌, arith,
}
use quin_kernel_template.Isr.{InterruptFrame, isr_dispatch}
use quin_kernel_template.Isr.Dispatch.{
  eoi, handled, traced, with_page_faults, isr_dispatch-trace, isr_dispatch-page_fault,
}
use quin_kernel_template.Panic.{ok, panicked}
use quin_kernel_template.Pmm.{Pmm}
use quin_kernel_template.Vmm.{Vmm, vmm_init, vmm_handle_page_fault}
use quin_kernel_template.Vmm.Lazy.{any_covers}

abbrev timer : InterruptFrame
timer = record { vector = 32; error_code = 0; rip = 0 }

isr_dispatch-trace_example :
    isr_dispatch (traced (λ v. v == 32)) (λ trace. trace ++ (eoi ∷ [])) [] timer
    ≡ ok (eoi ∷ handled 32 ∷ [])
isr_dispatch-trace_example = isr_dispatch-trace (λ v. v == 32) timer

abbrev fault : InterruptFrame
fault = record { vector = 14; error_code = 1; rip = 0 }

abbrev pmm : Pmm
pmm = record {
  bitmap = 4096;
  frame_count = 10;
  next_search_index = 0;
  hhdm_offset = 0;
  free_frames = 8;
}

abbrev booted : Vmm
booted = vmm_init 0 0 pmm (λ a. 0)

isr_dispatch-page_fault_example :
    ((1 % 2 ≡ 1) ⊎ (any_covers (5000 / 4096 * 4096) booted.lazy_regions ≡ false)
      → isr_dispatch (with_page_faults 5000 (λ v. none)) (λ s. s) booted fault ≡ panicked)
    × ((s' : Vmm)
        → vmm_handle_page_fault booted 5000 1 ≡ (s', true)
        → isr_dispatch (with_page_faults 5000 (λ v. none)) (λ s. s) booted fault ≡ ok s')
isr_dispatch-page_fault_example =
    isr_dispatch-page_fault (λ v. none) (λ s. s) booted fault 5000 refl (omega arith)
