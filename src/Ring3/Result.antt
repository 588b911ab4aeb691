-- ===== src/Ring3/Result.antt =====
-- The outcomes of ring3_demo_thread.
use quin_kernel_template.Base.{ℕ, ◌+◌, ◌*◌, ◌<◌, ◌≡◌, ◌≢◌, ◌==◌, bit_or, if◌then◌else◌}
use quin_kernel_template.Memory.{load}
use quin_kernel_template.Pmm.{page_size}
use quin_kernel_template.Pmm.Valid.{IsFree}
use quin_kernel_template.Ring3.{
  user_code_vaddr, user_stack_vaddr, demo_program, DemoRun, skipped, ring3,
}
use quin_kernel_template.Ring3.Program.{overwritten}
use quin_kernel_template.Vmm.{Vmm, vmm_user, vmm_writable, vmm_no_execute}
use quin_kernel_template.Vmm.Tables.{HasTables, Untouched}
use quin_kernel_template.Vmm.Translate.{translate, page_number}
use quin_kernel_template.Vmm.Tree.{Owners, page}
use quin_kernel_template.Vmm.Walk.{IsFull}
use quin_kernel_template.Vmm.Word.{asked}

abbrev pub code_flags : ℕ
code_flags = bit_or vmm_user vmm_writable

abbrev pub stack_flags : ℕ
stack_flags = bit_or (bit_or vmm_user vmm_writable) vmm_no_execute

-- How the thread ends up.
pub data DemoResult (s : Vmm) (own : Owners) : DemoRun → Type 0 where
  no_memory :
      (s' : Vmm) (own' : Owners)
      → IsFull s'
      → HasTables s' own'
      → Untouched s own s' own'
      → DemoResult s own (skipped s')
  in_ring3 :
      (s' : Vmm) (own' : Owners) (g h : ℕ)
      → IsFree s.pmm s.mem g
      → IsFree s.pmm s.mem h
      → g ≢ h
      → HasTables s' own'
      → ((v : ℕ)
          → translate s' v ≡ (
              if page_number v == page_number user_stack_vaddr
              then page (asked (h * 4096) stack_flags)
              else if page_number v == page_number user_code_vaddr
              then page (asked (g * 4096) code_flags)
              else translate s v))
      → ((a : ℕ)
          → a < 4096
          → load s'.mem (s.hhdm_offset + g * 4096 + a) ≡ overwritten 0 demo_program 0 a)
      → ((a : ℕ) → a < 4096 → load s'.mem (s.hhdm_offset + h * 4096 + a) ≡ 0)
      → DemoResult s own (ring3 s' user_code_vaddr (user_stack_vaddr + page_size))
