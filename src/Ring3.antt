-- ===== src/Ring3.antt =====
-- kernel/main.c's ring3_demo_thread: a page for a user program, a page for its stack, the program.
-- A store goes through the CPU's walk of the page tables. The log lines are left out.
pub mod Program
pub mod Result
pub mod Entry
use quin_kernel_template.Base.{
  ℕ, ◌+◌, ◌*◌, ◌%◌, Bool, true, false, not, ◌||◌, ◌==◌, Option, none, some, List, [], ◌∷◌, bit_or,
  if◌then◌else◌,
}
use quin_kernel_template.Memory.{store}
use quin_kernel_template.Pmm.{page_size}
use quin_kernel_template.Vmm.{Vmm, take_frame, vmm_map, vmm_user, vmm_writable, vmm_no_execute}
use quin_kernel_template.Vmm.Translate.{translate}
use quin_kernel_template.Vmm.Tree.{Translation, unmapped, page, large}

abbrev pub user_code_vaddr : ℕ
user_code_vaddr = 0x400000

abbrev pub user_stack_vaddr : ℕ
user_stack_vaddr = 0x500000

-- syscall; jmp to itself
abbrev pub demo_program : List ℕ
demo_program = 0x0f ∷ 0x05 ∷ 0xeb ∷ 0xfe ∷ []

-- A byte at a virtual address, in a 4 KiB page; `none` is a fault, as for a page that may not be
-- written: the kernel runs with the CPU's write protection on.
pub write_in : Translation → Vmm → (virt value : ℕ) → Option Vmm
write_in (page p) s virt value =
    if p.writable
    then some (record s { mem = store s.mem (s.hhdm_offset + p.frame * 4096 + virt % 4096) value })
    else none
write_in unmapped s virt value = none
write_in (large e) s virt value = none

-- The stores code[0] = ..., code[1] = ... on.
pub write_bytes : Vmm → (virt : ℕ) → List ℕ → Option Vmm
unfolding write_in
write_bytes s virt [] = some s
write_bytes s virt (b ∷ bs) = elim (write_in (translate s virt) s virt b) [
  | none ↦ none
  | some t ↦ write_bytes t (virt + 1) bs
]

-- Halted for good without the mapping, a page fault on the way, or on to ring 3.
pub data DemoRun : Type 0 where
  skipped : Vmm → DemoRun
  stopped_by_fault : DemoRun
  ring3 : Vmm → (code_vaddr stack_top : ℕ) → DemoRun

enter : Option Vmm → DemoRun
enter none = stopped_by_fault
enter (some s) = ring3 s user_code_vaddr (user_stack_vaddr + page_size)

map_stack : Vmm × Bool → (stack_phys : ℕ) → DemoRun
unfolding enter
map_stack code stack_phys =
    if not code.1
    then skipped code.0
    else let r =
        vmm_map code.0 user_stack_vaddr stack_phys
          (bit_or (bit_or vmm_user vmm_writable) vmm_no_execute) in
      if not r.1 then skipped r.0 else enter (write_bytes r.0 user_code_vaddr demo_program)

unfoldable pub ring3_demo_thread : Vmm → DemoRun
unfolding map_stack
ring3_demo_thread s =
    let code = take_frame s in
    let stack = take_frame code.0 in
    if code.1 == 0 || stack.1 == 0
    then skipped stack.0
    else map_stack (vmm_map stack.0 user_code_vaddr code.1 (bit_or vmm_user vmm_writable)) stack.1
