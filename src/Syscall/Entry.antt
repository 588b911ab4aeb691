-- ===== src/Syscall/Entry.antt =====
-- kernel/arch/x86_64/cpu/syscall.c: what the CPU does with the registers that `syscall_init` sets,
-- after the SDM's description of SYSCALL and SYSRET.
use quin_kernel_template.Base.{
  ℕ, ◌/◌, ◌%◌, ◌^◌, ◌≡◌, ◌≢◌, refl, arith, ◌==◌, if◌then◌else◌, ◌+◌, ◌*◌, u64, Bool-cases, inl, inr,
}
use quin_kernel_template.Base.Bits.{or_digit, bit_or-zero}
use quin_kernel_template.Panic.{Outcome, ok, panicked, ◌>>=◌}
use quin_kernel_template.Vmm.{Vmm, vmm_alloc_guarded, vmm_writable}
use quin_kernel_template.Descriptors.{GdtEntry, GdtTable, gdt_init}
use quin_kernel_template.Ports.{Msrs}
use quin_kernel_template.Syscall.{
  Cpu, ia32_efer, ia32_star, ia32_lstar, ia32_fmask, enable_syscalls, syscall_init,
  syscall_kernel_stack_pages,
}

-- The selectors that SYSCALL and SYSRET load.
abbrev pub syscall_cs : Msrs → ℕ
syscall_cs m = m ia32_star / 2 ^ 32 % 2 ^ 16

abbrev pub syscall_ss : Msrs → ℕ
syscall_ss m = m ia32_star / 2 ^ 32 % 2 ^ 16 + 8

abbrev pub sysret_cs : Msrs → ℕ
sysret_cs m = m ia32_star / 2 ^ 48 % 2 ^ 16 + 16

abbrev pub sysret_ss : Msrs → ℕ
sysret_ss m = m ia32_star / 2 ^ 48 % 2 ^ 16 + 8

-- The segment that a selector names.
abbrev pub segment : GdtTable → (selector : ℕ) → GdtEntry
segment t selector =
    if selector / 8 == 1
    then t.kernel_code
    else if selector / 8 == 2
    then t.kernel_data
    else if selector / 8 == 3
    then t.user_data
    else if selector / 8 == 4
    then t.user_code
    else t.null

-- The CPU enters the kernel at `syscall_entry`, in the GDT's kernel segments and with interrupts and
-- single steps off, and returns to its user segments; system calls and interrupts both start at the
-- end of the four pages at `stack`; all other bits of EFER, and all other registers, are as they were.
pub record IsEntry (syscall_entry stack : ℕ) (s t : Cpu) : Type 0 where
  pub enabled : t.msrs ia32_efer % 2 ≡ 1
  pub efer_kept : t.msrs ia32_efer / 2 ≡ s.msrs ia32_efer / 2
  pub entered_at : t.msrs ia32_lstar ≡ syscall_entry
  pub masked : t.msrs ia32_fmask ≡ 2 ^ 9 + 2 ^ 8
  pub kernel_code :
      (tss : ℕ) → segment (gdt_init tss).0 (syscall_cs t.msrs) ≡ (gdt_init tss).0.kernel_code
  pub kernel_data :
      (tss : ℕ) → segment (gdt_init tss).0 (syscall_ss t.msrs) ≡ (gdt_init tss).0.kernel_data
  pub user_code :
      (tss : ℕ) → segment (gdt_init tss).0 (sysret_cs t.msrs) ≡ (gdt_init tss).0.user_code
  pub user_data :
      (tss : ℕ) → segment (gdt_init tss).0 (sysret_ss t.msrs) ≡ (gdt_init tss).0.user_data
  pub call_stack : t.kernel_syscall_rsp ≡ u64 (stack + 4 * 4096)
  pub interrupt_stack : t.tss.rsp0 ≡ u64 (stack + 4 * 4096)
  pub iopb_kept : t.tss.iopb_offset ≡ s.tss.iopb_offset
  pub others :
      (x : ℕ)
      → x ≢ ia32_efer
      → x ≢ ia32_star
      → x ≢ ia32_lstar
      → x ≢ ia32_fmask
      → t.msrs x ≡ s.msrs x

enabled-IsEntry :
    (syscall_entry : ℕ) (s : Cpu) (vmm : Vmm) (stack : ℕ)
    → IsEntry syscall_entry stack s (enable_syscalls syscall_entry (record s { vmm = vmm }) stack)
unfolding enable_syscalls
enabled-IsEntry syscall_entry s vmm stack = record {
  enabled = omega (arith, or_digit (s.msrs ia32_efer) 1);
  efer_kept = omega (arith, or_digit (s.msrs ia32_efer) 1, bit_or-zero (s.msrs ia32_efer / 2));
  entered_at = refl;
  masked = refl;
  kernel_code = λ tss. refl;
  kernel_data = λ tss. refl;
  user_code = λ tss. refl;
  user_data = λ tss. refl;
  call_stack = refl;
  interrupt_stack = refl;
  iopb_kept = refl;
  others = λ x e1 e2 e3 e4. ground arith;
}

-- How syscall_init ends, for what the allocation of its stack gives.
pub data Entered (syscall_entry : ℕ) (s : Cpu) : Outcome (Vmm × ℕ) → Outcome Cpu → Type 0 where
  panics : Entered syscall_entry s panicked panicked
  no_stack : (vmm : Vmm) → Entered syscall_entry s (ok (vmm, 0)) panicked
  enters :
      (vmm : Vmm) (stack : ℕ) (t : Cpu)
      → stack ≢ 0
      → t.vmm ≡ vmm
      → IsEntry syscall_entry stack s t
      → Entered syscall_entry s (ok (vmm, stack)) (ok t)

enter_or_panic : (syscall_entry : ℕ) → Cpu → Outcome (Vmm × ℕ) → Outcome Cpu
enter_or_panic syscall_entry s o = o >>= λ r.
    if r.1 == 0 then panicked else ok (enable_syscalls syscall_entry (record s { vmm = r.0 }) r.1)

enter_or_panic_lem :
    (syscall_entry : ℕ) (s : Cpu) (o : Outcome (Vmm × ℕ))
    → Entered syscall_entry s o (enter_or_panic syscall_entry s o)
unfolding enter_or_panic enable_syscalls
enter_or_panic_lem syscall_entry s panicked = panics
enter_or_panic_lem syscall_entry s (ok (vmm, stack)) = elim (Bool-cases (stack == 0)) [
  | inl null ↦ let e : stack ≡ 0 = ground arith in rw e (no_stack vmm)
  | inr real ↦ rw real (
      enters vmm stack (enable_syscalls syscall_entry (record s { vmm = vmm }) stack)
        (ground (arith, real)) refl (enabled-IsEntry syscall_entry s vmm stack))
]

-- syscall_init panics exactly when its stack of four pages cannot be allocated. Otherwise the stack
-- is not NULL, and the stub's stack and RSP0 of the TSS both start at its end. The CPU then enters
-- the kernel at the entry stub with the GDT's kernel segments, interrupts and single steps off, and
-- SYSRET leaves it with the GDT's user segments. All other registers and bits of EFER are kept.
pub init-Entered :
    (syscall_entry : ℕ) (s : Cpu)
    → Entered syscall_entry s
        (vmm_alloc_guarded s.vmm syscall_kernel_stack_pages vmm_writable)
        (syscall_init syscall_entry s)
unfolding syscall_init enter_or_panic
init-Entered syscall_entry s =
    enter_or_panic_lem syscall_entry s
      (vmm_alloc_guarded s.vmm syscall_kernel_stack_pages vmm_writable)
