-- ===== src/Syscall.antt =====
-- kernel/arch/x86_64/cpu/syscall.c, with the GDT's selectors of kernel/arch/x86_64/cpu/gdt.h and the
-- model-specific registers of io.h's `rdmsr` and `wrmsr`. The address of the entry stub of
-- syscall_entry.S is a parameter; the log line at the end of `syscall_init` is log.c's.
pub mod Entry
mod Tests
use quin_kernel_template.Base.{
  ℕ, ◌+◌, ◌-◌, ◌*◌, ◌^◌, Option, none, some, List, [], ◌∷◌, bit_or, u64, ◌<<<◌, ◌==◌, if◌then◌else◌,
}
use quin_kernel_template.Base.Int.{ℤ, negsuc}
use quin_kernel_template.Ports.{Ports, Msrs, wrmsr}
use quin_kernel_template.Panic.{Outcome, ok, panicked, ◌>>=◌}
use quin_kernel_template.Pmm.{page_size}
use quin_kernel_template.Vmm.{Vmm, vmm_alloc_guarded, vmm_writable}
use quin_kernel_template.Descriptors.{Tss, gdt_kernel_code, gdt_set_kernel_stack}
use quin_kernel_template.Framebuffer.{Font}
use quin_kernel_template.Printf.{word}
use quin_kernel_template.Log.{Log, warn, log_write}

abbrev pub gdt_kernel_data : ℕ
gdt_kernel_data = 0x10

abbrev pub ia32_efer : ℕ
ia32_efer = 0xc0000080

abbrev pub ia32_star : ℕ
ia32_star = 0xc0000081

abbrev pub ia32_lstar : ℕ
ia32_lstar = 0xc0000082

abbrev pub ia32_fmask : ℕ
ia32_fmask = 0xc0000084

abbrev pub efer_sce : ℕ
efer_sce = 1

abbrev pub fmask_if_tf : ℕ
fmask_if_tf = 0x300

abbrev pub syscall_kernel_stack_pages : ℕ
syscall_kernel_stack_pages = 4

abbrev pub enosys : ℕ
enosys = 38

-- What `syscall_init` works on.
pub record Cpu : Type 0 where
  pub vmm : Vmm
  pub tss : Tss
  pub kernel_syscall_rsp : ℕ
  pub msrs : Msrs

-- `syscall_init` once its stack is allocated.
unfoldable pub enable_syscalls : (syscall_entry : ℕ) → Cpu → (stack : ℕ) → Cpu
enable_syscalls syscall_entry s stack =
    let stack_top = u64 (stack + syscall_kernel_stack_pages * page_size) in
    let m1 = wrmsr s.msrs ia32_efer (bit_or (s.msrs ia32_efer) efer_sce) in
    let star = bit_or (u64 (gdt_kernel_data <<< 48)) (u64 (gdt_kernel_code <<< 32)) in
    let m2 = wrmsr m1 ia32_star star in
    let m3 = wrmsr m2 ia32_lstar syscall_entry in
    record s {
      tss = gdt_set_kernel_stack s.tss stack_top;
      kernel_syscall_rsp = stack_top;
      msrs = wrmsr m3 ia32_fmask fmask_if_tf;
    }

unfoldable pub syscall_init : (syscall_entry : ℕ) → Cpu → Outcome Cpu
unfolding enable_syscalls
syscall_init syscall_entry s =
    vmm_alloc_guarded s.vmm syscall_kernel_stack_pages vmm_writable >>= λ r.
    if r.1 == 0 then panicked else ok (enable_syscalls syscall_entry (record s { vmm = r.0 }) r.1)

abbrev pub not_implemented : List ℕ
not_implemented =
    b's' ∷ b'y' ∷ b's' ∷ b'c' ∷ b'a' ∷ b'l' ∷ b'l' ∷ b':' ∷ b' ' ∷ b'n' ∷ b'u' ∷ b'm' ∷ b'b' ∷ b'e'
    ∷ b'r' ∷ b' ' ∷ b'%' ∷ b'l' ∷ b'u' ∷ b' ' ∷ b'i' ∷ b's' ∷ b' ' ∷ b'n' ∷ b'o' ∷ b't' ∷ b' '
    ∷ b'i' ∷ b'm' ∷ b'p' ∷ b'l' ∷ b'e' ∷ b'm' ∷ b'e' ∷ b'n' ∷ b't' ∷ b'e' ∷ b'd' ∷ b' ' ∷ b'('
    ∷ b'E' ∷ b'N' ∷ b'O' ∷ b'S' ∷ b'Y' ∷ b'S' ∷ b')' ∷ []

-- `none` when the message could not be sent yet.
unfoldable pub syscall_dispatch :
    {D : Type 0} → Ports D → Font → (fuel : ℕ) → Log D → (syscall_number : ℕ) → Option (Log D × ℤ)
syscall_dispatch io font fuel s syscall_number =
    elim (log_write io font fuel s warn not_implemented (word syscall_number ∷ [])) [
      | none ↦ none
      | some t ↦ some (t, negsuc (enosys - 1))
    ]
