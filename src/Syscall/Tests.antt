-- ===== src/Syscall/Tests.antt =====
-- Runs of kernel/arch/x86_64/cpu/syscall.c.
use quin_kernel_template.Base.{◌≡◌, refl}
use quin_kernel_template.Vmm.{vmm_init}
use quin_kernel_template.Syscall.{Cpu, ia32_star, enable_syscalls}

abbrev cpu : Cpu
cpu = record {
  vmm =
      vmm_init 0 0
        (record {
          bitmap = 0;
          frame_count = 0;
          next_search_index = 0;
          hhdm_offset = 0;
          free_frames = 0;
        })
        (λ a. 0);
  tss = record { rsp0 = 0; iopb_offset = 104 };
  kernel_syscall_rsp = 0;
  msrs = λ x. 0;
}

star : (enable_syscalls 0x1000 cpu 0x8000).msrs ia32_star ≡ 0x0010000800000000
unfolding enable_syscalls
star = refl

stack_top : (enable_syscalls 0x1000 cpu 0x8000).tss.rsp0 ≡ 0xc000
unfolding enable_syscalls
stack_top = refl
