-- ===== src/Descriptors/Tests.antt =====
-- Runs of kernel/arch/x86_64/cpu/gdt.c and idt.c.
use quin_kernel_template.Base.{ℕ, ◌+◌, ◌*◌, ◌≡◌, some, none, arith}
use quin_kernel_template.Descriptors.{idt_init, empty_gate}
use quin_kernel_template.Descriptors.Decode.{Reaches, stub_of, idt_init_lem}

abbrev exceptions : ℕ → ℕ
exceptions k = 0xffffffff80100000 + k * 16

abbrev lines : ℕ → ℕ
lines k = 0xffffffff80200000 + k * 16

idt_init_lem_example :
    (stub_of exceptions lines 7 33 ≡ some 0xffffffff80200010
      → Reaches (idt_init exceptions lines 7 33) 0xffffffff80200010)
    × (stub_of exceptions lines 7 33 ≡ none → idt_init exceptions lines 7 33 ≡ empty_gate)
idt_init_lem_example = idt_init_lem exceptions lines 7 33 0xffffffff80200010 (omega arith)
