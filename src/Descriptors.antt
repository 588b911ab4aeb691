-- ===== src/Descriptors.antt =====
-- kernel/arch/x86_64/cpu/gdt.c and idt.c: the tables that the CPU reads. The stubs of isr_stubs.S
-- are given by their addresses; the `lgdt`, `ltr` and `lidt` instructions are not modelled.
pub mod Decode
mod Tests
use quin_kernel_template.Base.{
  ℕ, zero, suc, ◌+◌, ◌-◌, ◌*◌, ◌/◌, ◌^◌, u8, u16, u32, ◌==◌, if◌then◌else◌, bit_and, bit_or,
}

pub record GdtEntry : Type 0 where
  pub limit_low : ℕ
  pub base_low : ℕ
  pub base_mid : ℕ
  pub access : ℕ
  pub granularity : ℕ
  pub base_high : ℕ

pub record TssDescriptor : Type 0 where
  pub limit_low : ℕ
  pub base_low : ℕ
  pub base_mid : ℕ
  pub access : ℕ
  pub granularity : ℕ
  pub base_high : ℕ
  pub base_upper : ℕ
  pub reserved : ℕ

-- The fields of the task state segment that the kernel writes; all others stay 0.
pub record Tss : Type 0 where
  pub rsp0 : ℕ
  pub iopb_offset : ℕ

pub record GdtTable : Type 0 where
  pub null : GdtEntry
  pub kernel_code : GdtEntry
  pub kernel_data : GdtEntry
  pub user_data : GdtEntry
  pub user_code : GdtEntry
  pub tss : TssDescriptor

unfoldable pub set_entry : (access flags : ℕ) → GdtEntry
set_entry access flags = record {
  limit_low = 0xffff;
  base_low = 0;
  base_mid = 0;
  access = access;
  granularity = u8 (bit_or (flags * 2 ^ 4) 0x0f);
  base_high = 0;
}

unfoldable pub set_tss_descriptor : (base limit : ℕ) → TssDescriptor
set_tss_descriptor base limit = record {
  limit_low = u16 (bit_and limit 0xffff);
  base_low = u16 (bit_and base 0xffff);
  base_mid = u8 (bit_and (base / 2 ^ 16) 0xff);
  access = 0x89;
  granularity = u8 (bit_and (limit / 2 ^ 16) 0x0f);
  base_high = u8 (bit_and (base / 2 ^ 24) 0xff);
  base_upper = u32 (base / 2 ^ 32);
  reserved = 0;
}

abbrev pub tss_size : ℕ
tss_size = 104

-- The two tables, with the task state segment at the address `tss`.
unfoldable pub gdt_init : (tss : ℕ) → GdtTable × Tss
unfolding set_entry set_tss_descriptor
gdt_init tss = (
  record {
    null = record {
      limit_low = 0;
      base_low = 0;
      base_mid = 0;
      access = 0;
      granularity = 0;
      base_high = 0;
    };
    kernel_code = set_entry 0x9a 0xa;
    kernel_data = set_entry 0x92 0xc;
    user_data = set_entry 0xf2 0xc;
    user_code = set_entry 0xfa 0xa;
    tss = set_tss_descriptor tss (tss_size - 1);
  },
  record { rsp0 = 0; iopb_offset = tss_size },
)

abbrev pub gdt_set_kernel_stack : Tss → (rsp0 : ℕ) → Tss
gdt_set_kernel_stack t rsp0 = record t { rsp0 = rsp0 }

pub record IdtEntry : Type 0 where
  pub offset_low : ℕ
  pub selector : ℕ
  pub ist : ℕ
  pub type_attr : ℕ
  pub offset_mid : ℕ
  pub offset_high : ℕ
  pub reserved : ℕ

abbrev pub gdt_kernel_code : ℕ
gdt_kernel_code = 0x08

-- The gate that `set_gate` writes for a handler at `addr`.
unfoldable pub gate : (addr : ℕ) → IdtEntry
gate addr = record {
  offset_low = u16 (bit_and addr 0xffff);
  selector = gdt_kernel_code;
  ist = 0;
  type_attr = 0x8e;
  offset_mid = u16 (bit_and (addr / 2 ^ 16) 0xffff);
  offset_high = u32 (addr / 2 ^ 32);
  reserved = 0;
}

abbrev pub Idt : Type 0
Idt = ℕ → IdtEntry

unfoldable pub set_gate : Idt → (vector handler : ℕ) → Idt
unfolding gate
set_gate idt vector handler v = if v == vector then gate handler else idt v

abbrev pub empty_gate : IdtEntry
empty_gate = record {
  offset_low = 0;
  selector = 0;
  ist = 0;
  type_attr = 0;
  offset_mid = 0;
  offset_high = 0;
  reserved = 0;
}

-- for (i; i < n; i++) set_gate((uint8_t)(first + i), stubs[i]), with `left` rounds to go.
unfoldable pub set_gates : (first : ℕ) (stubs : ℕ → ℕ) (left i : ℕ) → Idt → Idt
unfolding set_gate
set_gates first stubs zero i idt = idt
set_gates first stubs (suc left) i idt =
    set_gates first stubs left (i + 1) (set_gate idt (u8 (first + i)) (stubs i))

unfoldable pub idt_init : (isr_stubs irq_stubs : ℕ → ℕ) (isr_stub_spurious : ℕ) → Idt
unfolding set_gates set_gate
idt_init isr_stubs irq_stubs isr_stub_spurious =
    set_gate (set_gates 32 irq_stubs 16 0 (set_gates 0 isr_stubs 32 0 (λ v. empty_gate))) 0xff
      isr_stub_spurious
