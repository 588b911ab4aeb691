-- ===== src/Descriptors/Decode.antt =====
-- What the CPU reads from the descriptors of gdt.c and the gates of idt.c.
use quin_kernel_template.Base.{
  ℕ, zero, suc, ◌+◌, ◌-◌, ◌*◌, ◌/◌, ◌%◌, ◌^◌, ◌<◌, ◌≤◌, ◌≡◌, arith, ltb, leb, ◌&&◌, ◌==◌, u8,
  if◌then◌else◌, true, refl, Option, some, none, Bool-cases, inl, inr, ◌∙◌, ap,
}
use quin_kernel_template.Base.Bits.{bit_and_low}
use quin_kernel_template.Descriptors.{
  TssDescriptor, IdtEntry, Idt, gate, set_gate, set_gates, empty_gate, idt_init, set_tss_descriptor,
}

-- The handler's address as the CPU puts it together.
abbrev pub offset : IdtEntry → ℕ
offset g = g.offset_low + g.offset_mid * 2 ^ 16 + g.offset_high * 2 ^ 32

abbrev pub base : TssDescriptor → ℕ
base d = d.base_low + d.base_mid * 2 ^ 16 + d.base_high * 2 ^ 24 + d.base_upper * 2 ^ 32

abbrev pub limit : TssDescriptor → ℕ
limit d = d.limit_low + d.granularity % 16 * 2 ^ 16

-- The CPU reads back the base and the limit that the descriptor was set with.
set_tss_descriptor-round_trip :
    (b l : ℕ)
    → b < 2 ^ 64
    → l < 2 ^ 20
    → (base (set_tss_descriptor b l) ≡ b) × (limit (set_tss_descriptor b l) ≡ l)
unfolding set_tss_descriptor
set_tss_descriptor-round_trip b l fits small = (
  omega (arith, bit_and_low 16 b, bit_and_low 8 (b / 2 ^ 16), bit_and_low 8 (b / 2 ^ 24)),
  omega (arith, bit_and_low 16 l, bit_and_low 4 (l / 2 ^ 16)),
)

offset-gate : (addr : ℕ) → addr < 2 ^ 64 → offset (gate addr) ≡ addr
unfolding gate
offset-gate addr fits = omega (arith, bit_and_low 16 addr, bit_and_low 16 (addr / 2 ^ 16))

set_gates-inside :
    (first : ℕ) (stubs : ℕ → ℕ) (left i : ℕ) (idt : Idt) (v : ℕ)
    → first + i + left ≤ 256
    → set_gates first stubs left i idt v
      ≡ (if leb (first + i) v && ltb v (first + i + left) then gate (stubs (v - first)) else idt v)
unfolding set_gates set_gate
set_gates-inside first stubs zero i idt v fits = ground arith
set_gates-inside first stubs (suc left) i idt v fits =
    set_gates-inside first stubs left (i + 1) (set_gate idt (u8 (first + i)) (stubs i)) v
      (omega arith)
    ∙ elim (Bool-cases (v == first + i)) [
      | inl here ↦ ground (arith, index here)
      | inr away ↦ ground arith
    ]
  where
    index : (v == first + i) ≡ true → stubs (v - first) ≡ stubs i
    index here = ap (λ (k : ℕ). stubs k) {x = v - first} {y = i} (ground arith)

-- The gate at `v`, once the two loops are known by what they leave there.
idt_init_at :
    (isr_stubs irq_stubs : ℕ → ℕ) (spurious v : ℕ)
    → idt_init isr_stubs irq_stubs spurious v ≡ (
        if v == 255
        then gate spurious
        else if leb 32 v && ltb v 48
        then gate (irq_stubs (v - 32))
        else if leb 0 v && ltb v 32
        then gate (isr_stubs (v - 0))
        else empty_gate)
unfolding idt_init set_gate
idt_init_at isr_stubs irq_stubs spurious v =
    ap (λ (x : IdtEntry). if v == 255 then gate spurious else x)
      (set_gates-inside 32 irq_stubs 16 0 (set_gates 0 isr_stubs 32 0 (λ w. empty_gate)) v
          (omega arith)
        ∙ ap (λ (x : IdtEntry). if leb 32 v && ltb v 48 then gate (irq_stubs (v - 32)) else x)
            (set_gates-inside 0 isr_stubs 32 0 (λ w. empty_gate) v (omega arith)))

-- The handler that the stubs give for a vector, if any.
pub stub_of : (isr_stubs irq_stubs : ℕ → ℕ) (spurious v : ℕ) → Option ℕ
stub_of isr_stubs irq_stubs spurious v =
    if v == 255
    then some spurious
    else if leb 32 v && ltb v 48
    then some (irq_stubs (v - 32))
    else if ltb v 32
    then some (isr_stubs v)
    else none

gate_of : Option ℕ → IdtEntry
gate_of none = empty_gate
gate_of (some addr) = gate addr

idt_init_gate :
    (isr_stubs irq_stubs : ℕ → ℕ) (spurious v : ℕ)
    → idt_init isr_stubs irq_stubs spurious v ≡ gate_of (stub_of isr_stubs irq_stubs spurious v)
unfolding stub_of gate_of
idt_init_gate isr_stubs irq_stubs spurious v =
    idt_init_at isr_stubs irq_stubs spurious v
    ∙ ground (arith, ap (λ (k : ℕ). gate (isr_stubs k)) {x = v - 0} {y = v} (omega arith))

-- A gate for the handler at `addr`: present, for the kernel, in its code segment.
pub record Reaches (g : IdtEntry) (addr : ℕ) : Type 0 where
  pub offset_is : offset g ≡ addr
  pub interrupt_gate : g.type_attr ≡ 0x8e
  pub code_segment : g.selector ≡ 8

gate-Reaches : (addr : ℕ) → addr < 2 ^ 64 → Reaches (gate addr) addr
unfolding gate
gate-Reaches addr fits = record {
  offset_is = offset-gate addr fits;
  interrupt_gate = refl;
  code_segment = refl;
}

-- The CPU reads back from the table, for each vector, the stub of that vector: of the exceptions 0
-- to 31, of the IRQ lines at 32 to 47, and of spurious interrupts at 255; all other gates are empty.
pub idt_init_lem :
    (isr_stubs irq_stubs : ℕ → ℕ) (spurious v addr : ℕ)
    → addr < 2 ^ 64
    → (stub_of isr_stubs irq_stubs spurious v ≡ some addr
        → Reaches (idt_init isr_stubs irq_stubs spurious v) addr)
      × (stub_of isr_stubs irq_stubs spurious v ≡ none
          → idt_init isr_stubs irq_stubs spurious v ≡ empty_gate)
unfolding gate_of
idt_init_lem isr_stubs irq_stubs spurious v addr fits =
    rw (idt_init_gate isr_stubs irq_stubs spurious v)
      ((λ e. rw e (gate-Reaches addr fits)), (λ e. ap gate_of e))
