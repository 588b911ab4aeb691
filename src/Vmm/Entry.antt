-- ===== src/Vmm/Entry.antt =====
-- vmm.c's addresses: the four indices of a virtual address.
use quin_kernel_template.Base.{ℕ, ◌+◌, ◌*◌, ◌/◌, ◌%◌, ◌^◌, ◌<◌, ◌≡◌, arith, bit_and}
use quin_kernel_template.Base.Bits.{bit_and_low}
use quin_kernel_template.Vmm.{page_table_indices}

-- The indices are the four digits in base 512 of the page's number, modulo 2 ^ 48: no two pages of
-- the 48-bit address space share all four, and each is an index of a table of 512 entries.
page_table_indices-recompose :
    (virt : ℕ)
    → let i = page_table_indices virt in
      (((i.pml4_i * 512 + i.pdpt_i) * 512 + i.pd_i) * 512 + i.pt_i ≡ virt % 2 ^ 48 / 4096)
      × (i.pml4_i < 512)
      × (i.pdpt_i < 512)
      × (i.pd_i < 512)
      × (i.pt_i < 512)
unfolding page_table_indices
page_table_indices-recompose virt = (
  omega (arith, a, b, c, d),
  omega (arith, a),
  omega (arith, b),
  omega (arith, c),
  omega (arith, d),
)
  where
    a : bit_and (virt / 2 ^ 39) 511 ≡ virt / 2 ^ 39 % 512
    a = bit_and_low 9 (virt / 2 ^ 39)

    b : bit_and (virt / 2 ^ 30) 511 ≡ virt / 2 ^ 30 % 512
    b = bit_and_low 9 (virt / 2 ^ 30)

    c : bit_and (virt / 2 ^ 21) 511 ≡ virt / 2 ^ 21 % 512
    c = bit_and_low 9 (virt / 2 ^ 21)

    d : bit_and (virt / 2 ^ 12) 511 ≡ virt / 2 ^ 12 % 512
    d = bit_and_low 9 (virt / 2 ^ 12)
