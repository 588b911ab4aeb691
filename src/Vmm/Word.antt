-- ===== src/Vmm/Word.antt =====
-- vmm.c's page-table entries as the CPU reads them: the frame in bits 12 to 51, and the bits for
-- present, writable, user, cache disabled, large page and no execution.
use quin_kernel_template.Base.{
  ℕ, ◌+◌, ◌*◌, ◌/◌, ◌%◌, ◌^◌, ◌<◌, ◌≡◌, ◌∙◌, Bool, true, arith, bit_and, bit_or, ◌==◌,
}
use quin_kernel_template.Base.Bits.{
  bit_and_low, bit_and_field, bit_or_fields, bit_or-zero, bit_or_disjoint, bit_or_comm,
}
use quin_kernel_template.Vmm.{
  pte_present, pte_writable, pte_user, pte_addr_mask, present, translate_flags,
}

abbrev pub frame_of : ℕ → ℕ
frame_of e = e / 2 ^ 12 % 2 ^ 40

-- Bit `k` of a word.
abbrev pub bit : (k e : ℕ) → Bool
bit k e = e / 2 ^ k % 2 == 1

abbrev pub is_present : ℕ → Bool
is_present e = bit 0 e

-- In an entry above the lowest level: it maps a large page, and leads to no table.
abbrev pub is_large : ℕ → Bool
is_large e = bit 7 e

-- What the entry of a page says.
pub record Page : Type 0 where
  pub frame : ℕ
  pub writable : Bool
  pub user : Bool
  pub no_cache : Bool
  pub no_execute : Bool

unfoldable pub page_of : ℕ → Page
page_of e = record {
  frame = frame_of e;
  writable = bit 1 e;
  user = bit 2 e;
  no_cache = bit 4 e;
  no_execute = bit 63 e;
}

pub present_lem : (e : ℕ) → present e ≡ is_present e
present_lem e = ground (arith, bit_and_low 1 e)

pub address_lem : (e : ℕ) → bit_and e pte_addr_mask ≡ frame_of e * 4096
address_lem e = omega (arith, bit_and_field 40 12 e)

or_low : (g r t : ℕ) → r < 4096 → t < 4096 → bit_or (g * 4096 + r) t ≡ g * 4096 + bit_or r t
or_low g r t hr ht = ground (arith, bit_or_fields 12 g 0 r t, bit_or-zero g)

-- `new_table_phys | PTE_PRESENT | PTE_WRITABLE | PTE_USER`
pub link_lem :
    (g : ℕ) → bit_or (bit_or (bit_or (g * 4096) pte_present) pte_writable) pte_user ≡ g * 4096 + 7
link_lem g =
    let first : bit_or (g * 4096) 1 ≡ g * 4096 + 1 = bit_or_disjoint 12 g 1 (omega arith) in
    let second : bit_or (g * 4096 + 1) 2 ≡ g * 4096 + 3 =
      or_low g 1 2 (omega arith) (omega arith) in
    let third : bit_or (g * 4096 + 3) 4 ≡ g * 4096 + 7 = or_low g 3 4 (omega arith) (omega arith) in
    rw (first, second, third)

-- `flags & (1 << k)`
flag_lem : (k flags : ℕ) → bit_and flags (2 ^ k) ≡ flags / 2 ^ k % 2 * 2 ^ k
flag_lem k flags = ground (arith, bit_and_field 1 k flags)

-- The flags that stand below the frame in the word.
abbrev low_flags : ℕ → ℕ
low_flags flags = 1 + flags % 2 * 2 + flags / 2 % 2 * 4 + flags / 4 % 2 * 16

translate_flags_lem : (flags : ℕ) → translate_flags flags ≡ low_flags flags + flags / 8 % 2 * 2 ^ 63
unfolding translate_flags
translate_flags_lem flags =
    ground (arith, flag_lem 0 flags, flag_lem 1 flags, flag_lem 2 flags, flag_lem 3 flags)

-- The word that `vmm_map` writes, as a number.
leaf_word :
    (phys flags : ℕ)
    → bit_or (bit_and phys pte_addr_mask) (translate_flags flags)
      ≡ frame_of phys * 4096 + translate_flags flags
leaf_word phys flags =
    let high : bit_or (frame_of phys) (flags / 8 % 2 * 2 ^ 51)
        ≡ flags / 8 % 2 * 2 ^ 51 + frame_of phys =
      bit_or_comm (frame_of phys) (flags / 8 % 2 * 2 ^ 51)
      ∙ bit_or_disjoint 51 (flags / 8 % 2) (frame_of phys) (omega arith) in
    let none : bit_or 0 (low_flags flags) ≡ low_flags flags =
      bit_or_comm 0 (low_flags flags) ∙ bit_or-zero (low_flags flags) in
    let split : bit_or (frame_of phys * 2 ^ 12 + 0)
          (flags / 8 % 2 * 2 ^ 51 * 2 ^ 12 + low_flags flags)
        ≡ bit_or (frame_of phys) (flags / 8 % 2 * 2 ^ 51) * 2 ^ 12 + bit_or 0 (low_flags flags) =
      bit_or_fields 12 (frame_of phys) (flags / 8 % 2 * 2 ^ 51) 0 (low_flags flags) (omega arith)
        (omega arith) in
    let left : bit_and phys pte_addr_mask ≡ frame_of phys * 2 ^ 12 + 0 =
      omega (arith, address_lem phys) in
    let right : translate_flags flags ≡ flags / 8 % 2 * 2 ^ 51 * 2 ^ 12 + low_flags flags =
      omega (arith, translate_flags_lem flags) in
    rw (left, right) (omega (arith, split, high, none))

-- The page that a call of `vmm_map` asks for.
unfoldable pub asked : (phys flags : ℕ) → Page
asked phys flags = record {
  frame = frame_of phys;
  writable = bit 0 flags;
  user = bit 1 flags;
  no_cache = bit 2 flags;
  no_execute = bit 3 flags;
}

-- The CPU reads from the word that `vmm_map` writes what was asked for.
pub leaf_lem :
    (phys flags : ℕ)
    → let e = bit_or (bit_and phys pte_addr_mask) (translate_flags flags) in
      (is_present e ≡ true) × (page_of e ≡ asked phys flags) × (e < 2 ^ 64)
unfolding page_of asked
leaf_lem phys flags =
    rw (leaf_word phys flags, translate_flags_lem flags) (ground arith, ground arith, omega arith)
