-- ===== src/Vmm/Translate.antt =====
-- vmm.c's page tables as the translation of addresses: the CPU's walk from CR3 on, and what a write
-- to the entry of a page does to it.
use quin_kernel_template.Base.{
  ℕ, ◌+◌, ◌*◌, ◌/◌, ◌%◌, ◌^◌, ◌<◌, ◌≡◌, ◌≢◌, ap, false, arith, ◌==◌, ◌&&◌, List, [], ◌∷◌,
}
use quin_kernel_template.Base.Bits.{bit_and_low}
use quin_kernel_template.Vmm.{Vmm, Indices, page_table_indices, set_entry}
use quin_kernel_template.Vmm.Reach.{root}
use quin_kernel_template.Vmm.Tables.{words, HasTables, other_words}
use quin_kernel_template.Vmm.Tree.{
  Owners, Translation, unmapped, page, translate_from, walk_to, is_large_page, Leads, Leads-owner,
  path_number,
}
use quin_kernel_template.Vmm.Tree.Change.{Leads-written, walks_written}
use quin_kernel_template.Vmm.Tree as Tree

abbrev pub path : (virt : ℕ) → List ℕ
path virt =
    virt / 2 ^ 39 % 512 ∷ virt / 2 ^ 30 % 512 ∷ virt / 2 ^ 21 % 512 ∷ virt / 2 ^ 12 % 512 ∷ []

-- What the CPU finds for an address.
unfoldable pub translate : Vmm → (virt : ℕ) → Translation
translate s virt = translate_from (words s) (root s) (path virt)

-- The page of a 48-bit address.
abbrev pub page_number : ℕ → ℕ
page_number virt = virt / 4096 % 2 ^ 36

pub path-InTables : (virt : ℕ) → Tree.InTables (path virt)
path-InTables virt = (omega arith, (omega arith, (omega arith, (omega arith, tt))))

path_number-path : (virt : ℕ) → path_number 0 (path virt) ≡ page_number virt
unfolding path_number
path_number-path virt = omega arith

pub path_eq : (u v : ℕ) → page_number u ≡ page_number v → path u ≡ path v
path_eq u v e =
    let a : u / 2 ^ 39 % 512 ≡ v / 2 ^ 39 % 512 = omega arith in
    let b : u / 2 ^ 30 % 512 ≡ v / 2 ^ 30 % 512 = omega arith in
    let c : u / 2 ^ 21 % 512 ≡ v / 2 ^ 21 % 512 = omega arith in
    let d : u / 2 ^ 12 % 512 ≡ v / 2 ^ 12 % 512 = omega arith in rw (a, b, c, d)

abbrev pub indices : (virt : ℕ) → Indices
indices virt = record {
  pml4_i = virt / 2 ^ 39 % 512;
  pdpt_i = virt / 2 ^ 30 % 512;
  pd_i = virt / 2 ^ 21 % 512;
  pt_i = virt / 2 ^ 12 % 512;
}

pub indices_lem : (virt : ℕ) → page_table_indices virt ≡ indices virt
unfolding page_table_indices
indices_lem virt = rw (
  bit_and_low 9 (virt / 2 ^ 39),
  bit_and_low 9 (virt / 2 ^ 30),
  bit_and_low 9 (virt / 2 ^ 21),
  bit_and_low 9 (virt / 2 ^ 12),
)

pub translate_page :
    (s : Vmm) (u v : ℕ) → page_number u ≡ page_number v → translate s u ≡ translate s v
unfolding translate
translate_page s u v e = ap (translate_from (words s) (root s)) (path_eq u v e)

-- After a write of `e` for the page of `virt` in the lowest table `f`.
module _ {s : Vmm} {own : Owners} (t : HasTables s own) (virt f e : ℕ) (lowest : own.level f ≡ 1)
    (l : Leads
      (words s)
      (root s)
      (virt / 2 ^ 39 % 512 ∷ virt / 2 ^ 30 % 512 ∷ virt / 2 ^ 21 % 512 ∷ [])
      f) where
  abbrev pub upper : List ℕ
  upper = virt / 2 ^ 39 % 512 ∷ virt / 2 ^ 30 % 512 ∷ virt / 2 ^ 21 % 512 ∷ []

  abbrev pub last : ℕ
  last = virt / 2 ^ 12 % 512

  abbrev pub written : Vmm
  written = set_entry s (s.hhdm_offset + f * 4096) last e

  upper-InTables : Tree.InTables upper
  upper-InTables = (omega arith, (omega arith, (omega arith, tt)))

  table : own.level f ≢ 0
  table = omega arith

  others :
      (h j : ℕ)
      → own.level h ≢ 0
      → j < 512
      → ((h == f) && (j == last)) ≡ false
      → words written h j ≡ words s h j
  others h j o lt away = other_words t f last e table (omega arith) h j lt away

  place : own.prefix f * 512 + last ≡ page_number virt
  unfolding path_number
  place = omega (
    arith,
    t.root_prefix,
    (Leads-owner 0 (root s) upper f t.tree t.root_level upper-InTables l).1,
  )

  pub translate-written_other :
      (v : ℕ) → page_number v ≢ page_number virt → translate written v ≡ translate s v
  unfolding translate
  translate-written_other v apart =
      walks_written f last t.tree lowest others (root s) (path v) t.root_level (path-InTables v)
        (rw (t.root_prefix, path_number-path v, place) apart)

  pub translate-written_same :
      (v : ℕ)
      → e < 2 ^ 64
      → page_number v ≡ page_number virt
      → translate written v ≡ translate_from (words written) f (last ∷ [])
  unfolding translate
  translate-written_same v small same = rw (path_eq v virt same) (
      walk_to (words written) (root s) upper f last []
        (Leads-written f last t.tree lowest others (root s) upper f t.root_level upper-InTables l))
