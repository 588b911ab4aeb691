-- ===== src/Vmm/Map.antt =====
-- vmm.c's vmm_map as a change of the translation of addresses.
use quin_kernel_template.Base.{
  ℕ, ◌+◌, ◌*◌, ◌/◌, ◌%◌, ◌^◌, ◌≡◌, ◌≢◌, refl, sym, ◌∙◌, ap, subst, Bool, true, false, arith, ◌==◌,
  [], ◌∷◌, Bool-cases, inl, inr, if◌then◌else◌, bit_and, bit_or,
}
use quin_kernel_template.Vmm.{
  Vmm, Indices, walk, set_leaf, vmm_map, pte_addr_mask, translate_flags, set_entry,
}
use quin_kernel_template.Vmm.Reach.{root, Reached, failed, arrived, walk-Reached}
use quin_kernel_template.Vmm.Tables.{
  words, HasTables, Untouched, written_word, HasTables-written, Untouched-written,
}
use quin_kernel_template.Vmm.Tree.{Owners, page, translate_from, is_large_page, Leads}
use quin_kernel_template.Vmm.Walk.{IsFull, Progress, Untouched-trans}
use quin_kernel_template.Vmm.Word.{asked, leaf_lem}
use quin_kernel_template.Vmm.Translate.{
  path, translate, page_number, path-InTables, indices, indices_lem, translate-written_other,
  translate-written_same,
}

map_steps :
    (s : Vmm) (virt phys flags : ℕ)
    → vmm_map s virt phys flags ≡ set_leaf (walk s (indices virt)) (virt / 2 ^ 12 % 512) phys flags
unfolding vmm_map
map_steps s virt phys flags =
    ap (λ (i : Indices). set_leaf (walk s i) i.pt_i phys flags) (indices_lem virt)

set_leaf-null : (r : Vmm × ℕ) (i phys flags : ℕ) → r.1 ≡ 0 → set_leaf r i phys flags ≡ (r.0, false)
unfolding set_leaf
set_leaf-null r i phys flags e = ground (arith, e)

set_leaf-table :
    (r : Vmm × ℕ) (i phys flags : ℕ)
    → r.1 ≢ 0
    → set_leaf r i phys flags
      ≡ (set_entry r.0 r.1 i (bit_or (bit_and phys pte_addr_mask) (translate_flags flags)), true)
unfolding set_leaf
set_leaf-table r i phys flags h = let real : (r.1 == 0) ≡ false = ground arith in rw real

-- The two outcomes of vmm_map.
pub data MapResult (s : Vmm) (own : Owners) (virt phys flags : ℕ) (r : Vmm × Bool) : Type 0 where
  no_frame :
      (own' : Owners)
      → r.1 ≡ false
      → IsFull r.0
      → HasTables r.0 own'
      → ((v : ℕ) → translate r.0 v ≡ translate s v)
      → Untouched s own r.0 own'
      → r.0 ≡ record s { pmm = r.0.pmm; mem = r.0.mem }
      → MapResult s own virt phys flags r
  mapped :
      (own' : Owners)
      → r.1 ≡ true
      → HasTables r.0 own'
      → ((v : ℕ)
          → translate r.0 v ≡ (
              if page_number v == page_number virt then page (asked phys flags) else translate s v))
      → Untouched s own r.0 own'
      → r.0 ≡ record s { pmm = r.0.pmm; mem = r.0.mem }
      → MapResult s own virt phys flags r

module _ {s : Vmm} {own : Owners} (t : HasTables s own) where
  same_walks :
      {s1 : Vmm} {own1 : Owners} → Progress s own s1 own1 → (v : ℕ) → translate s1 v ≡ translate s v
  unfolding translate
  same_walks {s1} p v =
      ap (λ f. translate_from (words s1) f (path v)) (ap root p.statics)
      ∙ p.extends.walks (root s) (path v) t.root_level (path-InTables v)

  module _ {s1 : Vmm} {own1 : Owners} (virt phys flags f : ℕ) (p : Progress s own s1 own1)
      (level : own1.level f ≡ 1)
      (l : Leads
        (words s1)
        (root s1)
        (virt / 2 ^ 39 % 512 ∷ virt / 2 ^ 30 % 512 ∷ virt / 2 ^ 21 % 512 ∷ [])
        f) where
    abbrev leaf : ℕ
    leaf = bit_or (bit_and phys pte_addr_mask) (translate_flags flags)

    abbrev result : Vmm
    result = set_entry s1 (s1.hhdm_offset + f * 4096) (virt / 2 ^ 12 % 512) leaf

    leaf_walk : translate_from (words result) f (virt / 2 ^ 12 % 512 ∷ []) ≡ page (asked phys flags)
    unfolding translate_from
    leaf_walk =
        rw
          (written_word p.tables f (virt / 2 ^ 12 % 512) leaf (omega arith) (omega arith)
            (leaf_lem phys flags).2)
          (rw ((leaf_lem phys flags).0, (leaf_lem phys flags).1) refl)

    leaf_translate :
        (v : ℕ)
        → translate result v
          ≡ (if page_number v == page_number virt then page (asked phys flags) else translate s v)
    leaf_translate v = elim (Bool-cases (page_number v == page_number virt)) [
      | inl same ↦ rw same (
          translate-written_same p.tables virt f leaf level l v (leaf_lem phys flags).2
            (ground arith)
          ∙ leaf_walk)
      | inr apart ↦
          rw apart
            (translate-written_other p.tables virt f leaf level l v (ground arith) ∙ same_walks p v)
    ]

    mapped_leaf : MapResult s own virt phys flags (result, true)
    mapped_leaf =
        mapped own1 refl
          (HasTables-written p.tables f (virt / 2 ^ 12 % 512) leaf (omega arith) (omega arith)
            level)
          leaf_translate
          (Untouched-trans s s1 result own own1 own1 (ap (λ t. t.hhdm_offset) p.statics) p.untouched
            (Untouched-written p.tables f (virt / 2 ^ 12 % 512) leaf (omega arith) (omega arith)))
          (ap with_entry p.statics)
      where
        with_entry : Vmm → Vmm
        with_entry t = record t { mem = result.mem }

  leaf-MapResult :
      (virt phys flags : ℕ) (r : Vmm × ℕ)
      → Reached s own (virt / 2 ^ 39 % 512 ∷ virt / 2 ^ 30 % 512 ∷ virt / 2 ^ 21 % 512 ∷ []) 1 r
      → MapResult s own virt phys flags (set_leaf r (virt / 2 ^ 12 % 512) phys flags)
  leaf-MapResult virt phys flags r (failed own1 e p none) =
      subst (MapResult s own virt phys flags)
        (sym (set_leaf-null r (virt / 2 ^ 12 % 512) phys flags e))
        (no_frame own1 refl none p.tables (same_walks p) p.untouched p.statics)
  leaf-MapResult virt phys flags r (arrived own1 f e p level l) =
      let here : root r.0 ≡ root s = ap root p.statics in
      let place : r.1 ≡ r.0.hhdm_offset + f * 4096 =
        e ∙ ap (λ o. o + f * 4096) (sym (ap (λ t. t.hhdm_offset) p.statics)) in
      subst (MapResult s own virt phys flags)
        (sym (
          set_leaf-table r (virt / 2 ^ 12 % 512) phys flags
            (ground (arith, (p.tables.held f (omega arith)).not_zero, e))
          ∙ ap
              (λ a. (
                set_entry r.0 a (virt / 2 ^ 12 % 512)
                    (bit_or (bit_and phys pte_addr_mask) (translate_flags flags)),
                true,
              ))
              place))
        (mapped_leaf virt phys flags f p level (
          subst
            (λ h.
              Leads (words r.0) h
                (virt / 2 ^ 39 % 512 ∷ virt / 2 ^ 30 % 512 ∷ virt / 2 ^ 21 % 512 ∷ []) f)
            (sym here) l))

-- On page tables that are a tree of frames in use, with no right taken away above the lowest level,
-- vmm_map for an address that is in no large page either maps the page to the frame, or fails because
-- no frame is left for a table. The rights that the CPU then finds, over all four levels, are those of
-- the flags that were asked for. No translation of another page changes, and none at all when it
-- fails; no frame in use that is not a table changes, and the page tables stay such a tree.
pub map-MapResult :
    (s : Vmm) (own : Owners) (virt phys flags : ℕ)
    → HasTables s own
    → is_large_page (translate s virt) ≡ false
    → MapResult s own virt phys flags (vmm_map s virt phys flags)
unfolding translate
map-MapResult s own virt phys flags t small =
    subst (MapResult s own virt phys flags) (sym (map_steps s virt phys flags)) (
      leaf-MapResult t virt phys flags (walk s (indices virt)) (
        walk-Reached (virt / 2 ^ 39 % 512) (virt / 2 ^ 30 % 512) (virt / 2 ^ 21 % 512)
          (virt / 2 ^ 12 % 512) t (path-InTables virt) small))
