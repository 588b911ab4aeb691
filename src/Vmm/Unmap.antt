-- ===== src/Vmm/Unmap.antt =====
-- vmm.c's vmm_unmap as a change of the translation of addresses.
use quin_kernel_template.Base.{
  ℕ, ◌⊎◌, suc, ◌+◌, ◌*◌, ◌/◌, ◌%◌, ◌^◌, ◌<◌, ◌≡◌, refl, sym, ◌∙◌, ap, subst, true, false, arith,
  ◌==◌, [], ◌∷◌, Bool-cases, inl, inr, if◌then◌else◌, bit_and,
}
use quin_kernel_template.Vmm.{Vmm, Indices, vmm_unmap, pte_addr_mask, set_entry}
use quin_kernel_template.Vmm.Reach.{root}
use quin_kernel_template.Vmm.Tables.{
  words, HasTables, Untouched, written_word, HasTables-written, Untouched-written,
}
use quin_kernel_template.Vmm.Tree.{
  Owners, Translation, unmapped, page, translate_from, walk_to, is_large_page, Leads, Leads-owner,
  path_number,
}
use quin_kernel_template.Vmm.Tree as Tree
use quin_kernel_template.Vmm.Walk.{Untouched-refl, Untouched-refl}
use quin_kernel_template.Vmm.Word.{frame_of}
use quin_kernel_template.Vmm.Translate.{
  translate, page_number, path-InTables, path_eq, indices_lem, translate-written_other,
  translate-written_same,
}
use quin_kernel_template.Vmm.Tree.{small_entry}
use quin_kernel_template.Vmm.Tables.{table_address}
use quin_kernel_template.Vmm.Word.{is_present, is_large, present_lem, address_lem}
use quin_kernel_template.Vmm.{current_pml4, phys_to_virt_table, unmap_at}

-- What vmm_unmap has done.
pub record Unmapped (s : Vmm) (own : Owners) (virt : ℕ) (s' : Vmm) : Type 0 where
  pub tables : HasTables s' own
  pub translations :
      (v : ℕ)
      → translate s' v ≡ (if page_number v == page_number virt then unmapped else translate s v)
  pub untouched : Untouched s own s' own
  pub statics : s' ≡ record s { mem = s'.mem }

module _ {s : Vmm} {own : Owners} (t : HasTables s own) where
  pml4_lem : current_pml4 s ≡ s.hhdm_offset + root s * 4096
  unfolding current_pml4
  pml4_lem =
      ap (phys_to_virt_table s) (address_lem s.cr3)
      ∙ table_address t (root s) (t.held (root s) (omega (arith, t.root_level))).in_range

  -- The table behind a present entry of table `f`.
  module _ (f i n : ℕ) (upper : own.level f ≡ suc (suc n)) (fits : i < 512)
      (there : is_present (words s f i) ≡ true) (small : is_large (words s f i) ≡ false) where
    child_level : own.level (frame_of (words s f i)) ≡ suc n
    child_level = (t.tree.child f i n upper fits there small).0

    rights : Tree.is_open (words s f i) ≡ true
    rights = (t.tree.child f i n upper fits there small).2

    child_address :
        phys_to_virt_table s (bit_and (words s f i) pte_addr_mask)
        ≡ s.hhdm_offset + frame_of (words s f i) * 4096
    child_address =
        ap (phys_to_virt_table s) (address_lem (words s f i))
        ∙ table_address t (frame_of (words s f i))
            (t.held (frame_of (words s f i)) (omega (arith, child_level))).in_range

  module _ (a b c d : ℕ) (fits : Tree.InTables (a ∷ b ∷ c ∷ d ∷ []))
      (small : is_large_page (translate_from (words s) (root s) (a ∷ b ∷ c ∷ d ∷ [])) ≡ false) where
    abbrev at : Indices
    at = record { pml4_i = a; pdpt_i = b; pd_i = c; pt_i = d }

    abbrev w4 : ℕ
    w4 = words s (root s) a

    abbrev w3 : ℕ
    w3 = words s (frame_of w4) b

    abbrev w2 : ℕ
    w2 = words s (frame_of w3) c

    -- Either a table is missing on the way, and nothing is done, or the page's entry is cleared.
    Cleared : Type 0
    Cleared =
        (f : ℕ) × (own.level f ≡ 1)
        × Leads (words s) (root s) (a ∷ b ∷ c ∷ []) f
        × (unmap_at s at ≡ set_entry s (s.hhdm_offset + f * 4096) d 0)

    Missing : Type 0
    Missing =
        (unmap_at s at ≡ s) × (translate_from (words s) (root s) (a ∷ b ∷ c ∷ d ∷ []) ≡ unmapped)

    missing4 : is_present w4 ≡ false → Missing
    unfolding Missing unmap_at translate_from
    missing4 absent = (rw (pml4_lem, present_lem w4, absent), rw absent)

    module _ (p4 : is_present w4 ≡ true) where
      l4 : is_large w4 ≡ false
      l4 = small_entry (words s) (root s) a b (c ∷ d ∷ []) small p4

      o4 : Tree.is_open w4 ≡ true
      o4 = rights (root s) a 2 t.root_level fits.0 p4 l4

      small3 : is_large_page (translate_from (words s) (frame_of w4) (b ∷ c ∷ d ∷ [])) ≡ false
      small3 =
          ap is_large_page (
            sym
              (walk_to (words s) (root s) (a ∷ []) (frame_of w4) b (c ∷ d ∷ []) (p4, l4, o4, refl)))
          ∙ small

      v4 : own.level (frame_of w4) ≡ 3
      v4 = child_level (root s) a 2 t.root_level fits.0 p4 l4

      missing3 : is_present w3 ≡ false → Missing
      unfolding Missing unmap_at translate_from
      missing3 absent = (
        rw (
          pml4_lem,
          present_lem w4,
          p4,
          child_address (root s) a 2 t.root_level fits.0 p4 l4,
          present_lem w3,
          absent,
        ),
        rw (p4, l4, absent),
      )

      module _ (p3 : is_present w3 ≡ true) where
        l3 : is_large w3 ≡ false
        l3 = small_entry (words s) (frame_of w4) b c (d ∷ []) small3 p3

        o3 : Tree.is_open w3 ≡ true
        o3 = rights (frame_of w4) b 1 v4 fits.1.0 p3 l3

        small2 : is_large_page (translate_from (words s) (frame_of w3) (c ∷ d ∷ [])) ≡ false
        small2 =
            ap is_large_page (
              sym (
                walk_to (words s) (frame_of w4) (b ∷ []) (frame_of w3) c (d ∷ [])
                  (p3, l3, o3, refl)))
            ∙ small3

        v3 : own.level (frame_of w3) ≡ 2
        v3 = child_level (frame_of w4) b 1 v4 fits.1.0 p3 l3

        missing2 : is_present w2 ≡ false → Missing
        unfolding Missing unmap_at translate_from
        missing2 absent = (
          rw (
            pml4_lem,
            present_lem w4,
            p4,
            child_address (root s) a 2 t.root_level fits.0 p4 l4,
            present_lem w3,
            p3,
            child_address (frame_of w4) b 1 v4 fits.1.0 p3 l3,
            present_lem w2,
            absent,
          ),
          rw (p4, l4, p3, l3, absent),
        )

        cleared : is_present w2 ≡ true → Cleared
        unfolding Cleared unmap_at
        cleared p2 =
            let l2 : is_large w2 ≡ false = small_entry (words s) (frame_of w3) c d [] small2 p2 in
            let o2 : Tree.is_open w2 ≡ true = rights (frame_of w3) c 0 v3 fits.1.1.0 p2 l2 in
            (
              frame_of w2,
              child_level (frame_of w3) c 0 v3 fits.1.1.0 p2 l2,
              (p4, l4, o4, (p3, l3, o3, (p2, l2, o2, refl))),
              rw (
                pml4_lem,
                present_lem w4,
                p4,
                child_address (root s) a 2 t.root_level fits.0 p4 l4,
                present_lem w3,
                p3,
                child_address (frame_of w4) b 1 v4 fits.1.0 p3 l3,
                present_lem w2,
                p2,
                child_address (frame_of w3) c 0 v3 fits.1.1.0 p2 l2,
              ),
            )

    unmap_at-cases : Missing ⊎ Cleared
    unmap_at-cases = elim (Bool-cases (is_present w4)) [
      | inr absent ↦ inl (missing4 absent)
      | inl p4 ↦ elim (Bool-cases (is_present w3)) [
        | inr absent ↦ inl (missing3 p4 absent)
        | inl p3 ↦ elim (Bool-cases (is_present w2)) [
          | inr absent ↦ inl (missing2 p4 p3 absent)
          | inl p2 ↦ inr (cleared p4 p3 p2)
        ]
      ]
    ]

  clear-Unmapped :
      (virt f : ℕ)
      → own.level f ≡ 1
      → Leads
          (words s)
          (root s)
          (virt / 2 ^ 39 % 512 ∷ virt / 2 ^ 30 % 512 ∷ virt / 2 ^ 21 % 512 ∷ [])
          f
      → Unmapped s own virt (set_entry s (s.hhdm_offset + f * 4096) (virt / 2 ^ 12 % 512) 0)
  clear-Unmapped virt f lowest l = record {
    tables = HasTables-written t f (virt / 2 ^ 12 % 512) 0 (omega arith) (omega arith) lowest;
    translations = λ v. elim (Bool-cases (page_number v == page_number virt)) [
      | inl same ↦
          rw same
            (translate-written_same t virt f 0 lowest l v (omega arith) (ground arith) ∙ empty_walk)
      | inr apart ↦ rw apart (translate-written_other t virt f 0 lowest l v (ground arith))
    ];
    untouched = Untouched-written t f (virt / 2 ^ 12 % 512) 0 (omega arith) (omega arith);
    statics = refl;
  }
    where
      cleared : Vmm
      cleared = set_entry s (s.hhdm_offset + f * 4096) (virt / 2 ^ 12 % 512) 0

      empty_walk : translate_from (words cleared) f (virt / 2 ^ 12 % 512 ∷ []) ≡ unmapped
      empty_walk =
          unfold translate_from in
          rw (written_word t f (virt / 2 ^ 12 % 512) 0 (omega arith) (omega arith) (omega arith))

  missing-Unmapped : (virt : ℕ) → translate s virt ≡ unmapped → Unmapped s own virt s
  unfolding translate
  missing-Unmapped virt e = record {
    tables = t;
    translations = λ v. elim (Bool-cases (page_number v == page_number virt)) [
      | inl same ↦
          rw same (ap (translate_from (words s) (root s)) (path_eq v virt (ground arith)) ∙ e)
      | inr apart ↦ rw apart
    ];
    untouched = Untouched-refl s own;
    statics = refl;
  }

-- vmm_unmap for an address that is in no large page leaves its page unmapped and changes no other
-- translation, no table's place, and nothing in a frame that is in use and is not a table.
pub unmap-Unmapped :
    (s : Vmm) (own : Owners) (virt : ℕ)
    → HasTables s own
    → is_large_page (translate s virt) ≡ false
    → Unmapped s own virt (vmm_unmap s virt)
unfolding vmm_unmap translate Missing Cleared
unmap-Unmapped s own virt t small =
    subst (Unmapped s own virt) (sym (ap (unmap_at s) (indices_lem virt)))
      (elim (unmap_at-cases t (virt / 2 ^ 39 % 512) (virt / 2 ^ 30 % 512) (virt / 2 ^ 21 % 512)
        (virt / 2 ^ 12 % 512) (path-InTables virt) small) [
          | inl (e, none) ↦ subst (Unmapped s own virt) (sym e) (missing-Unmapped t virt none)
          | inr (f, lowest, l, e) ↦
              subst (Unmapped s own virt) (sym e) (clear-Unmapped t virt f lowest l)
        ])
