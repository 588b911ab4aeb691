-- ===== src/Vmm/Reach.antt =====
-- vmm.c's walk of vmm_map down to the lowest table.
use quin_kernel_template.Base.{
  ℕ, suc, ◌+◌, ◌*◌, ◌<◌, ◌≡◌, ◌≢◌, refl, sym, ◌∙◌, ap, subst, false, arith, ◌==◌, List, [], ◌∷◌,
  ◌++◌, length,
}
use quin_kernel_template.Vmm.{Vmm, ensure_next_level, descend, walk, current_pml4}
use quin_kernel_template.Vmm.Tables.{words, HasTables, table_address}
use quin_kernel_template.Vmm.Tree.{
  Words, Owners, IsTree, Extends, Leads, Leads-append, Leads-Extends, translate_from, walk_to,
  is_large_page, small_entry,
}
use quin_kernel_template.Vmm.Tree as Tree
use quin_kernel_template.Vmm.Walk.{
  IsFull, Progress, Progress-refl, Progress-trans, Descent, full, below, ensure_next_level-Descent,
}
use quin_kernel_template.Vmm.Word.{frame_of, address_lem}

abbrev pub root : Vmm → ℕ
root s = frame_of s.cr3

-- What descending along `is` from the root comes to: no frame was left for a table, or a table of
-- level n is reached.
pub data Reached (s : Vmm) (own : Owners) (is : List ℕ) (n : ℕ) (r : Vmm × ℕ) : Type 0 where
  failed : (own' : Owners) → r.1 ≡ 0 → Progress s own r.0 own' → IsFull r.0 → Reached s own is n r
  arrived :
      (own' : Owners) (f : ℕ)
      → r.1 ≡ s.hhdm_offset + f * 4096
      → Progress s own r.0 own'
      → own'.level f ≡ n
      → Leads (words r.0) (root s) is f
      → Reached s own is n r

descend-null : (r : Vmm × ℕ) (i : ℕ) → r.1 ≡ 0 → descend r i ≡ r
unfolding descend
descend-null r i e = ground (arith, e)

descend-table : (r : Vmm × ℕ) (i : ℕ) → r.1 ≢ 0 → descend r i ≡ ensure_next_level r.0 r.1 i
unfolding descend
descend-table r i h = let real : (r.1 == 0) ≡ false = ground arith in rw real

module _ {s : Vmm} {own : Owners} (t : HasTables s own) (is : List ℕ) (i j n : ℕ) (js : List ℕ)
    (depth : 4 ≡ suc (suc n) + length is) (long : 4 ≡ length (is ++ i ∷ j ∷ js)) (fits : i < 512)
    (before : Tree.InTables is) (all : Tree.InTables (is ++ i ∷ j ∷ js))
    (small : is_large_page (translate_from (words s) (root s) (is ++ i ∷ j ∷ js)) ≡ false) where
  module _ {s1 : Vmm} (own1 : Owners) (f : ℕ) (p : Progress s own s1 own1)
      (level : own1.level f ≡ suc (suc n)) (l : Leads (words s1) (root s) is f) where
    same_root : root s1 ≡ root s
    same_root = ap root p.statics

    root_level : own1.level (root s) ≡ suc (suc n) + length is
    root_level = rw same_root at p.tables.root_level ∙ depth

    small_here : is_large_page (translate_from (words s1) f (i ∷ j ∷ js)) ≡ false
    small_here =
        ap is_large_page (
          sym (walk_to (words s1) (root s) is f i (j ∷ js) l)
          ∙ p.extends.walks (root s) (is ++ i ∷ j ∷ js) (t.root_level ∙ long) all)
        ∙ small

    same_offset : s1.hhdm_offset ≡ s.hhdm_offset
    same_offset = ap (λ t. t.hhdm_offset) p.statics

    Descent-Reached :
        (r : Vmm × ℕ) → Descent s1 own1 f i n r → Reached s own (is ++ i ∷ []) (suc n) r
    Descent-Reached r (full e none) = rw e (failed own1 refl p none)
    Descent-Reached r (below own2 g q address lower k) =
        arrived own2 g (rw same_offset at address) (Progress-trans p q) lower (
          Leads-append (words r.0) (root s) is f i g
            (Leads-Extends (suc n) (root s) is f p.tables.tree q.extends root_level before l) k)

    pub ensure-Reached :
        (table : ℕ)
        → table ≡ s.hhdm_offset + f * 4096
        → Reached s own (is ++ i ∷ []) (suc n) (ensure_next_level s1 table i)
    ensure-Reached table e =
        let e1 : table ≡ s1.hhdm_offset + f * 4096 = omega (arith, e, same_offset) in
        Descent-Reached (ensure_next_level s1 table i) (
          rw e1 (
            ensure_next_level-Descent p.tables f i n level fits
              (small_entry (words s1) f i j js small_here)))

  pub descend-Reached :
      (r : Vmm × ℕ)
      → Reached s own is (suc (suc n)) r
      → Reached s own (is ++ i ∷ []) (suc n) (descend r i)
  descend-Reached r (failed own1 e p none) =
      subst (Reached s own (is ++ i ∷ []) (suc n)) (sym (descend-null r i e)) (failed own1 e p none)
  descend-Reached r (arrived own1 f e p level l) =
      let real : r.1 ≢ 0 = ground (arith, (p.tables.held f (omega arith)).not_zero, e) in
      subst (Reached s own (is ++ i ∷ []) (suc n)) (sym (descend-table r i real))
        (ensure-Reached own1 f p level l r.1 e)

pub walk-Reached :
    {s : Vmm} {own : Owners} (a b c d : ℕ)
    → HasTables s own
    → Tree.InTables (a ∷ b ∷ c ∷ d ∷ [])
    → is_large_page (translate_from (words s) (root s) (a ∷ b ∷ c ∷ d ∷ [])) ≡ false
    → Reached s own
        (a ∷ b ∷ c ∷ [])
        1
        (walk s (record { pml4_i = a; pdpt_i = b; pd_i = c; pt_i = d }))
unfolding walk current_pml4
walk-Reached {s} {own} a b c d t fit small =
    rw
      (
        address_lem s.cr3,
        table_address t (root s) (t.held (root s) (omega (arith, t.root_level))).in_range,
      )
      (third (second first))
  where
    r1 : Vmm × ℕ
    r1 = ensure_next_level s (s.hhdm_offset + root s * 4096) a

    first : Reached s own (a ∷ []) 3 r1
    first =
        ensure-Reached t [] a b 2 (c ∷ d ∷ []) refl refl fit.0 tt fit small own (root s)
          (Progress-refl t) t.root_level refl (s.hhdm_offset + root s * 4096) refl

    second : Reached s own (a ∷ []) 3 r1 → Reached s own (a ∷ b ∷ []) 2 (descend r1 b)
    second = descend-Reached t (a ∷ []) b c 1 (d ∷ []) refl refl fit.1.0 (fit.0, tt) fit small r1

    third :
        Reached s own (a ∷ b ∷ []) 2 (descend r1 b)
        → Reached s own (a ∷ b ∷ c ∷ []) 1 (descend (descend r1 b) c)
    third =
        descend-Reached t (a ∷ b ∷ []) c d 0 [] refl refl fit.1.1.0 (fit.0, (fit.1.0, tt)) fit small
          (descend r1 b)
