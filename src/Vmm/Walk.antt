-- ===== src/Vmm/Walk.antt =====
-- vmm.c's descent through the page tables: what ensure_next_level does at one table, and the walk
-- of vmm_map down to the lowest one.
use quin_kernel_template.Base.{
  ℕ, suc, ◌+◌, ◌*◌, ◌^◌, ◌<◌, ◌≡◌, ◌≢◌, refl, ◌∙◌, ap, true, false, arith, ◌==◌, ◌&&◌, [], ◌∷◌,
  Bool-cases, inl, inr, bit_and,
}
use quin_kernel_template.Bitmap.{bitmap_test}
use quin_kernel_template.Memory.{Memory}
use quin_kernel_template.Pmm.{Pmm, pmm_alloc_frame}
use quin_kernel_template.Pmm.Alloc.{
  Allocated, AllocResult, exhausted, allocated, alloc_frame-AllocResult,
}
use quin_kernel_template.Pmm.Free.{MayFree, Allocated-MayFree}
use quin_kernel_template.Pmm.Valid.{IsValid}
use quin_kernel_template.Vmm.{Vmm, ensure_next_level, set_entry, pte_addr_mask}
use quin_kernel_template.Vmm.Tables.{
  words, HasTables, Kept, Untouched, table_address, words_taken, new-ne_table, new_level, new_empty,
  HasTables-taken, Extends-taken, Untouched-taken, written_word, other_words, IsValid-written,
  MayFree-written, Untouched-written,
}
use quin_kernel_template.Vmm.Tree.{
  Owners, is_open-link, Extends, Extends-refl, Extends-trans, Leads,
}
use quin_kernel_template.Vmm.Tree.Change.{own_link, own_link-level, IsTree-linked, Extends-linked}
use quin_kernel_template.Vmm.Word.{
  frame_of, is_present, is_large, present_lem, address_lem, link_lem,
}

-- No frame is left.
abbrev pub IsFull : Vmm → Type 0
IsFull s = (f : ℕ) → f < s.pmm.frame_count → bitmap_test s.mem s.pmm.bitmap f ≡ true

-- From `s` to `s'` tables may have been added: no translation has changed, nor the contents of a
-- frame in use, nor a static variable.
pub record Progress (s : Vmm) (own : Owners) (s' : Vmm) (own' : Owners) : Type 0 where
  pub tables : HasTables s' own'
  pub extends : Extends (words s) own (words s') own'
  pub untouched : Untouched s own s' own'
  pub statics : s' ≡ record s { pmm = s'.pmm; mem = s'.mem }

pub Untouched-refl : (s : Vmm) (own : Owners) → Untouched s own s own
Untouched-refl s own f none may = record { still = may; no_table = none; bytes = λ a lt. refl }

pub Progress-refl : {s : Vmm} {own : Owners} → HasTables s own → Progress s own s own
Progress-refl {s} {own} t = record {
  tables = t;
  extends = Extends-refl (words s) own;
  untouched = Untouched-refl s own;
  statics = refl;
}

pub Untouched-trans :
    (s s' s'' : Vmm) (own own' own'' : Owners)
    → s'.hhdm_offset ≡ s.hhdm_offset
    → Untouched s own s' own'
    → Untouched s' own' s'' own''
    → Untouched s own s'' own''
Untouched-trans s s' s'' own own' own'' place a b f none may =
    let first : Kept s own s' own' f = a f none may in
    let second : Kept s' own' s'' own'' f = b f first.no_table first.still in
    record {
      still = second.still;
      no_table = second.no_table;
      bytes = λ k lt. (rw place at (second.bytes k lt)) ∙ first.bytes k lt;
    }

pub statics_trans :
    (s s' s'' : Vmm)
    → s' ≡ record s { pmm = s'.pmm; mem = s'.mem }
    → s'' ≡ record s' { pmm = s''.pmm; mem = s''.mem }
    → s'' ≡ record s { pmm = s''.pmm; mem = s''.mem }
statics_trans s s' s'' e e' = e' ∙ ap with_last e
  where
    with_last : Vmm → Vmm
    with_last t = record t { pmm = s''.pmm; mem = s''.mem }

pub Progress-trans :
    {s s' s'' : Vmm} {own own' own'' : Owners}
    → Progress s own s' own'
    → Progress s' own' s'' own''
    → Progress s own s'' own''
Progress-trans {s} {s'} {s''} {own} {own'} {own''} a b = record {
  tables = b.tables;
  extends = Extends-trans a.extends b.extends;
  untouched =
      Untouched-trans s s' s'' own own' own'' (ap (λ t. t.hhdm_offset) a.statics) a.untouched
        b.untouched;
  statics = statics_trans s s' s'' a.statics b.statics;
}

-- What one descent from table `f` at index `i` comes to; the table is of level n + 2.
pub data Descent (s : Vmm) (own : Owners) (f i n : ℕ) (r : Vmm × ℕ) : Type 0 where
  full : r ≡ (s, 0) → IsFull s → Descent s own f i n r
  below :
      (own' : Owners) (g : ℕ)
      → Progress s own r.0 own'
      → r.1 ≡ s.hhdm_offset + g * 4096
      → own'.level g ≡ suc n
      → Leads (words r.0) f (i ∷ []) g
      → Descent s own f i n r

module _ {s : Vmm} {own : Owners} (t : HasTables s own) (f i n : ℕ)
    (upper : own.level f ≡ suc (suc n)) (fits : i < 512) where
  -- The entry is absent, and frame `g` is taken for the new table.
  module _ (absent : is_present (words s f i) ≡ false) (g : ℕ) (p : Pmm) (m : Memory)
      (a : Allocated s.pmm s.mem g p m) (v : IsValid p m) where
    abbrev taken : Vmm
    taken = record s { pmm = p; mem = m }

    abbrev linked : Vmm
    linked = set_entry taken (s.hhdm_offset + f * 4096) i (g * 4096 + 7)

    t' : HasTables taken own
    t' = HasTables-taken t g p m a v

    f-table : own.level f ≢ 0
    f-table = ground arith

    g-small : g < 2 ^ 40
    g-small = omega (arith, a.was_free, t.addressable)

    g-MayFree : MayFree p m g
    g-MayFree = Allocated-MayFree t.valid a

    link_word : words linked f i ≡ g * 4096 + 7
    link_word = written_word t' f i (g * 4096 + 7) f-table fits (omega (arith, g-small))

    absent' : is_present (words taken f i) ≡ false
    absent' = rw (words_taken t g p m a v f i f-table fits) absent

    away :
        (h j : ℕ)
        → own.level h ≢ 0
        → j < 512
        → ((h == f) && (j == i)) ≡ false
        → words linked h j ≡ words taken h j
    away h j o lt apart = other_words t' f i (g * 4096 + 7) f-table fits h j lt apart

    empty : (j : ℕ) → j < 512 → words linked g j ≡ 0
    empty j lt =
        other_words t' f i (g * 4096 + 7) f-table fits g j lt
          (ground (arith, new-ne_table t g p m a v f f-table))
        ∙ new_empty t g p m a v j lt

    linked-held : (h : ℕ) → (own_link own f i g n).level h ≢ 0 → MayFree linked.pmm linked.mem h
    unfolding own_link
    linked-held h o = elim (Bool-cases (h == g)) [
      | inl here ↦
          let e : h ≡ g = ground arith in
          rw e (MayFree-written t' f i (g * 4096 + 7) f-table fits g g-MayFree)
      | inr other ↦ MayFree-written t' f i (g * 4096 + 7) f-table fits h (t'.held h (ground arith))
    ]

    root-ne : frame_of s.cr3 ≢ g
    root-ne = new-ne_table t g p m a v (frame_of s.cr3) (omega (arith, t.root_level))

    linked-HasTables : HasTables linked (own_link own f i g n)
    unfolding own_link
    linked-HasTables = record {
      valid = IsValid-written t' f i (g * 4096 + 7) f-table fits;
      offset = t'.offset;
      addressable = t'.addressable;
      root_level = ground (arith, root-ne, t.root_level);
      root_prefix = ground (arith, root-ne, t.root_prefix);
      held = linked-held;
      tree =
          IsTree-linked f i g n t'.tree upper fits absent' (new_level t g p m a v) g-small link_word
            empty away;
    }

    still_none :
        (h : ℕ) → own.level h ≡ 0 → MayFree s.pmm s.mem h → (own_link own f i g n).level h ≡ 0
    unfolding own_link
    still_none h none may = ground (arith, may.used, a.was_free)

    linked-Progress : Progress s own linked (own_link own f i g n)
    linked-Progress = record {
      tables = linked-HasTables;
      extends = Extends-trans (Extends-taken t g p m a v) (
          Extends-linked f i g n t'.tree upper fits absent' (new_level t g p m a v) g-small
            link_word empty away);
      untouched = λ h none may.
          let kept : Kept s own linked own h =
            Untouched-trans s taken linked own own own refl (Untouched-taken t g p m a v)
              (Untouched-written t' f i (g * 4096 + 7) f-table fits) h none may in
          record { still = kept.still; no_table = still_none h none may; bytes = kept.bytes };
      statics = refl;
    }

    linked-Leads : Leads (words linked) f (i ∷ []) g
    linked-Leads = rw link_word (ground arith, ground arith, is_open-link g g-small, omega arith)

  -- ensure_next_level, at an entry that maps no large page.
  module _ (small : is_present (words s f i) ≡ true → is_large (words s f i) ≡ false) where
    table : ℕ
    table = s.hhdm_offset + f * 4096

    Descent-linked :
        is_present (words s f i) ≡ true
        → Descent s own f i n (ensure_next_level s (s.hhdm_offset + f * 4096) i)
    unfolding ensure_next_level
    Descent-linked there =
        let child = t.tree.child f i n upper fits there (small there) in
        rw (present_lem (words s f i), there, address_lem (words s f i))
          (below own (frame_of (words s f i)) (Progress-refl t)
            (table_address t (frame_of (words s f i))
              (t.held (frame_of (words s f i)) (omega (arith, child))).in_range)
            child.0 (there, small there, child.2, refl))

    Descent-new :
        is_present (words s f i) ≡ false
        → AllocResult s.pmm s.mem (pmm_alloc_frame s.pmm s.mem)
        → Descent s own f i n (ensure_next_level s (s.hhdm_offset + f * 4096) i)
    unfolding ensure_next_level
    Descent-new absent (exhausted e all) = rw (present_lem (words s f i), absent, e) (full refl all)
    Descent-new absent (allocated g e a v) =
        let p = (pmm_alloc_frame s.pmm s.mem).0 in
        let m = (pmm_alloc_frame s.pmm s.mem).1 in
        let some_frame : (g * 4096 == 0) ≡ false = ground (arith, a.not_zero) in
        let word : words (linked absent g p m a v) f i ≡ g * 4096 + 7 =
          link_word absent g p m a v in
        let address : bit_and (g * 4096 + 7) pte_addr_mask ≡ g * 4096 =
          omega (arith, address_lem (g * 4096 + 7), g-small absent g p m a v) in
        rw (present_lem (words s f i), absent, e, some_frame, link_lem g)
          (rw (word, address)
            (below (own_link own f i g n) g (linked-Progress absent g p m a v)
              (table_address t g a.was_free.0) (own_link-level own f i g n)
              (linked-Leads absent g p m a v)))

    pub ensure_next_level-Descent :
        Descent s own f i n (ensure_next_level s (s.hhdm_offset + f * 4096) i)
    ensure_next_level-Descent = elim (Bool-cases (is_present (words s f i))) [
      | inl there ↦ Descent-linked there
      | inr absent ↦ Descent-new absent (alloc_frame-AllocResult s.pmm s.mem t.valid)
    ]
