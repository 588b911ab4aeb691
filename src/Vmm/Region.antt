-- ===== src/Vmm/Region.antt =====
-- What mapping a run of pages comes to, and how one page's mapping and that of the others make up
-- the whole: for vmm.c's vmm_alloc_guarded.
use quin_kernel_template.Base.{
  ℕ, zero, suc, ◌+◌, ◌*◌, ◌≤◌, ◌<◌, ◌≡◌, ◌≢◌, ◌⊎◌, sym, ◌∙◌, ap, subst, arith, ◌==◌, inl,
  if◌then◌else◌,
}
use quin_kernel_template.Memory.{load}
use quin_kernel_template.Panic.{Outcome, ok}
use quin_kernel_template.Pmm.Free.{MayFree}
use quin_kernel_template.Pmm.Valid.{IsFree}
use quin_kernel_template.Vmm.{Vmm}
use quin_kernel_template.Vmm.Tables.{HasTables, Untouched, Kept}
use quin_kernel_template.Vmm.Translate.{translate, page_number}
use quin_kernel_template.Vmm.Tree.{Owners, page}
use quin_kernel_template.Vmm.Walk.{Untouched-trans, statics_trans}
use quin_kernel_template.Vmm.Word.{asked}

-- A page of the region in the end, and its frame.
pub record NewPage (s : Vmm) (own : Owners) (s' : Vmm) (own' : Owners) (number flags g : ℕ)
    : Type 0 where
  pub maps : (v : ℕ) → page_number v ≡ number → translate s' v ≡ page (asked (g * 4096) flags)
  pub zeros : (a : ℕ) → a < 4096 → load s'.mem (s.hhdm_offset + g * 4096 + a) ≡ 0
  pub used : MayFree s'.pmm s'.mem g
  pub no_table : own'.level g ≡ 0
  pub fresh : own.level g ≡ 0 → MayFree s.pmm s.mem g → ⊥

abbrev pub Outside : (first count v : ℕ) → Type 0
Outside first count v = (page_number v < first) ⊎ (first + count ≤ page_number v)

-- What mapping `count` pages from the page number `first` on has come to.
pub data Region (s : Vmm) (own : Owners) (first count flags start : ℕ) (r : Outcome (Vmm × ℕ))
    : Type 0 where
  failed :
      (s' : Vmm) (own' : Owners)
      → r ≡ ok (s', 0)
      → HasTables s' own'
      → ((v : ℕ) → Outside first count v → translate s' v ≡ translate s v)
      → Untouched s own s' own'
      → s' ≡ record s { pmm = s'.pmm; mem = s'.mem }
      → Region s own first count flags start r
  done :
      (s' : Vmm) (own' : Owners) (frames : ℕ → ℕ)
      → r ≡ ok (s', start)
      → HasTables s' own'
      → ((v : ℕ) → Outside first count v → translate s' v ≡ translate s v)
      → ((k : ℕ) → k < count → NewPage s own s' own' (first + k) flags (frames k))
      → ((j k : ℕ) → j < k → k < count → frames j ≢ frames k)
      → Untouched s own s' own'
      → s' ≡ record s { pmm = s'.pmm; mem = s'.mem }
      → Region s own first count flags start r

first_frame : (g : ℕ) → (ℕ → ℕ) → ℕ → ℕ
first_frame g frames zero = g
first_frame g frames (suc k) = frames k

-- One page is mapped, to frame `g`, and the others follow.
module _ {s s1 : Vmm} {own own1 : Owners} (first left flags start g : ℕ)
    (free : IsFree s.pmm s.mem g)
    (zeros : (a : ℕ) → a < 4096 → load s1.mem (s.hhdm_offset + g * 4096 + a) ≡ 0)
    (g-used : MayFree s1.pmm s1.mem g) (g-no_table : own1.level g ≡ 0)
    (change : (v : ℕ)
      → translate s1 v
        ≡ (if page_number v == first then page (asked (g * 4096) flags) else translate s v))
    (u : Untouched s own s1 own1) (st : s1 ≡ record s { pmm = s1.pmm; mem = s1.mem }) where
  offset1 : s1.hhdm_offset ≡ s.hhdm_offset
  offset1 = ap (λ t. t.hhdm_offset) st

  module _ {s' : Vmm} {own' : Owners}
      (same : (v : ℕ) → Outside (first + 1) left v → translate s' v ≡ translate s1 v)
      (u' : Untouched s1 own1 s' own') where
    unchanged_beside : (v : ℕ) → Outside first (suc left) v → translate s' v ≡ translate s v
    unchanged_beside v out = same v (ground arith) ∙ (change v ∙ ground arith)

    first_page : NewPage s own s' own' (first + 0) flags g
    first_page =
        let kept : Kept s1 own1 s' own' g = u' g g-no_table g-used in
        record {
          maps = λ v e. same v (inl (omega arith)) ∙ (change v ∙ ground arith);
          zeros = λ a lt.
              subst (λ o. load s'.mem (o + g * 4096 + a) ≡ load s1.mem (o + g * 4096 + a)) offset1
                (kept.bytes a lt)
              ∙ zeros a lt;
          used = kept.still;
          no_table = kept.no_table;
          fresh = λ none may. ground (arith, may.used, free);
        }

    later_page :
        (k f : ℕ)
        → NewPage s1 own1 s' own' (first + 1 + k) flags f
        → NewPage s own s' own' (first + suc k) flags f
    later_page k f n = record {
      maps = λ v e. n.maps v (omega arith);
      zeros = λ a lt. subst (λ o. load s'.mem (o + f * 4096 + a) ≡ 0) offset1 (n.zeros a lt);
      used = n.used;
      no_table = n.no_table;
      fresh = λ none may. n.fresh (u f none may).no_table (u f none may).still;
    }

    pages_both :
        (frames : ℕ → ℕ)
        → ((k : ℕ) → k < left → NewPage s1 own1 s' own' (first + 1 + k) flags (frames k))
        → (k : ℕ) → k < suc left
        → NewPage s own s' own' (first + k) flags (first_frame g frames k)
    unfolding first_frame
    pages_both frames n zero lt = first_page
    pages_both frames n (suc k) lt = later_page k (frames k) (n k (omega arith))

    distinct_both :
        (frames : ℕ → ℕ)
        → ((k : ℕ) → k < left → NewPage s1 own1 s' own' (first + 1 + k) flags (frames k))
        → ((j k : ℕ) → j < k → k < left → frames j ≢ frames k)
        → (j k : ℕ) → j < k
        → k < suc left
        → first_frame g frames j ≢ first_frame g frames k
    unfolding first_frame
    distinct_both frames n d zero zero lt lt' e = elim lt [ ]
    distinct_both frames n d zero (suc k) lt lt' e =
        let f : NewPage s1 own1 s' own' (first + 1 + k) flags (frames k) = n k (omega arith) in
        (subst (λ h. own1.level h ≡ 0 → MayFree s1.pmm s1.mem h → ⊥) (sym e) f.fresh) g-no_table
          g-used
    distinct_both frames n d (suc j) zero lt lt' e = absurd (omega arith)
    distinct_both frames n d (suc j) (suc k) lt lt' e = d j k (omega arith) (omega arith) e

  pub cons-Region :
      (r : Outcome (Vmm × ℕ))
      → Region s1 own1 (first + 1) left flags start r
      → Region s own first (suc left) flags start r
  cons-Region r (failed s' own' e h same u' st') =
      failed s' own' e h (unchanged_beside same u')
        (Untouched-trans s s1 s' own own1 own' offset1 u u') (statics_trans s s1 s' st st')
  cons-Region r (done s' own' frames e h same n d u' st') =
      done s' own' (first_frame g frames) e h (unchanged_beside same u')
        (pages_both same u' frames n) (distinct_both same u' frames n d)
        (Untouched-trans s s1 s' own own1 own' offset1 u u') (statics_trans s s1 s' st st')
