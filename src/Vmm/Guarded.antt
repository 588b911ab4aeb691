-- ===== src/Vmm/Guarded.antt =====
-- vmm.c's vmm_alloc_guarded: each page of the region is mapped to a frame of its own, of zeros, and
-- nothing else is mapped, so that the pages beside the region stay as they were.
use quin_kernel_template.Base.{
  ℕ, zero, suc, ◌+◌, ◌*◌, ◌^◌, ◌≤◌, ◌<◌, ◌≡◌, ◌≢◌, refl, sym, ◌∙◌, ap, subst, Bool, true, false,
  arith, ◌==◌, if◌then◌else◌, u64,
}
use quin_kernel_template.Bitmap.{bitmap_clear}
use quin_kernel_template.Memory.{load}
use quin_kernel_template.Panic.{ok}
use quin_kernel_template.Pmm.{page_size, pmm_alloc_frame}
use quin_kernel_template.Pmm.Alloc.{
  Allocated, AllocResult, exhausted, allocated, alloc_frame-AllocResult,
}
use quin_kernel_template.Pmm.Free.{free_frame_step}
use quin_kernel_template.Pmm.Valid.{IsValid}
use quin_kernel_template.Vmm.{Vmm, take_frame, vmm_map, map_pages, vmm_alloc_guarded}
use quin_kernel_template.Vmm.Fault.{same_translation, both, g-Kept, zeros}
use quin_kernel_template.Vmm.Map.{MapResult, no_frame, mapped, map-MapResult}
use quin_kernel_template.Vmm.Tables.{HasTables, Untouched, Kept, HasTables-taken}
use quin_kernel_template.Vmm.Translate.{translate, page_number}
use quin_kernel_template.Vmm.Tree.{Owners, page, is_large_page}
use quin_kernel_template.Vmm.Walk.{Untouched-refl}
use quin_kernel_template.Vmm.Word.{asked}
use quin_kernel_template.Vmm.Region.{Region, failed, done, cons-Region}
use quin_kernel_template.Vmm.GiveBack.{
  given_back, bytes_kept, MayFree-kept, HasTables-given_back, translate-given_back,
}

-- The next page's address: its number, unless no page follows.
next_number :
    (start i left first : ℕ)
    → page_number (u64 (start + i * 4096)) ≡ first
    → first + suc left ≤ 2 ^ 36
    → 0 < left
    → page_number (u64 (start + (i + 1) * 4096)) ≡ first + 1
next_number start i left first e room more = omega arith

map_pages-none :
    (s : Vmm) (start flags left i : ℕ)
    → pmm_alloc_frame s.pmm s.mem ≡ (s.pmm, s.mem, 0)
    → map_pages s start flags (suc left) i ≡ ok (s, 0)
unfolding map_pages
map_pages-none s start flags left i e = rw e

-- map_pages stays within its result when the frame of a failed mapping is given back.
module _ {s : Vmm} {own : Owners} (t : HasTables s own) (start flags left i first : ℕ)
    (here : page_number (u64 (start + i * 4096)) ≡ first)
    (small : is_large_page (translate s (u64 (start + i * 4096))) ≡ false) where
  abbrev addr : ℕ
  addr = u64 (start + i * 4096)

  module _ (g : ℕ)
      (a : Allocated s.pmm s.mem g (pmm_alloc_frame s.pmm s.mem).0 (pmm_alloc_frame s.pmm s.mem).1)
      (v : IsValid (pmm_alloc_frame s.pmm s.mem).0 (pmm_alloc_frame s.pmm s.mem).1)
      (e : (take_frame s).1 ≡ g * 4096) where
    some_frame : (g * 4096 == 0) ≡ false
    some_frame = ground (arith, a.not_zero)

    abbrev result : Vmm × Bool
    result = vmm_map (take_frame s).0 addr (g * 4096) flags

    -- The mapping has failed, and the frame is given back.
    module _ (own' : Owners) (r : result.1 ≡ false) (h : HasTables result.0 own')
        (same : (u : ℕ) → translate result.0 u ≡ translate (take_frame s).0 u)
        (u : Untouched (take_frame s).0 own result.0 own')
        (st : result.0 ≡ record (take_frame s).0 { pmm = result.0.pmm; mem = result.0.mem }) where
      g-kept : Kept (take_frame s).0 own result.0 own' g
      g-kept = g-Kept t addr flags small g a v result.0 own' u

      Untouched-given_back : Untouched s own (given_back h g g-kept.still g-kept.no_table) own'
      Untouched-given_back f none may =
          let kept : Kept s own result.0 own' f =
            both t addr flags small g a v result.0 own' u f none may in
          let place : result.0.hhdm_offset ≡ s.hhdm_offset = ap (λ t. t.hhdm_offset) st in
          record {
            still =
                MayFree-kept h g g-kept.still g-kept.no_table f
                  (ground (arith, may.used, a.was_free)) kept.still;
            no_table = kept.no_table;
            bytes = λ k lt.
                subst
                  (λ o.
                    load (bitmap_clear result.0.mem result.0.pmm.bitmap g) (o + f * 4096 + k)
                    ≡ load result.0.mem (o + f * 4096 + k))
                  place (bytes_kept h g g-kept.still g-kept.no_table f k kept.still lt)
                ∙ kept.bytes k lt;
          }

      round_failed :
          Region s own first (suc left) flags start (map_pages s start flags (suc left) i)
      unfolding map_pages
      round_failed =
          rw (e, some_frame, r, (free_frame_step h.valid g-kept.still).0)
            (failed (given_back h g g-kept.still g-kept.no_table) own' refl
              (HasTables-given_back h g g-kept.still g-kept.no_table)
              (λ w out.
                translate-given_back h g g-kept.still g-kept.no_table w
                ∙ (same w ∙ same_translation t addr flags small g a v w))
              Untouched-given_back (ap with_freed st))
        where
          with_freed : Vmm → Vmm
          with_freed t = record t {
            pmm = record result.0.pmm { free_frames = u64 (result.0.pmm.free_frames + 1) };
            mem = bitmap_clear result.0.mem result.0.pmm.bitmap g;
          }

    -- The mapping has succeeded, and the other pages follow.
    module _ (own' : Owners) (r : result.1 ≡ true)
        (change : (u : ℕ)
          → translate result.0 u ≡ (
              if page_number u == page_number addr
              then page (asked (g * 4096) flags)
              else translate (take_frame s).0 u))
        (u : Untouched (take_frame s).0 own result.0 own')
        (st : result.0 ≡ record (take_frame s).0 { pmm = result.0.pmm; mem = result.0.mem }) where
      change_first :
          (w : ℕ)
          → translate result.0 w
            ≡ (if page_number w == first then page (asked (g * 4096) flags) else translate s w)
      change_first w = rw (← same_translation t addr flags small g a v w, ← here) (change w)

      map_pages-next :
          map_pages s start flags (suc left) i ≡ map_pages result.0 start flags left (i + 1)
      unfolding map_pages
      map_pages-next = rw (e, some_frame, r)

      round_mapped :
          Region result.0 own'
            (first + 1)
            left
            flags
            start
            (map_pages result.0 start flags left (i + 1))
          → Region s own first (suc left) flags start (map_pages s start flags (suc left) i)
      round_mapped rest =
          let kept : Kept (take_frame s).0 own result.0 own' g =
            g-Kept t addr flags small g a v result.0 own' u in
          subst (Region s own first (suc left) flags start) (sym map_pages-next) (
            cons-Region first left flags start g a.was_free
              (zeros t addr flags small g a v result.0 own' u) kept.still kept.no_table change_first
              (both t addr flags small g a v result.0 own' u) st
              (map_pages result.0 start flags left (i + 1)) rest)

    -- What is known of the state that the other pages are mapped in.
    abbrev Rest : Type 0
    Rest =
        (s1 : Vmm) (own1 : Owners)
        → HasTables s1 own1
        → ((v : ℕ) → page_number v ≢ first → translate s1 v ≡ translate s v)
        → Region s1 own1 (first + 1) left flags start (map_pages s1 start flags left (i + 1))

    round :
        MapResult (take_frame s).0 own addr (g * 4096) flags result
        → Rest
        → Region s own first (suc left) flags start (map_pages s start flags (suc left) i)
    round (no_frame own' r all h same u st) rest = round_failed own' r h same u st
    round (mapped own' r h change u st) rest =
        round_mapped own' r change u st
          (rest result.0 own' h λ w apart. change_first own' r change u st w ∙ ground arith)

  round_any :
      AllocResult s.pmm s.mem (pmm_alloc_frame s.pmm s.mem)
      → ((s1 : Vmm) (own1 : Owners)
          → HasTables s1 own1
          → ((v : ℕ) → page_number v ≢ first → translate s1 v ≡ translate s v)
          → Region s1 own1 (first + 1) left flags start (map_pages s1 start flags left (i + 1)))
      → Region s own first (suc left) flags start (map_pages s start flags (suc left) i)
  round_any (exhausted e all) rest =
      failed s own (map_pages-none s start flags left i e) t (λ v out. refl) (Untouched-refl s own)
        (refl {a = s})
  round_any (allocated g e a v) rest =
      round g a v e
        (map-MapResult (take_frame s).0 own addr (g * 4096) flags (HasTables-taken t g _ _ a v)
          (ap is_large_page (same_translation t addr flags small g a v addr) ∙ small))
        rest

pages-Region :
    (start flags left i first : ℕ) (s : Vmm) (own : Owners)
    → HasTables s own
    → (0 < left → page_number (u64 (start + i * 4096)) ≡ first)
    → first + left ≤ 2 ^ 36
    → ((v : ℕ)
        → first ≤ page_number v
        → page_number v < first + left
        → is_large_page (translate s v) ≡ false)
    → Region s own first left flags start (map_pages s start flags left i)
unfolding map_pages
pages-Region start flags zero i first s own t here room small =
    done s own (λ k. 0) refl t (λ v out. refl) (λ k lt. absurd (omega arith))
      (λ j k lt lt'. absurd (omega arith)) (Untouched-refl s own) refl
pages-Region start flags (suc left) i first s own t here room small =
    let first_here : page_number (u64 (start + i * 4096)) ≡ first = here (omega arith) in
    round_any t start flags left i first first_here
      (small (u64 (start + i * 4096)) (omega (arith, first_here)) (omega (arith, first_here)))
      (alloc_frame-AllocResult s.pmm s.mem t.valid)
      λ s1 own1 t1 same.
        pages-Region start flags left (i + 1) (first + 1) s1 own1 t1
          (next_number start i left first first_here (omega arith)) (omega arith)
          λ v lo hi. ap is_large_page (same v (omega arith)) ∙ small v (omega arith) (omega arith)

-- The first page of the region that vmm_alloc_guarded reserves, and the state with it reserved,
-- together with a page before it and a page behind it.
abbrev pub region_start : Vmm → ℕ
region_start s = u64 (s.dynamic_next_vaddr + page_size)

abbrev pub reserved : Vmm → (page_count : ℕ) → Vmm
reserved s page_count = record s {
  dynamic_next_vaddr = u64 (u64 (region_start s + page_count * page_size) + page_size);
}

reserved-HasTables :
    (s : Vmm) (own : Owners) (page_count : ℕ)
    → HasTables s own
    → HasTables (reserved s page_count) own
reserved-HasTables s own page_count t = record {
  valid = t.valid;
  offset = t.offset;
  addressable = t.addressable;
  root_level = t.root_level;
  root_prefix = t.root_prefix;
  held = t.held;
  tree = t.tree;
}

-- vmm_alloc_guarded, for a region in the 48-bit address space with no large page, never panics. It
-- returns NULL, or it has mapped each page of the region with the flags to a frame of zeros that was
-- in use for nothing else, a frame of its own for each page. It has changed the translation of no
-- page outside the region, the guard pages beside it included, and no frame in use that is not a
-- table.
pub alloc_guarded-Region :
    (s : Vmm) (own : Owners) (page_count flags : ℕ)
    → HasTables s own
    → page_number (region_start s) + page_count ≤ 2 ^ 36
    → ((v : ℕ)
        → page_number (region_start s) ≤ page_number v
        → page_number v < page_number (region_start s) + page_count
        → is_large_page (translate s v) ≡ false)
    → Region
        (reserved s page_count)
        own
        (page_number (region_start s))
        page_count
        flags
        (region_start s)
        (vmm_alloc_guarded s page_count flags)
unfolding vmm_alloc_guarded
alloc_guarded-Region s own page_count flags t room small =
    pages-Region (region_start s) flags page_count 0 (page_number (region_start s))
      (reserved s page_count) own (reserved-HasTables s own page_count t) (λ some_page. omega arith)
      room small'
  where
    small' :
        (v : ℕ)
        → page_number (region_start s) ≤ page_number v
        → page_number v < page_number (region_start s) + page_count
        → is_large_page (translate (reserved s page_count) v) ≡ false
    small' v lo hi = unfold translate in small v lo hi
