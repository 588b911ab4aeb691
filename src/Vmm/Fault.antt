-- ===== src/Vmm/Fault.antt =====
-- vmm.c's page faults: a fault in a lazy region maps its page to a new frame of zeros.
use quin_kernel_template.Base.{
  ℕ, ◌+◌, ◌*◌, ◌/◌, ◌%◌, ◌^◌, ◌<◌, ◌≡◌, refl, ◌∙◌, ap, Bool, true, false, arith, ◌==◌, List, [],
  ◌∷◌, Option, none, some, Bool-cases, inl, inr, if◌then◌else◌, bit_and,
}
use quin_kernel_template.Align.{align_down, mask_by_4096}
use quin_kernel_template.Base.Bits.{bit_and_low}
use quin_kernel_template.Memory.{load}
use quin_kernel_template.Pmm.{pmm_alloc_frame}
use quin_kernel_template.Pmm.Alloc.{
  Allocated, AllocResult, exhausted, allocated, alloc_frame-AllocResult,
}
use quin_kernel_template.Pmm.Free.{MayFree, Allocated-MayFree}
use quin_kernel_template.Pmm.Valid.{IsValid, IsFree}
use quin_kernel_template.Vmm.{
  Vmm, LazyRegion, covers, fault_in, take_frame, vmm_map, vmm_handle_page_fault,
}
use quin_kernel_template.Vmm.Map.{MapResult, no_frame, mapped, map-MapResult}
use quin_kernel_template.Vmm.Reach.{root}
use quin_kernel_template.Vmm.Tables.{
  HasTables, Untouched, Kept, new_level, new_zeroed, HasTables-taken, Extends-taken,
  Untouched-taken,
}
use quin_kernel_template.Vmm.Translate.{path, translate, page_number, path-InTables, translate_page}
use quin_kernel_template.Vmm.Tree.{Owners, page, is_large_page}
use quin_kernel_template.Vmm.Walk.{IsFull, Untouched-refl, Untouched-trans}
use quin_kernel_template.Vmm.Word.{asked}

-- The flags of the first region that covers the page that starts at `start`.
unfoldable pub flags_of : (start : ℕ) → List LazyRegion → Option ℕ
unfolding covers
flags_of start [] = none
flags_of start (r ∷ rs) = if covers start r then some r.flags else flags_of start rs

fault_step : Vmm → (start flags : ℕ) → Vmm × Bool
fault_step s start flags =
    if (take_frame s).1 == 0
    then ((take_frame s).0, false)
    else vmm_map (take_frame s).0 start (take_frame s).1 flags

fault_in_lem :
    (s : Vmm) (start flags : ℕ) (rs : List LazyRegion)
    → flags_of start rs ≡ some flags
    → fault_in s start rs ≡ fault_step s start flags
unfolding fault_in flags_of fault_step
fault_in_lem s start flags [] h = ground arith
fault_in_lem s start flags (r ∷ rs) h = elim (Bool-cases (covers start r)) [
  | inl here ↦ rw here (let e : r.flags ≡ flags = ground arith in rw e)
  | inr away ↦ rw away (fault_in_lem s start flags rs (ground arith))
]

-- The two outcomes of a fault in a lazy region: its page is mapped to a frame that was free, of
-- zeros, or no frame is left and nothing is mapped.
pub data FaultResult (s : Vmm) (own : Owners) (addr flags : ℕ) (r : Vmm × Bool) : Type 0 where
  out_of_frames :
      (own' : Owners)
      → r.1 ≡ false
      → IsFull r.0
      → HasTables r.0 own'
      → ((v : ℕ) → translate r.0 v ≡ translate s v)
      → Untouched s own r.0 own'
      → r.0 ≡ record s { pmm = r.0.pmm; mem = r.0.mem }
      → FaultResult s own addr flags r
  resolved :
      (own' : Owners) (g : ℕ)
      → r.1 ≡ true
      → IsFree s.pmm s.mem g
      → ((a : ℕ) → a < 4096 → load r.0.mem (s.hhdm_offset + g * 4096 + a) ≡ 0)
      → MayFree r.0.pmm r.0.mem g
      → own'.level g ≡ 0
      → HasTables r.0 own'
      → ((v : ℕ)
          → translate r.0 v ≡ (
              if page_number v == page_number addr
              then page (asked (g * 4096) flags)
              else translate s v))
      → Untouched s own r.0 own'
      → r.0 ≡ record s { pmm = r.0.pmm; mem = r.0.mem }
      → FaultResult s own addr flags r

module _ {s : Vmm} {own : Owners} (t : HasTables s own) (addr flags : ℕ)
    (small : is_large_page (translate s addr) ≡ false) where
  module _ (g : ℕ)
      (a : Allocated s.pmm s.mem g (pmm_alloc_frame s.pmm s.mem).0 (pmm_alloc_frame s.pmm s.mem).1)
      (v : IsValid (pmm_alloc_frame s.pmm s.mem).0 (pmm_alloc_frame s.pmm s.mem).1) where
    abbrev pub taken : Vmm
    taken = (take_frame s).0

    pub same_translation : (u : ℕ) → translate taken u ≡ translate s u
    unfolding translate
    same_translation u =
        (Extends-taken t g _ _ a v).walks (root s) (path u) t.root_level (path-InTables u)

    pub g-Kept : (s' : Vmm) (own' : Owners) → Untouched taken own s' own' → Kept taken own s' own' g
    g-Kept s' own' u = u g (new_level t g _ _ a v) (Allocated-MayFree t.valid a)

    pub zeros :
        (s' : Vmm) (own' : Owners)
        → Untouched taken own s' own'
        → (k : ℕ) → k < 4096
        → load s'.mem (s.hhdm_offset + g * 4096 + k) ≡ 0
    zeros s' own' u k lt = (g-Kept s' own' u).bytes k lt ∙ new_zeroed t g _ _ a v k lt

    pub both : (s' : Vmm) (own' : Owners) → Untouched taken own s' own' → Untouched s own s' own'
    both s' own' u = Untouched-trans s taken s' own own own' refl (Untouched-taken t g _ _ a v) u

    pub MapResult-FaultResult :
        (r : Vmm × Bool)
        → MapResult taken own addr (g * 4096) flags r
        → FaultResult s own addr flags r
    MapResult-FaultResult r (no_frame own' e all h same u st) =
        out_of_frames own' e all h (λ w. same w ∙ same_translation w) (both r.0 own' u) st
    MapResult-FaultResult r (mapped own' e h change u st) =
        resolved own' g e a.was_free (zeros r.0 own' u) (g-Kept r.0 own' u).still
          (g-Kept r.0 own' u).no_table h (λ w. rw (← same_translation w) (change w))
          (both r.0 own' u) st

    step-allocated :
        (take_frame s).1 ≡ g * 4096 → FaultResult s own addr flags (fault_step s addr flags)
    unfolding fault_step
    step-allocated e =
        let some_frame : (g * 4096 == 0) ≡ false = ground (arith, a.not_zero) in
        rw (e, some_frame)
          (MapResult-FaultResult (vmm_map taken addr (g * 4096) flags) (
            map-MapResult taken own addr (g * 4096) flags (HasTables-taken t g _ _ a v)
              (ap is_large_page (same_translation addr) ∙ small)))

  step-FaultResult :
      AllocResult s.pmm s.mem (pmm_alloc_frame s.pmm s.mem)
      → FaultResult s own addr flags (fault_step s addr flags)
  unfolding fault_step
  step-FaultResult (exhausted e all) =
      rw e (out_of_frames own refl all t (λ v. refl) (Untouched-refl s own) refl)
  step-FaultResult (allocated g e a v) = step-allocated g a v e

-- A fault of an absent page in a lazy region, at an address in no large page, maps the page with
-- the region's flags to a frame that was free and is all zeros, or fails because no frame is left.
-- No other translation changes, nor a frame in use that is not a table, and the page tables stay a
-- tree of frames in use.
pub handle_page_fault-FaultResult :
    (s : Vmm) (own : Owners) (fault_addr error_code flags : ℕ)
    → HasTables s own
    → fault_addr < 2 ^ 64
    → error_code % 2 ≡ 0
    → flags_of (fault_addr / 4096 * 4096) s.lazy_regions ≡ some flags
    → is_large_page (translate s fault_addr) ≡ false
    → FaultResult s own
        (fault_addr / 4096 * 4096)
        flags
        (vmm_handle_page_fault s fault_addr error_code)
unfolding vmm_handle_page_fault align_down
handle_page_fault-FaultResult s own fault_addr error_code flags t fits absent lazy small =
    let test : (bit_and error_code 1 == 0) ≡ true = ground (arith, bit_and_low 1 error_code) in
    rw
      (
        test,
        mask_by_4096 fault_addr fits,
        fault_in_lem s (fault_addr / 4096 * 4096) flags s.lazy_regions lazy,
      )
      (step-FaultResult t (fault_addr / 4096 * 4096) flags small'
        (alloc_frame-AllocResult s.pmm s.mem t.valid))
  where
    small' : is_large_page (translate s (fault_addr / 4096 * 4096)) ≡ false
    small' =
        ap is_large_page (translate_page s (fault_addr / 4096 * 4096) fault_addr (omega arith))
        ∙ small
