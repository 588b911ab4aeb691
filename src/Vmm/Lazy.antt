-- ===== src/Vmm/Lazy.antt =====
-- vmm.c's lazy regions: what registering adds to the addresses that faults are resolved at, and
-- which faults change nothing.
use quin_kernel_template.Base.{
  ℕ, ◌*◌, ◌/◌, ◌%◌, ◌^◌, ◌<◌, ◌≡◌, refl, Bool, false, not, ◌&&◌, ◌||◌, List, [], ◌∷◌, arith, leb,
  ltb, length, inl, inr, ◌⊎◌,
}
use quin_kernel_template.Base.Bits.{bit_and_low}
use quin_kernel_template.Align.{align_down, mask_by_4096}
use quin_kernel_template.Vmm.{
  LazyRegion, Vmm, register, covers, fault_in, vmm_register_lazy_region, vmm_handle_page_fault,
}

-- A region covers `page`.
unfoldable pub any_covers : ℕ → List LazyRegion → Bool
unfolding covers
any_covers page [] = false
any_covers page (r ∷ rs) = covers page r || any_covers page rs

-- An entry of the table is unused.
unfoldable pub any_unused : List LazyRegion → Bool
any_unused [] = false
any_unused (r ∷ rs) = not r.used || any_unused rs

register_covers :
    (rs : List LazyRegion) (start end flags page : ℕ)
    → any_covers page (register rs start end flags).0
      ≡ (any_covers page rs || (any_unused rs && leb start page && ltb page end))
unfolding register any_covers any_unused covers
register_covers [] start end flags page = refl
register_covers (r ∷ rs) start end flags page =
    ground (arith, register_covers rs start end flags page)

register_result :
    (rs : List LazyRegion) (start end flags : ℕ) → (register rs start end flags).1 ≡ any_unused rs
unfolding register any_unused
register_result [] start end flags = refl
register_result (r ∷ rs) start end flags = ground (arith, register_result rs start end flags)

length-register :
    (rs : List LazyRegion) (start end flags : ℕ)
    → length (register rs start end flags).0 ≡ length rs
unfolding register
length-register [] start end flags = refl
length-register (r ∷ rs) start end flags = ground (arith, length-register rs start end flags)

-- Registering a region succeeds when an entry of the table is unused, keeps the table's length, and
-- on success adds the pages of the region to those that are resolved, on failure none.
register_lazy_region_lem :
    (s : Vmm) (start end flags : ℕ)
    → ((vmm_register_lazy_region s start end flags).1 ≡ any_unused s.lazy_regions)
      × (length (vmm_register_lazy_region s start end flags).0.lazy_regions ≡ length s.lazy_regions)
      × ((page : ℕ)
          → any_covers page (vmm_register_lazy_region s start end flags).0.lazy_regions ≡ (
              any_covers page s.lazy_regions
              || ((vmm_register_lazy_region s start end flags).1
                  && leb start page
                  && ltb page end)))
unfolding vmm_register_lazy_region
register_lazy_region_lem s start end flags = (
  register_result s.lazy_regions start end flags,
  length-register s.lazy_regions start end flags,
  λ page.
      rw (register_result s.lazy_regions start end flags)
        (register_covers s.lazy_regions start end flags page),
)

fault_in-outside :
    (s : Vmm) (page : ℕ) (rs : List LazyRegion)
    → any_covers page rs ≡ false
    → fault_in s page rs ≡ (s, false)
unfolding fault_in any_covers
fault_in-outside s page [] h = refl
fault_in-outside s page (r ∷ rs) h = ground (arith, fault_in-outside s page rs)

-- A fault that a protection violation caused, or at an address in no region, is refused, with no
-- frame taken and nothing mapped.
pub handle_page_fault-refuses :
    (s : Vmm) (fault_addr error_code : ℕ)
    → (error_code % 2 ≡ 1) ⊎ (any_covers (fault_addr / 4096 * 4096) s.lazy_regions ≡ false)
    → fault_addr < 2 ^ 64
    → vmm_handle_page_fault s fault_addr error_code ≡ (s, false)
unfolding vmm_handle_page_fault align_down
handle_page_fault-refuses s fault_addr error_code (inl protection) fits =
    ground (arith, bit_and_low 1 error_code)
handle_page_fault-refuses s fault_addr error_code (inr outside) fits =
    rw (mask_by_4096 fault_addr fits)
      (ground (arith, fault_in-outside s (fault_addr / 4096 * 4096) s.lazy_regions outside))
