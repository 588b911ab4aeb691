-- ===== src/Ring3/Entry.antt =====
-- What ring3_demo_thread does to the page tables, and what a user program finds when it starts.
use quin_kernel_template.Base.{
  ℕ, ◌+◌, ◌*◌, ◌<◌, ◌≡◌, ◌≢◌, refl, sym, ap, ◌∙◌, arith, ◌==◌, Bool, true, false, if◌then◌else◌,
  some, subst,
}
use quin_kernel_template.Memory.{load}
use quin_kernel_template.Pmm.{pmm_alloc_frame}
use quin_kernel_template.Pmm.Alloc.{
  Allocated, AllocResult, exhausted, allocated, alloc_frame-AllocResult,
}
use quin_kernel_template.Pmm.Valid.{IsValid, IsFree}
use quin_kernel_template.Ring3.{
  user_code_vaddr, user_stack_vaddr, demo_program, write_bytes, map_stack, enter, ring3_demo_thread,
}
use quin_kernel_template.Ring3.Program.{overwritten, Written, write_bytes-Written}
use quin_kernel_template.Ring3.Result.{code_flags, stack_flags, DemoResult, no_memory, in_ring3}
use quin_kernel_template.Vmm.{Vmm, take_frame, vmm_map}
use quin_kernel_template.Vmm.Fault.{same_translation, both, g-Kept, zeros}
use quin_kernel_template.Vmm.Map.{MapResult, no_frame, mapped, map-MapResult}
use quin_kernel_template.Vmm.Tables.{HasTables, Untouched, Kept, HasTables-taken}
use quin_kernel_template.Vmm.Translate.{translate, page_number}
use quin_kernel_template.Vmm.Tree.{Owners, page, is_large_page}
use quin_kernel_template.Vmm.Walk.{Untouched-refl, Untouched-trans}
use quin_kernel_template.Vmm.Word.{asked}

module _ {s : Vmm} {own : Owners} (t : HasTables s own)
    (small_code : is_large_page (translate s user_code_vaddr) ≡ false)
    (small_stack : is_large_page (translate s user_stack_vaddr) ≡ false) (g : ℕ)
    (a1 : Allocated s.pmm s.mem g (pmm_alloc_frame s.pmm s.mem).0 (pmm_alloc_frame s.pmm s.mem).1)
    (v1 : IsValid (pmm_alloc_frame s.pmm s.mem).0 (pmm_alloc_frame s.pmm s.mem).1) where
  abbrev s1 : Vmm
  s1 = (take_frame s).0

  t1 : HasTables s1 own
  t1 = HasTables-taken t g _ _ a1 v1

  same1 : (u : ℕ) → translate s1 u ≡ translate s u
  same1 = same_translation t user_code_vaddr 0 small_code g a1 v1

  small1 : is_large_page (translate s1 user_code_vaddr) ≡ false
  small1 = ap is_large_page (same1 user_code_vaddr) ∙ small_code

  under1 : (s' : Vmm) (own' : Owners) → Untouched s1 own s' own' → Untouched s own s' own'
  under1 = both t user_code_vaddr 0 small_code g a1 v1

  module _ (h : ℕ)
      (a2 : Allocated s1.pmm s1.mem h
        (pmm_alloc_frame s1.pmm s1.mem).0
        (pmm_alloc_frame s1.pmm s1.mem).1)
      (v2 : IsValid (pmm_alloc_frame s1.pmm s1.mem).0 (pmm_alloc_frame s1.pmm s1.mem).1) where
    abbrev s2 : Vmm
    s2 = (take_frame s1).0

    t2 : HasTables s2 own
    t2 = HasTables-taken t1 h _ _ a2 v2

    same2 : (u : ℕ) → translate s2 u ≡ translate s u
    same2 u = same_translation t1 user_code_vaddr 0 small1 h a2 v2 u ∙ same1 u

    under2 : (s' : Vmm) (own' : Owners) → Untouched s2 own s' own' → Untouched s1 own s' own'
    under2 = both t1 user_code_vaddr 0 small1 h a2 v2

    apart : g ≢ h
    apart = ground (arith, a1.was_free, a1.same_place, a1.now_used g, a2.was_free)

    h-IsFree : IsFree s.pmm s.mem h
    h-IsFree = ground (arith, a1.was_free, a1.same_place, a1.now_used h, a2.was_free)

    abbrev code : Vmm × Bool
    code = vmm_map s2 user_code_vaddr (g * 4096) code_flags

    abbrev stack : Vmm × Bool
    stack = vmm_map code.0 user_stack_vaddr (h * 4096) stack_flags

    -- Both pages are mapped.
    module _ (own3 own4 : Owners)
        (change3 : (u : ℕ)
          → translate code.0 u ≡ (
              if page_number u == page_number user_code_vaddr
              then page (asked (g * 4096) code_flags)
              else translate s2 u))
        (u3 : Untouched s2 own code.0 own3)
        (st3 : code.0 ≡ record s2 { pmm = code.0.pmm; mem = code.0.mem })
        (t4 : HasTables stack.0 own4)
        (change4 : (u : ℕ)
          → translate stack.0 u ≡ (
              if page_number u == page_number user_stack_vaddr
              then page (asked (h * 4096) stack_flags)
              else translate code.0 u))
        (u4 : Untouched code.0 own3 stack.0 own4)
        (st4 : stack.0 ≡ record code.0 { pmm = stack.0.pmm; mem = stack.0.mem }) where
      u24 : Untouched s2 own stack.0 own4
      u24 = Untouched-trans s2 code.0 stack.0 own own3 own4 (ap (λ t. t.hhdm_offset) st3) u3 u4

      g-kept : Kept s1 own stack.0 own4 g
      g-kept = g-Kept t user_code_vaddr 0 small_code g a1 v1 stack.0 own4 (under2 stack.0 own4 u24)

      h-kept : Kept s2 own stack.0 own4 h
      h-kept = g-Kept t1 user_code_vaddr 0 small1 h a2 v2 stack.0 own4 u24

      change :
          (v : ℕ)
          → translate stack.0 v ≡ (
              if page_number v == page_number user_stack_vaddr
              then page (asked (h * 4096) stack_flags)
              else if page_number v == page_number user_code_vaddr
              then page (asked (g * 4096) code_flags)
              else translate s v)
      change v = rw (← same2 v, ← change3 v) (change4 v)

      code_page :
          (i : ℕ)
          → i < 4096
          → translate stack.0 (user_code_vaddr + i) ≡ page (asked (g * 4096) code_flags)
      code_page i lt =
          let in_code : (page_number (user_code_vaddr + i) == page_number user_code_vaddr) ≡ true =
            ground arith in
          let no_stack : (page_number (user_code_vaddr + i) == page_number user_stack_vaddr)
              ≡ false =
            ground arith in
          rw (change (user_code_vaddr + i), no_stack, in_code) refl

      writable_g : (asked (g * 4096) code_flags).writable ≡ true
      unfolding asked
      writable_g = refl

      frame_g : (asked (g * 4096) code_flags).frame ≡ g
      unfolding asked
      frame_g = omega (arith, g-kept.still.in_range, t4.addressable)

      place : stack.0.hhdm_offset ≡ s.hhdm_offset
      place = ap (λ t. t.hhdm_offset) st4 ∙ ap (λ t. t.hhdm_offset) st3

      entered :
          (s' : Vmm) × (write_bytes stack.0 user_code_vaddr demo_program ≡ some s')
            × Written stack.0 own4 g 0 demo_program s'
          → DemoResult s own (enter (write_bytes stack.0 user_code_vaddr demo_program))
      unfolding enter
      entered (s', ran, w) = rw ran (
          in_ring3 s' own4 g h a1.was_free h-IsFree apart w.tables (λ v. w.same v ∙ change v)
            (λ a lt.
              subst
                (λ o.
                  load s'.mem (o + g * 4096 + a)
                  ≡ overwritten 0 demo_program (load stack.0.mem (o + g * 4096 + a)) a)
                place (w.bytes a lt)
              ∙ ap (λ o. overwritten 0 demo_program o a)
                  (zeros t user_code_vaddr 0 small_code g a1 v1 stack.0 own4
                    (under2 stack.0 own4 u24) a lt))
            (λ a lt.
              subst (λ o. load s'.mem (o + h * 4096 + a) ≡ load stack.0.mem (o + h * 4096 + a))
                place (w.others h a (λ e. apart (sym e)) lt)
              ∙ zeros t1 user_code_vaddr 0 small1 h a2 v2 stack.0 own4 u24 a lt))

      start-DemoResult : DemoResult s own (enter (write_bytes stack.0 user_code_vaddr demo_program))
      start-DemoResult = entered (
          write_bytes-Written demo_program stack.0 own4 (asked (g * 4096) code_flags) g
            user_code_vaddr 0 (frame_g, writable_g) t4 g-kept.still g-kept.no_table refl code_page
            (omega arith))

    stack-DemoResult :
        (own3 : Owners)
        → ((u : ℕ)
            → translate code.0 u ≡ (
                if page_number u == page_number user_code_vaddr
                then page (asked (g * 4096) code_flags)
                else translate s2 u))
        → Untouched s2 own code.0 own3
        → code.0 ≡ record s2 { pmm = code.0.pmm; mem = code.0.mem }
        → code.1 ≡ true
        → MapResult code.0 own3 user_stack_vaddr (h * 4096) stack_flags stack
        → DemoResult s own (map_stack code (h * 4096))
    unfolding map_stack
    stack-DemoResult own3 change3 u3 st3 r3 (no_frame own4 r4 all t4 same u4 st4) =
        rw (r3, r4)
          (no_memory stack.0 own4 all t4 (
            under1 stack.0 own4 (
              under2 stack.0 own4 (
                Untouched-trans s2 code.0 stack.0 own own3 own4 (ap (λ t. t.hhdm_offset) st3) u3
                  u4))))
    stack-DemoResult own3 change3 u3 st3 r3 (mapped own4 r4 t4 change4 u4 st4) =
        rw (r3, r4) (start-DemoResult own3 own4 change3 u3 st3 t4 change4 u4 st4)

    code-DemoResult :
        MapResult s2 own user_code_vaddr (g * 4096) code_flags code
        → DemoResult s own (map_stack code (h * 4096))
    unfolding map_stack
    code-DemoResult (no_frame own3 r3 all t3 same u3 st3) =
        rw r3 (no_memory code.0 own3 all t3 (under1 code.0 own3 (under2 code.0 own3 u3)))
    code-DemoResult (mapped own3 r3 t3 change3 u3 st3) =
        let no_code : (page_number user_stack_vaddr == page_number user_code_vaddr) ≡ false =
          ground arith in
        stack-DemoResult own3 change3 u3 st3 r3 (
          map-MapResult code.0 own3 user_stack_vaddr (h * 4096) stack_flags t3
            (rw (change3 user_stack_vaddr, no_code, same2 user_stack_vaddr) small_stack))

  second-DemoResult :
      (take_frame s).1 ≡ g * 4096
      → AllocResult s1.pmm s1.mem (pmm_alloc_frame s1.pmm s1.mem)
      → DemoResult s own (ring3_demo_thread s)
  unfolding ring3_demo_thread
  second-DemoResult e1 (exhausted e2 all) =
      let some_frame : (g * 4096 == 0) ≡ false = ground (arith, a1.not_zero) in
      rw (e1, some_frame, e2) (no_memory s1 own all t1 (under1 s1 own (Untouched-refl s1 own)))
  second-DemoResult e1 (allocated h e2 a2 v2) =
      let some_frame : (g * 4096 == 0) ≡ false = ground (arith, a1.not_zero) in
      let some_frame' : (h * 4096 == 0) ≡ false = ground (arith, a2.not_zero) in
      rw (e1, some_frame, e2, some_frame')
        (code-DemoResult h a2 v2 (
          map-MapResult (take_frame s1).0 own user_code_vaddr (g * 4096) code_flags (t2 h a2 v2)
            (ap is_large_page (same2 h a2 v2 user_code_vaddr) ∙ small_code)))

first-DemoResult :
    (s : Vmm) (own : Owners)
    → HasTables s own
    → is_large_page (translate s user_code_vaddr) ≡ false
    → is_large_page (translate s user_stack_vaddr) ≡ false
    → AllocResult s.pmm s.mem (pmm_alloc_frame s.pmm s.mem)
    → DemoResult s own (ring3_demo_thread s)
unfolding ring3_demo_thread
first-DemoResult s own t small_code small_stack (exhausted e all) =
    rw (e, e) (no_memory s own all t (Untouched-refl s own))
first-DemoResult s own t small_code small_stack (allocated g e a v) =
    second-DemoResult t small_code small_stack g a v e (alloc_frame-AllocResult _ _ v)

-- On well-formed page tables with no large page at the two addresses, the thread of the ring 3 demo
-- never faults, where a store faults on a page that is absent or that some level makes read-only. It
-- stops because no frame is left, having changed no frame in use that is not a table, or it goes to
-- ring 3 with two frames mapped that were free: one that holds the four bytes of the program and then
-- zeros, with the rights of code_flags over all levels, and one of zeros for the stack, with those of
-- stack_flags. The translation of every other page is then as before. The tables stay well-formed.
pub ring3_demo_thread-DemoResult :
    (s : Vmm) (own : Owners)
    → HasTables s own
    → is_large_page (translate s user_code_vaddr) ≡ false
    → is_large_page (translate s user_stack_vaddr) ≡ false
    → DemoResult s own (ring3_demo_thread s)
ring3_demo_thread-DemoResult s own t small_code small_stack =
    first-DemoResult s own t small_code small_stack (alloc_frame-AllocResult s.pmm s.mem t.valid)
