-- ===== src/Panic/Trace.antt =====
-- kernel/arch/x86_64/cpu/panic.c's `print_stack_trace`, as the list of the return addresses that it
-- prints.
use quin_kernel_template.Base.{
  ℕ, zero, suc, ◌+◌, ◌<◌, ◌≡◌, ◌≢◌, ◌⊎◌, inl, inr, refl, sym, ap, ◌∙◌, arith, true, false, ◌||◌,
  List, [], ◌∷◌, leb, ◌==◌, if◌then◌else◌,
}
use quin_kernel_template.Memory.{Memory, load64}

abbrev pub max_depth : ℕ
max_depth = 16

-- The loop, with `left` rounds to go.
unfoldable pub walk_frames : (left : ℕ) → Memory → (rbp : ℕ) → List ℕ
walk_frames zero m rbp = []
walk_frames (suc left) m rbp =
    let saved_rbp = load64 m rbp in
    let return_addr = load64 m (rbp + 8) in
    let rest = walk_frames left m saved_rbp in
    if rbp == 0 || return_addr == 0
    then []
    else return_addr ∷ (if leb saved_rbp rbp then [] else rest)

unfoldable pub print_stack_trace : Memory → (rbp : ℕ) → List ℕ
unfolding walk_frames
print_stack_trace m rbp = walk_frames max_depth m rbp

-- The calls of a stack whose frames are chained upwards from `rbp`, the innermost one first: each
-- frame holds the address of the next, or 0, and its return address.
abbrev pub IsStack : Memory → (rbp : ℕ) → List ℕ → Type 0
IsStack m rbp [] = rbp ≡ 0
IsStack m rbp (r ∷ rs) =
    (rbp ≢ 0)
    × (load64 m (rbp + 8) ≡ r)
    × (r ≢ 0)
    × ((load64 m rbp ≡ 0) ⊎ (rbp < load64 m rbp))
    × IsStack m (load64 m rbp) rs

abbrev pub innermost : ℕ → List ℕ → List ℕ
innermost zero xs = []
innermost (suc n) [] = []
innermost (suc n) (x ∷ xs) = x ∷ innermost n xs

walk_end : (left : ℕ) (m : Memory) → walk_frames left m 0 ≡ []
unfolding walk_frames
walk_end zero m = refl
walk_end (suc left) m = refl

walk_step :
    (left : ℕ) (m : Memory) (rbp : ℕ)
    → (rbp == 0 || load64 m (rbp + 8) == 0) ≡ false
    → walk_frames (suc left) m rbp
      ≡ load64 m (rbp + 8)
        ∷ (if leb (load64 m rbp) rbp then [] else walk_frames left m (load64 m rbp))
unfolding walk_frames
walk_step left m rbp e = rw (e, walk_frames) refl

-- Above a null frame pointer there are no calls.
pub innermost_none :
    (n : ℕ) (m : Memory) (rbp : ℕ) (rs : List ℕ) → rbp ≡ 0 → IsStack m rbp rs → innermost n rs ≡ []
innermost_none zero m rbp rs e s = refl
innermost_none (suc n) m rbp [] e s = refl
innermost_none (suc n) m rbp (r ∷ rs) e s = absurd (s.0 e)

walk_lem :
    (left : ℕ) (m : Memory) (rbp : ℕ) (rs : List ℕ)
    → IsStack m rbp rs
    → walk_frames left m rbp ≡ innermost left rs
unfolding walk_frames
walk_lem zero m rbp rs s = refl
walk_lem (suc left) m rbp [] s = ap (walk_frames (suc left) m) s ∙ walk_end (suc left) m
walk_lem (suc left) m rbp (r ∷ rs) s =
    walk_step left m rbp (ground (arith, s.0, s.1, s.2))
    ∙ ap (λ (a : ℕ). a ∷ above) s.1
    ∙ ap (λ (l : List ℕ). r ∷ l) (rest s.3 (walk_lem left m (load64 m rbp) rs s.4))
  where
    saved : ℕ
    saved = load64 m rbp

    above : List ℕ
    above = if leb saved rbp then [] else walk_frames left m saved

    rest :
        (saved ≡ 0) ⊎ (rbp < saved)
        → walk_frames left m saved ≡ innermost left rs
        → above ≡ innermost left rs
    rest (inl e) ih = rw last (sym (innermost_none left m saved rs e s.4))
      where
        last : leb saved rbp ≡ true
        last = ground arith
    rest (inr up) ih = rw higher ih
      where
        higher : leb saved rbp ≡ false
        higher = ground arith

-- Of a stack whose frames are chained upwards, print_stack_trace prints the return addresses of the
-- sixteen innermost calls, the innermost one first, or of all calls if there are no more.
stack_trace_lem :
    (m : Memory) (rbp : ℕ) (rs : List ℕ)
    → IsStack m rbp rs
    → print_stack_trace m rbp ≡ innermost 16 rs
unfolding print_stack_trace
stack_trace_lem m rbp rs s = walk_lem max_depth m rbp rs s
