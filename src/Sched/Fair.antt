-- ===== src/Sched/Fair.antt =====
-- kernel/sched/sched.c: how long a thread of the ready ring waits for its slice.
use quin_kernel_template.Base.{
  append_assoc, append_nil, length-append, ℕ, suc, ◌+◌, ◌-◌, ◌*◌, ◌<◌, ◌≤◌, ◌≡◌, refl, sym, ap,
  subst, ◌∙◌, true, ◌==◌, List, [], ◌∷◌, ◌++◌, length, arith, Bool-cases, inl, inr,
}
use quin_kernel_template.Sched.{Sched, switch_to_next, sched_tick}
use quin_kernel_template.Sched.Ring.{has, has-append}
use quin_kernel_template.Sched.Slice.{
  ticks, RingIs, turn, rotate, switch_turns, slices_rotate, ticks_early, ticks-add,
}

-- Where a thread stands in a list.
record Splits (t : ℕ) (xs : List ℕ) : Type 0 where
  before : List ℕ
  behind : List ℕ
  whole : xs ≡ before ++ (t ∷ behind)

has-Splits : (t : ℕ) (xs : List ℕ) → has t xs ≡ true → Splits t xs
unfolding has
has-Splits t [] h = absurd (ground arith)
has-Splits t (x ∷ xs) h = elim (Bool-cases (t == x)) [
  | inl e ↦ record { before = []; behind = xs; whole = ap (λ (y : ℕ). y ∷ xs) (ground arith) }
  | inr e ↦
      let s = has-Splits t xs (ground arith) in
      record {
        before = x ∷ s.before;
        behind = s.behind;
        whole = ap (λ (l : List ℕ). x ∷ l) s.whole;
      }
]

-- Rotating by as many places as `xs` has brings what follows it to the front.
rotate-append : (xs ys : List ℕ) → rotate (length xs) (xs ++ ys) ≡ ys ++ xs
unfolding rotate turn
rotate-append [] ys = sym (append_nil ys)
rotate-append (x ∷ xs) ys =
    ap (rotate (length xs)) (append_assoc xs ys (x ∷ []))
    ∙ rotate-append xs (ys ++ (x ∷ []))
    ∙ append_assoc ys (x ∷ []) xs

head_or : ℕ → List ℕ → ℕ
head_or d [] = d
head_or d (x ∷ xs) = x

RingIs-current : (s : Sched) (t : ℕ) (xs : List ℕ) → RingIs s (t ∷ xs) → s.current ≡ t
unfolding head_or
RingIs-current s t xs r = ap (head_or t) r.starts

-- A slice ends after the ticks that are left of it.
slice_ends :
    (s : Sched)
    → s.ticks_since_switch < 10
    → ticks (10 - s.ticks_since_switch) s ≡ (switch_to_next s).0
unfolding ticks sched_tick switch_to_next
slice_ends s used =
    ap (λ (j : ℕ). ticks j s) {x = 10 - s.ticks_since_switch} {y = suc (9 - s.ticks_since_switch)}
      (omega arith)
    ∙ ap (λ (x : Sched). (sched_tick x).0) (ticks_early (9 - s.ticks_since_switch) s (omega arith))
    ∙ ground arith

-- From the start of a slice, each thread of the ring has the CPU after fewer slices than the ring has
-- threads.
slices_reach :
    (s : Sched) (ring : List ℕ) (t : ℕ)
    → RingIs s ring
    → s.ticks_since_switch ≡ 0
    → has t ring ≡ true
    → (k : ℕ) × (k < length ring) × ((ticks (k * 10) s).current ≡ t)
slices_reach s ring t r fresh inside =
    let at = has-Splits t ring inside in
    (
      length at.before,
      omega (arith, ap length at.whole, length-append at.before (t ∷ at.behind)),
      RingIs-current (ticks (length at.before * 10) s) t (at.behind ++ at.before) (
          subst (RingIs (ticks (length at.before * 10) s))
            (ap (rotate (length at.before)) at.whole ∙ rotate-append at.before (t ∷ at.behind))
            (slices_rotate (length at.before) s ring r fresh)),
    )

length-turn : (xs : List ℕ) → length (turn xs) ≡ length xs
unfolding turn
length-turn [] = refl
length-turn (x ∷ xs) = omega (arith, length-append xs (x ∷ []))

has-turn : (t : ℕ) (xs : List ℕ) → has t xs ≡ true → has t (turn xs) ≡ true
unfolding turn has
has-turn t [] h = h
has-turn t (x ∷ xs) h = ground (arith, has-append t xs (x ∷ []))

-- On a ring whose slice has used fewer than ten ticks, each thread of the ring is the current one
-- after at most ten ticks for each thread of the ring.
pub reaches :
    (s : Sched) (ring : List ℕ) (t : ℕ)
    → RingIs s ring
    → s.ticks_since_switch < 10
    → has t ring ≡ true
    → (n : ℕ) × (n ≤ 10 * length ring) × ((ticks n s).current ≡ t)
unfolding switch_to_next
reaches s ring t r used inside =
    let next = (switch_to_next s).0 in
    let left = 10 - s.ticks_since_switch in
    let turned =
      subst (λ (l : List ℕ). RingIs next (turn l)) r.starts (switch_turns s r.rest r.is_ring) in
    let there = slices_reach next (turn ring) t turned refl (has-turn t ring inside) in
    (
      there.0 * 10 + left,
      omega (arith, there.1, length-turn ring),
      ap (λ (x : Sched). x.current)
            (ticks-add left (there.0 * 10) s ∙ ap (ticks (there.0 * 10)) (slice_ends s used))
          ∙ there.2,
    )
