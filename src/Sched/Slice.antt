-- ===== src/Sched/Slice.antt =====
-- kernel/sched/sched.c's `sched_tick`, over sequences of timer ticks.
use quin_kernel_template.Base.{
  ℕ, zero, suc, ◌+◌, ◌*◌, ◌<◌, ◌≡◌, refl, sym, ap, ◌∙◌, List, [], ◌∷◌, ◌++◌, arith,
}
use std.Path.{transport}
use quin_kernel_template.Sched.{Sched, Decision, stay, switch_to_next, sched_tick}
use quin_kernel_template.Sched.Ring.{IsRing, switch-IsRing}

-- The state after `n` timer ticks.
unfoldable pub ticks : ℕ → Sched → Sched
ticks zero s = s
ticks (suc n) s = (sched_tick (ticks n s)).0

-- The ring's list, the current thread first.
pub record RingIs (s : Sched) (ring : List ℕ) : Type 0 where
  pub rest : List ℕ
  pub starts : (s.current ∷ rest) ≡ ring
  pub is_ring : IsRing s rest

unfoldable pub turn : List ℕ → List ℕ
turn [] = []
turn (x ∷ xs) = xs ++ (x ∷ [])

unfoldable pub rotate : ℕ → List ℕ → List ℕ
unfolding turn
rotate zero xs = xs
rotate (suc k) xs = rotate k (turn xs)

abbrev pub counted : Sched → ℕ → Sched
counted s c = record s { ticks_since_switch = c }

pub tick_early : (s : Sched) (c : ℕ) → c < 9 → sched_tick (counted s c) ≡ (counted s (c + 1), stay)
unfolding sched_tick
tick_early s c h = ground arith

-- As long as fewer than ten ticks are counted since the last switch, ticks only count: nothing else
-- changes.
pub ticks_early :
    (n : ℕ) (s : Sched)
    → s.ticks_since_switch + n < 10
    → ticks n s ≡ record s { ticks_since_switch = s.ticks_since_switch + n }
unfolding ticks
ticks_early zero s h = ap (λ (c : ℕ). counted s c) (omega arith)
ticks_early (suc n) s h =
    let now = s.ticks_since_switch + n in
    ap (λ (x : Sched). (sched_tick x).0) (ticks_early n s (omega arith))
    ∙ ap (λ (r : Sched × Decision). r.0) (tick_early s now (omega arith))
    ∙ ap (λ (c : ℕ). counted s c) (omega arith)

-- The tenth tick after a switch is a switch.
pub tenth_tick : (s : Sched) → s.ticks_since_switch ≡ 0 → ticks 10 s ≡ (switch_to_next s).0
unfolding ticks sched_tick switch_to_next
tenth_tick s fresh =
    ap (λ (x : Sched). (sched_tick x).0) (ticks_early 9 s (omega arith)) ∙ ground arith

pub ticks-add : (n k : ℕ) (s : Sched) → ticks (k + n) s ≡ ticks k (ticks n s)
unfolding ticks
ticks-add n zero s = ap (λ (j : ℕ). ticks j s) {y = n} (omega arith)
ticks-add n (suc k) s =
    ap (λ (j : ℕ). ticks j s) {y = suc (k + n)} (omega arith)
    ∙ ap (λ (x : Sched). (sched_tick x).0) (ticks-add n k s)

pub switch_turns :
    (s : Sched) (rest : List ℕ)
    → IsRing s rest
    → RingIs (switch_to_next s).0 (turn (s.current ∷ rest))
unfolding switch_to_next turn quin_kernel_template.Sched.Ring.has
switch_turns s [] r = record {
  rest = [];
  starts = ap (λ (t : ℕ). t ∷ []) r.linked;
  is_ring = record {
    linked = ap (λ (t : ℕ). (s.threads t).next) r.linked ∙ refl;
    distinct = (refl, tt);
  };
}
switch_turns s (t ∷ rest) r =
    let turned = switch-IsRing s t rest r in
    record {
      rest = rest ++ (s.current ∷ []);
      starts = ap (λ (a : ℕ). a ∷ (rest ++ (s.current ∷ []))) turned.1;
      is_ring = turned.0;
    }

-- From a slice of which no tick is used, `k` whole slices rotate the ring by `k`: the threads run in
-- the ring's order, ten ticks each.
pub slices_rotate :
    (k : ℕ) (s : Sched) (ring : List ℕ)
    → RingIs s ring
    → s.ticks_since_switch ≡ 0
    → RingIs (ticks (k * 10) s) (rotate k ring)
unfolding rotate ticks
slices_rotate zero s ring r fresh = r
slices_rotate (suc k) s ring r fresh =
    let after = ticks 10 s in
    let slice = sym (tenth_tick s fresh) in
    let turned =
      transport (λ i. RingIs (slice i) (turn (r.starts i))) (switch_turns s r.rest r.is_ring) in
    rw
      (ap (λ (j : ℕ). ticks j s) {x = suc k * 10} {y = k * 10 + 10} (omega arith)
        ∙ ticks-add 10 (k * 10) s)
      (slices_rotate k after (turn ring) turned
        (unfold switch_to_next in ap (λ (x : Sched). x.ticks_since_switch) (tenth_tick s fresh)))
