-- ===== src/Sched/Ring.antt =====
-- kernel/sched/sched.c's ready ring, as the list of its threads from the current one on.
use quin_kernel_template.Base.{
  ℕ, ◌≡◌, ◌≢◌, refl, ap, ◌∙◌, Bool, true, false, List, [], ◌∷◌, ◌++◌, arith, ◌==◌, ◌||◌,
}
use quin_kernel_template.Sched.{Threads, Sched, sched_init, sched_add_thread, switch_to_next}

unfoldable pub has : ℕ → List ℕ → Bool
has a [] = false
has a (x ∷ xs) = a == x || has a xs

abbrev pub Distinct : List ℕ → Type 0
Distinct [] = Unit
Distinct (x ∷ xs) = (has x xs ≡ false) × Distinct xs

-- From `p` the links lead through `xs` back to `home`.
abbrev pub Links : Threads → (home p : ℕ) → List ℕ → Type 0
Links ts home p [] = (ts p).next ≡ home
Links ts home p (x ∷ xs) = ((ts p).next ≡ x) × Links ts home x xs

-- The ring: the current thread, then `rest` in the order in which they run next.
pub record IsRing (s : Sched) (rest : List ℕ) : Type 0 where
  pub linked : Links s.threads s.current s.current rest
  pub distinct : Distinct (s.current ∷ rest)

-- The way from another start `q`, in other structures that agree on `xs`.
Links-ext :
    (ts ts' : Threads) (home p q : ℕ) (xs : List ℕ)
    → ((x : ℕ) → has x xs ≡ true → (ts' x).next ≡ (ts x).next)
    → (ts' q).next ≡ (ts p).next
    → Links ts home p xs
    → Links ts' home q xs
unfolding has
Links-ext ts ts' home p q [] same e l = e ∙ l
Links-ext ts ts' home p q (x ∷ xs) same e l = (
  e ∙ l.0,
  Links-ext ts ts' home x x xs (λ y h. same y (ground arith)) (same x (ground arith)) l.1,
)

-- Closing the way one thread earlier, at `p`, and going round.
Links-snoc :
    (ts : Threads) (home p y : ℕ) (xs : List ℕ)
    → Links ts y p xs
    → (ts y).next ≡ home
    → Links ts home p (xs ++ (y ∷ []))
Links-snoc ts home p y [] l e = (l, e)
Links-snoc ts home p y (x ∷ xs) l e = (l.0, Links-snoc ts home x y xs l.1 e)

pub has-append : (a : ℕ) (xs ys : List ℕ) → has a (xs ++ ys) ≡ (has a xs || has a ys)
unfolding has
has-append a [] ys = refl
has-append a (x ∷ xs) ys = ground (arith, has-append a xs ys)

Distinct-snoc : (xs : List ℕ) (y : ℕ) → Distinct xs → has y xs ≡ false → Distinct (xs ++ (y ∷ []))
unfolding has
Distinct-snoc [] y d out = (refl, tt)
Distinct-snoc (x ∷ xs) y d out =
    (ground (arith, has-append x xs (y ∷ []), d.0), Distinct-snoc xs y d.1 (ground arith))

-- `sched_init` leaves a ring of the bootstrap thread alone.
pub init-IsRing : (b : ℕ) (s : Sched) → IsRing (sched_init b s) []
unfolding sched_init has
init-IsRing b s = record { linked = ground arith; distinct = (refl, tt) }

-- A list that has `x` and not `a` tells them apart.
has_apart : (x a : ℕ) (xs : List ℕ) → has x xs ≡ true → has a xs ≡ false → x ≢ a
has_apart x a xs h out e = ground (arith, ap (λ (y : ℕ). has y xs) e)

-- `sched_add_thread` of a thread that is not in the ring puts it right behind the current one, keeps
-- the order of all others, gives it the next id and does not switch.
pub add_thread-IsRing :
    (s : Sched) (t : ℕ) (rest : List ℕ)
    → IsRing s rest
    → has t (s.current ∷ rest) ≡ false
    → IsRing (sched_add_thread s t) (t ∷ rest)
      × ((sched_add_thread s t).current ≡ s.current)
      × (((sched_add_thread s t).threads t).id ≡ s.next_thread_id)
unfolding sched_add_thread
add_thread-IsRing s t rest ring out = (
  record {
    linked = (
      ground arith,
      Links-ext s.threads after s.current s.current t rest same (ground (arith, apart)) ring.linked,
    );
    distinct = (unfold has in ground (arith, apart, ring.distinct.0), (away, ring.distinct.1));
  },
  refl,
  ground (arith, apart),
)
  where
    after : Threads
    after = (sched_add_thread s t).threads

    away : has t rest ≡ false
    away = unfold has in ground (arith, out)

    apart : t ≢ s.current
    apart = unfold has in ground (arith, out)

    same : (x : ℕ) → has x rest ≡ true → (after x).next ≡ (s.threads x).next
    same x h =
        ground (arith, has_apart x t rest h away, has_apart x s.current rest h ring.distinct.0)

-- `switch_to_next` makes the next thread of the ring current and moves the old one to the end.
pub switch-IsRing :
    (s : Sched) (t : ℕ) (rest : List ℕ)
    → IsRing s (t ∷ rest)
    → IsRing (switch_to_next s).0 (rest ++ (s.current ∷ [])) × ((switch_to_next s).0.current ≡ t)
unfolding switch_to_next
switch-IsRing s t rest ring = (
  record {
    linked = rw ring.linked.0 (Links-snoc s.threads t t s.current rest ring.linked.1 ring.linked.0);
    distinct =
        rw ring.linked.0 (turned_away, Distinct-snoc rest s.current ring.distinct.1.1 kept_away);
  },
  ring.linked.0,
)
  where
    kept_away : has s.current rest ≡ false
    kept_away = unfold has in ground (arith, ring.distinct.0)

    turned_away : has t (rest ++ (s.current ∷ [])) ≡ false
    turned_away =
        unfold has in
        ground (arith, has-append t rest (s.current ∷ []), ring.distinct.0, ring.distinct.1.0)
