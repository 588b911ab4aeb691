-- ===== src/Vmm/Tree/Change.antt =====
-- What changes of the page tables' words do to the walks: none, a new table linked, and a page's entry
-- written.
use quin_kernel_template.Base.{
  ℕ, suc, ◌+◌, ◌*◌, ◌^◌, ◌<◌, ◌≡◌, ◌≢◌, refl, true, false, arith, ◌==◌, ◌&&◌, if◌then◌else◌,
  Bool-cases, inl, inr, List, [], ◌∷◌, length,
}
use quin_kernel_template.Vmm.Word.{frame_of, is_present}
use quin_kernel_template.Vmm.Tree.{
  Words, unmapped, translate_from, is_open-link, is_open, InTables, Owners, IsTree, Extends,
  path_number, Leads,
}

empty_table :
    (w : Words) (g : ℕ) (is : List ℕ)
    → ((j : ℕ) → j < 512 → w g j ≡ 0)
    → InTables is
    → translate_from w g is ≡ unmapped
unfolding translate_from
empty_table w g [] empty below = refl
empty_table w g (i ∷ []) empty below = rw (empty i below.0)
empty_table w g (i ∷ j ∷ is) empty below = rw (empty i below.0)

-- Tables whose words are unchanged.
module _ {w w' : Words} {own : Owners} (tree : IsTree w own)
    (same : (h j : ℕ) → own.level h ≢ 0 → j < 512 → w' h j ≡ w h j) where
  pub IsTree-same : IsTree w' own
  IsTree-same = record { child = λ h j m e lt p q. ground (arith, same h j, tree.child h j m) }

  walks_same :
      (h : ℕ) (is : List ℕ)
      → own.level h ≡ length is
      → InTables is
      → translate_from w' h is ≡ translate_from w h is
  unfolding translate_from
  walks_same h [] e below = refl
  walks_same h (j ∷ []) e below = rw (same h j (ground arith) below.0)
  walks_same h (j ∷ k ∷ is) e below =
      rw (same h j (ground arith) below.0)
        (ground (arith, tree.child h j (length is), walks_same (frame_of (w h j)) (k ∷ is)))

  pub Extends-same : Extends w own w' own
  Extends-same = record {
    levels = λ h o. refl;
    prefixes = λ h o. refl;
    links = λ h j o lt p. same h j o lt;
    walks = walks_same;
  }

-- Frame `g` as the table behind index `i` of table `f`, which is of level n + 2.
unfoldable pub own_link : Owners → (f i g n : ℕ) → Owners
own_link own f i g n = record {
  level = λ h. if h == g then suc n else own.level h;
  prefix = λ h. if h == g then own.prefix f * 512 + i else own.prefix h;
}

pub own_link-level : (own : Owners) (f i g n : ℕ) → (own_link own f i g n).level g ≡ suc n
unfolding own_link
own_link-level own f i g n = ground arith

-- A new empty table `g` is linked at an absent entry of table `f`.
module _ {w w' : Words} {own : Owners} (f i g n : ℕ) (tree : IsTree w own)
    (upper : own.level f ≡ suc (suc n)) (fits : i < 512) (absent : is_present (w f i) ≡ false)
    (new : own.level g ≡ 0) (addressable : g < 2 ^ 40) (linked : w' f i ≡ g * 4096 + 7)
    (empty : (j : ℕ) → j < 512 → w' g j ≡ 0)
    (others : (h j : ℕ)
      → own.level h ≢ 0
      → j < 512
      → ((h == f) && (j == i)) ≡ false
      → w' h j ≡ w h j) where
  walks_linked :
      (h : ℕ) (is : List ℕ)
      → own.level h ≡ length is
      → InTables is
      → translate_from w' h is ≡ translate_from w h is
  unfolding translate_from
  walks_linked h [] e below = refl
  walks_linked h (j ∷ []) e below = rw (others h j (ground arith) below.0 (ground arith))
  walks_linked h (j ∷ k ∷ is) e below = elim (Bool-cases ((h == f) && (j == i))) [
    | inl here ↦
        let to_g : frame_of (g * 4096 + 7) ≡ g = omega arith in
        let nothing : translate_from w' g (k ∷ is) ≡ unmapped =
          empty_table w' g (k ∷ is) empty below.1 in
        let eh : h ≡ f = ground arith in
        let ej : j ≡ i = ground arith in
        rw (eh, ej, absent, linked) (rw to_g (ground (arith, nothing)))
    | inr away ↦
        rw (others h j (ground arith) below.0 away)
          (ground (arith, tree.child h j (length is), walks_linked (frame_of (w h j)) (k ∷ is)))
  ]

  rights : is_open (w' f i) ≡ true
  rights = rw linked (is_open-link g addressable)

  pub IsTree-linked : IsTree w' (own_link own f i g n)
  unfolding own_link
  IsTree-linked = record {
    child = λ h j m e lt p q. ground (arith, others h j, tree.child h j m, empty j, rights);
  }

  pub Extends-linked : Extends w own w' (own_link own f i g n)
  unfolding own_link
  Extends-linked = record {
    levels = λ h o. ground arith;
    prefixes = λ h o. ground arith;
    links = λ h j o lt p. others h j o lt (ground arith);
    walks = walks_linked;
  }

-- The word at index `i` of a lowest table `f` is written.
module _ {w w' : Words} {own : Owners} (f i : ℕ) (tree : IsTree w own) (lowest : own.level f ≡ 1)
    (others : (h j : ℕ)
      → own.level h ≢ 0
      → j < 512
      → ((h == f) && (j == i)) ≡ false
      → w' h j ≡ w h j) where
  pub IsTree-written : IsTree w' own
  IsTree-written = record { child = λ h j m e lt p q. ground (arith, others h j, tree.child h j m) }

  pub walks_written :
      (h : ℕ) (is : List ℕ)
      → own.level h ≡ length is
      → InTables is
      → path_number (own.prefix h) is ≢ own.prefix f * 512 + i
      → translate_from w' h is ≡ translate_from w h is
  unfolding translate_from path_number
  walks_written h [] e below apart = refl
  walks_written h (j ∷ []) e below apart = rw (others h j (ground arith) below.0 (ground arith))
  walks_written h (j ∷ k ∷ is) e below apart =
      rw (others h j (ground arith) below.0 (ground arith))
        (ground (arith, tree.child h j (length is), walks_written (frame_of (w h j)) (k ∷ is)))

  pub Leads-written :
      (h : ℕ) (is : List ℕ) (f' : ℕ)
      → own.level h ≡ suc (length is)
      → InTables is
      → Leads w h is f'
      → Leads w' h is f'
  Leads-written h [] f' e below l = l
  Leads-written h (j ∷ is) f' e below l = rw (others h j (ground arith) below.0 (ground arith)) (
    l.0,
    l.1,
    l.2,
    Leads-written (frame_of (w h j)) is f' (ground (arith, tree.child h j (length is))) below.1 l.3,
  )
