-- ===== src/Vmm/Tree.antt =====
-- The tree of page tables that vmm.c's CR3 points at, as the words of its frames: the CPU's walk of
-- it, the invariant that no two paths lead to one table, and what linking a new table and writing a
-- page's entry do to the walks.
pub mod Change
use quin_kernel_template.Base.{
  ℕ, zero, suc, ◌+◌, ◌*◌, ◌/◌, ◌%◌, ◌^◌, ◌<◌, ◌≡◌, ◌≢◌, refl, sym, ◌∙◌, ap, Bool, true, false,
  arith, ◌==◌, ◌&&◌, ◌||◌, if◌then◌else◌, Bool-cases, inl, inr, ◌⊎◌, not, List, [], ◌∷◌, length,
  ◌++◌,
}
use quin_kernel_template.Vmm.Word.{frame_of, is_present, is_large, Page, page_of, bit}

-- The word at an index of a frame.
abbrev pub Words : Type 0
Words = (frame index : ℕ) → ℕ

pub data Translation : Type 0 where
  unmapped : Translation
  page : Page → Translation
  large : (entry : ℕ) → Translation

abbrev pub is_large_page : Translation → Bool
is_large_page unmapped = false
is_large_page (page p) = false
is_large_page (large e) = true

-- What an entry above the lowest level lets through: the CPU grants a write, a user's access or a
-- fetch of code only where the entries of all levels grant it.
unfoldable pub restrict : (entry : ℕ) → Translation → Translation
restrict e (page p) = page (record p {
  writable = bit 1 e && p.writable;
  user = bit 2 e && p.user;
  no_execute = bit 63 e || p.no_execute;
})
restrict e unmapped = unmapped
restrict e (large x) = large x

-- An entry that takes away no right.
unfoldable pub is_open : (entry : ℕ) → Bool
is_open e = bit 1 e && (bit 2 e && not (bit 63 e))

-- The entry of a new table.
pub is_open-link : (g : ℕ) → g < 2 ^ 40 → is_open (g * 4096 + 7) ≡ true
unfolding is_open
is_open-link g small = ground arith

pub restrict_open : (e : ℕ) (t : Translation) → is_open e ≡ true → restrict e t ≡ t
unfolding restrict is_open
restrict_open e unmapped h = refl
restrict_open e (large x) h = refl
restrict_open e (page p) h =
    let w : bit 1 e ≡ true = ground arith in
    let u : bit 2 e ≡ true = ground arith in
    let x : bit 63 e ≡ false = ground arith in rw (w, u, x) refl

-- The walk from a table on along the given indices, as the CPU makes it: the page's entry with the
-- rights that the entries of all levels grant. What a large page grants is not looked at.
unfoldable pub translate_from : Words → (frame : ℕ) → List ℕ → Translation
unfolding page_of restrict
translate_from w f [] = unmapped
translate_from w f (i ∷ []) = if is_present (w f i) then page (page_of (w f i)) else unmapped
translate_from w f (i ∷ j ∷ is) =
    if not (is_present (w f i))
    then unmapped
    else if is_large (w f i)
    then large (w f i)
    else restrict (w f i) (translate_from w (frame_of (w f i)) (j ∷ is))

-- A walk that ends at no large page meets none at its first entry.
pub small_entry :
    (w : Words) (f i j : ℕ) (is : List ℕ)
    → is_large_page (translate_from w f (i ∷ j ∷ is)) ≡ false
    → is_present (w f i) ≡ true
    → is_large (w f i) ≡ false
unfolding translate_from
small_entry w f i j is small there = ground arith

abbrev pub InTables : List ℕ → Type 0
InTables [] = Unit
InTables (i ∷ is) = (i < 512) × InTables is

-- Which frames are tables: at which level, 4 for the root and 1 for the lowest, 0 for none, and
-- reached by which indices, read as a number in base 512.
pub record Owners : Type 0 where
  pub level : ℕ → ℕ
  pub prefix : ℕ → ℕ

-- Each table is where its parent's entry says, and the entry takes away no right, as
-- `ensure_next_level` relies on. An entry of a large page leads to no table.
pub record IsTree (w : Words) (own : Owners) : Type 0 where
  pub child :
      (f i n : ℕ)
      → own.level f ≡ suc (suc n)
      → i < 512
      → is_present (w f i) ≡ true
      → is_large (w f i) ≡ false
      → (own.level (frame_of (w f i)) ≡ suc n)
        × (own.prefix (frame_of (w f i)) ≡ own.prefix f * 512 + i)
        × (is_open (w f i) ≡ true)

-- The same tables and perhaps more, with the same translations.
pub record Extends (w : Words) (own : Owners) (w' : Words) (own' : Owners) : Type 0 where
  pub levels : (h : ℕ) → own.level h ≢ 0 → own'.level h ≡ own.level h
  pub prefixes : (h : ℕ) → own.level h ≢ 0 → own'.prefix h ≡ own.prefix h
  pub links : (h j : ℕ) → own.level h ≢ 0 → j < 512 → is_present (w h j) ≡ true → w' h j ≡ w h j
  pub walks :
      (h : ℕ) (is : List ℕ)
      → own.level h ≡ length is
      → InTables is
      → translate_from w' h is ≡ translate_from w h is

pub Extends-refl : (w : Words) (own : Owners) → Extends w own w own
Extends-refl w own = record {
  levels = λ h _. refl;
  prefixes = λ h _. refl;
  links = λ h j _ _ _. refl;
  walks = λ h is _ _. refl;
}

module _ {w w' w'' : Words} {own own' own'' : Owners} (a : Extends w own w' own')
    (b : Extends w' own' w'' own'') where
  walks_trans :
      (h : ℕ) (is : List ℕ)
      → own.level h ≡ length is
      → InTables is
      → translate_from w'' h is ≡ translate_from w h is
  unfolding translate_from
  walks_trans h [] e below = refl
  walks_trans h (i ∷ is) e below =
      b.walks h (i ∷ is) (a.levels h (ground arith) ∙ e) below ∙ a.walks h (i ∷ is) e below

  pub Extends-trans : Extends w own w'' own''
  Extends-trans = record {
    levels = λ h o. ground (arith, a.levels h o, b.levels h);
    prefixes = λ h o. ground (arith, a.levels h o, a.prefixes h o, b.prefixes h);
    links = λ h j o lt p. ground (arith, a.levels h o, a.links h j o lt p, b.links h j);
    walks = walks_trans;
  }

-- The indices behind a table as a number, after the indices that lead to the table.
unfoldable pub path_number : (prefix : ℕ) → List ℕ → ℕ
path_number p [] = p
path_number p (i ∷ is) = path_number (p * 512 + i) is

-- The walk along the indices finds tables all the way, behind entries that take away no right, and
-- table `f` at the end.
abbrev pub Leads : Words → (h : ℕ) → List ℕ → (f : ℕ) → Type 0
Leads w h [] f = h ≡ f
Leads w h (i ∷ is) f =
    (is_present (w h i) ≡ true)
    × (is_large (w h i) ≡ false)
    × (is_open (w h i) ≡ true)
    × Leads w (frame_of (w h i)) is f

pub walk_to :
    (w : Words) (h : ℕ) (is : List ℕ) (f i : ℕ) (js : List ℕ)
    → Leads w h is f
    → translate_from w h (is ++ i ∷ js) ≡ translate_from w f (i ∷ js)
unfolding translate_from
walk_to w h [] f i js l = rw l
walk_to w h (j ∷ []) f i js l = rw (l.0, l.1) (restrict_open _ _ l.2 ∙ rw l.3 refl)
walk_to w h (j ∷ k ∷ is) f i js l =
    rw (l.0, l.1) (restrict_open _ _ l.2 ∙ walk_to w (frame_of (w h j)) (k ∷ is) f i js l.3)

pub Leads-append :
    (w : Words) (h : ℕ) (is : List ℕ) (f i g : ℕ)
    → Leads w h is f
    → Leads w f (i ∷ []) g
    → Leads w h (is ++ i ∷ []) g
Leads-append w h [] f i g l k = rw l k
Leads-append w h (j ∷ is) f i g l k =
    (l.0, l.1, l.2, Leads-append w (frame_of (w h j)) is f i g l.3 k)

pub Leads-owner :
    {w : Words} {own : Owners} (n h : ℕ) (is : List ℕ) (f : ℕ)
    → IsTree w own
    → own.level h ≡ suc n + length is
    → InTables is
    → Leads w h is f
    → (own.level f ≡ suc n) × (own.prefix f ≡ path_number (own.prefix h) is)
unfolding path_number
Leads-owner n h [] f tree e below l = ground arith
Leads-owner {w} {own} n h (i ∷ is) f tree e below l =
    let up : own.level h ≡ suc (suc (n + length is)) = omega arith in
    let (lower, named, rights) = tree.child h i (n + length is) up below.0 l.0 l.1 in
    let ih : (own.level f ≡ suc n)
        × (own.prefix f ≡ path_number (own.prefix (frame_of (w h i))) is) =
      Leads-owner n (frame_of (w h i)) is f tree (omega arith) below.1 l.3 in
    rw named at ih

pub Leads-Extends :
    {w w' : Words} {own own' : Owners} (n h : ℕ) (is : List ℕ) (f : ℕ)
    → IsTree w own
    → Extends w own w' own'
    → own.level h ≡ suc n + length is
    → InTables is
    → Leads w h is f
    → Leads w' h is f
Leads-Extends n h [] f tree ext e below l = l
Leads-Extends {w} {w'} {own} n h (i ∷ is) f tree ext e below l =
    let up : own.level h ≡ suc (suc (n + length is)) = omega arith in
    let same : w' h i ≡ w h i = ext.links h i (omega arith) below.0 l.0 in
    rw same (
      l.0,
      l.1,
      l.2,
      Leads-Extends n (frame_of (w h i)) is f tree ext
          (omega (arith, tree.child h i (n + length is) up below.0 l.0 l.1)) below.1 l.3,
    )
