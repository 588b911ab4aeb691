-- ===== src/Heap/Release.antt =====
-- kfree on a heap that is known as a list of blocks.
use quin_kernel_template.Base.{
  ℕ, ◌^◌, ◌<◌, ◌≡◌, ◌≢◌, ◌⊎◌, inl, inr, refl, sym, ap, subst, ◌∙◌, arith, true, false, not, ◌&&◌,
  List, [], ◌∷◌, ◌==◌, if◌then◌else◌, Bool-cases, none,
}
use quin_kernel_template.Heap.{BlockHeader, Headers, set_free, merge_next, merge_prev}
use quin_kernel_template.Heap.Blocks.{
  Block, after, link, header, Chain, join_next, absorb, ideal_free, block_at,
}
use quin_kernel_template.Heap.Alloc.{Chain-ext}
use quin_kernel_template.Heap.Merge.{Became, join-Chain, merge_prev-keep, merge_prev-Chain}

abbrev pub released : Block → Block
released b = record b { free = true }

-- What `kfree` does to the headers, before it merges with the block before.
abbrev pub freed : Headers → (node : ℕ) → Headers
freed hs node = merge_next (set_free hs node true) node

Became-trans :
    (hs g g' : Headers) (prev a : ℕ) (bs bs' : List Block) (end : ℕ)
    → Became hs g prev a bs end
    → Became g g' prev a bs' end
    → Became hs g' prev a bs' end
Became-trans hs g g' prev a bs bs' end first second =
    (second.0, λ x lt. second.1 x lt ∙ first.1 x lt)

-- The headers of a chain, with one block more before it.
Became-cons :
    (hs g : Headers) (prev a : ℕ) (b : Block) (bs bs' : List Block) (end : ℕ)
    → Chain hs prev a (b ∷ bs) end
    → link bs (after a b) ≡ link bs' (after a b)
    → Became hs g a (after a b) bs' end
    → Became hs g prev a (b ∷ bs') end
Became-cons hs g prev a b bs bs' end chain same rest = (
  (rest.1 a (omega arith) ∙ chain.0 ∙ ap (header b prev) same, rest.0),
  λ x lt. rest.1 x (omega arith),
)

link-join : (b : Block) (bs : List Block) (x : ℕ) → link (join_next b bs) x ≡ x
link-join b [] x = refl
link-join b (c ∷ bs) x = ground arith

link-absorb : (b : Block) (bs : List Block) (x : ℕ) → link (absorb b bs) x ≡ x
link-absorb b [] x = refl
link-absorb b (c ∷ bs) x = refl

-- The three cases of `ideal_free`.
pub free_here :
    (target a : ℕ) (b : Block) (bs : List Block)
    → (a == target) ≡ true
    → ideal_free target a (b ∷ bs) ≡ join_next (released b) bs
unfolding ideal_free
free_here target a b bs e = rw e refl

pub free_before :
    (target a : ℕ) (b : Block) (bs : List Block)
    → (a == target) ≡ false
    → (after a b == target && b.free) ≡ true
    → ideal_free target a (b ∷ bs) ≡ absorb b (ideal_free target (after a b) bs)
unfolding ideal_free
free_before target a b bs e1 e2 = rw (e1, e2) refl

pub free_past :
    (target a : ℕ) (b : Block) (bs : List Block)
    → (a == target) ≡ false
    → (after a b == target && b.free) ≡ false
    → ideal_free target a (b ∷ bs) ≡ b ∷ ideal_free target (after a b) bs
unfolding ideal_free
free_past target a b bs e1 e2 = rw (e1, e2) refl

link-free : (target a x : ℕ) (bs : List Block) → link (ideal_free target a bs) x ≡ link bs x
unfolding ideal_free
link-free target a x [] = refl
link-free target a x (b ∷ bs) = elim (Bool-cases (a == target)) [
  | inl e ↦
      ap (λ (l : List Block). link l x) (free_here target a b bs e) ∙ link-join (released b) bs x
  | inr e ↦ elim (Bool-cases (after a b == target && b.free)) [
    | inl f ↦
        ap (λ (l : List Block). link l x) (free_before target a b bs e f)
        ∙ link-absorb b (ideal_free target (after a b) bs) x
    | inr f ↦ ap (λ (l : List Block). link l x) (free_past target a b bs e f)
  ]
]

Chain-prev :
    (hs : Headers) (prev a : ℕ) (bs : List Block) (end : ℕ)
    → Chain hs prev a bs end
    → link bs a ≢ 0
    → (hs a).prev ≡ prev
Chain-prev hs prev a [] end chain some_block = absurd (some_block refl)
Chain-prev hs prev a (b ∷ bs) end chain some_block = ap (λ (h : BlockHeader). h.prev) chain.0

freed-Chain :
    (hs : Headers) (prev a : ℕ) (b : Block) (bs : List Block) (end : ℕ)
    → Chain hs prev a (b ∷ bs) end
    → 0 < a
    → end < 2 ^ 64
    → Became hs (freed hs a) prev a (join_next (released b) bs) end
freed-Chain hs prev a b bs end chain pos small =
    Became-trans hs (set_free hs a true) (freed hs a) prev a (released b ∷ bs)
      (join_next (released b) bs) end marked
      (join-Chain (set_free hs a true) prev a (released b) bs end marked.0 pos small)
  where
    marked : Became hs (set_free hs a true) prev a (released b ∷ bs) end
    marked = (
      (
        ground (arith, chain.0),
        Chain-ext hs (set_free hs a true) a (after a b) bs end (λ x le. ground arith) chain.1,
      ),
      λ x lt. ground arith,
    )

-- A block that is released takes in a free block behind it; the one before, which is there and free,
-- takes in the result.
absorb-free :
    (hs : Headers) (prev a : ℕ) (b : Block) (bs : List Block) (end : ℕ)
    → Chain hs prev a (b ∷ bs) end
    → link bs (after a b) ≢ 0
    → 0 < a
    → end < 2 ^ 64
    → b.free ≡ true
    → Became hs (merge_prev hs (after a b)) prev a (absorb b bs) end
absorb-free hs prev a b [] end chain some_block pos small free = absurd (some_block refl)
absorb-free hs prev a b (c ∷ bs) end chain some_block pos small free =
    merge_prev-Chain hs prev a b c bs end chain pos small free

-- The block before the first one of a chain: there is none, or it is in use.
abbrev pub Settled : Headers → (prev a : ℕ) → Type 0
Settled hs prev a = (prev ≡ 0) ⊎ ((prev < a) × (hs prev).free ≡ false)

-- The block at the start of a chain is released.
free-first :
    (hs : Headers) (prev a : ℕ) (b : Block) (bs : List Block) (end : ℕ)
    → Chain hs prev a (b ∷ bs) end
    → 0 < a
    → end < 2 ^ 64
    → Settled hs prev a
    → Became hs (merge_prev (freed hs a) a) prev a (join_next (released b) bs) end
free-first hs prev a b bs end chain pos small settled =
    subst (λ (g : Headers). Became hs g prev a (join_next (released b) bs) end)
      (sym (
        merge_prev-keep (freed hs a) a (
          subst (λ (p : ℕ). (not (p == 0) && (freed hs a p).free) ≡ false) (sym before)
            (no_merge settled))))
      joined
  where
    joined : Became hs (freed hs a) prev a (join_next (released b) bs) end
    joined = freed-Chain hs prev a b bs end chain pos small

    before : (freed hs a a).prev ≡ prev
    before =
        Chain-prev (freed hs a) prev a (join_next (released b) bs) end joined.0
          (omega (arith, link-join (released b) bs a))

    no_merge : Settled hs prev a → (not (prev == 0) && (freed hs a prev).free) ≡ false
    no_merge (inl e) = ground arith
    no_merge (inr (lt, used)) =
        rw (ap (λ (h : BlockHeader). h.free) (joined.1 prev lt) ∙ used) (ground arith)

-- The second block of a chain is released.
free-second :
    (hs : Headers) (prev a : ℕ) (b c : Block) (bs : List Block) (end : ℕ)
    → Chain hs prev a (b ∷ c ∷ bs) end
    → 0 < a
    → end < 2 ^ 64
    → let t = after a b in
      Became hs
        (merge_prev (freed hs t) t)
        prev
        a
        (if b.free then absorb b (join_next (released c) bs) else b ∷ join_next (released c) bs)
        end
free-second hs prev a b c bs end chain pos small = elim (Bool-cases b.free) [
  | inl e ↦
      subst
        (λ (l : List Block). Became hs (merge_prev (freed hs (after a b)) (after a b)) prev a l end)
        (if-true e)
        (Became-trans hs (freed hs (after a b)) (merge_prev (freed hs (after a b)) (after a b)) prev
          a (b ∷ rest) (absorb b rest) end joined
          (absorb-free (freed hs (after a b)) prev a b rest end joined.0
            (omega (arith, link-join (released c) bs (after a b))) pos small e))
  | inr e ↦
      subst
        (λ (l : List Block). Became hs (merge_prev (freed hs (after a b)) (after a b)) prev a l end)
        (if-false e)
        (subst (λ (g : Headers). Became hs g prev a (b ∷ rest) end)
          (sym (
            merge_prev-keep (freed hs (after a b)) (after a b)
              (rw (before, ap (λ (h : BlockHeader). h.free) joined.0.0, e) (ground arith))))
          joined)
]
  where
    rest : List Block
    rest = join_next (released c) bs

    if-true : b.free ≡ true → absorb b rest ≡ (if b.free then absorb b rest else b ∷ rest)
    if-true e = rw e refl

    if-false : b.free ≡ false → b ∷ rest ≡ (if b.free then absorb b rest else b ∷ rest)
    if-false e = rw e refl

    tail : Became hs (freed hs (after a b)) a (after a b) rest end
    tail = freed-Chain hs a (after a b) c bs end chain.1 (omega arith) small

    joined : Became hs (freed hs (after a b)) prev a (b ∷ rest) end
    joined =
        Became-cons hs (freed hs (after a b)) prev a b (c ∷ bs) rest end chain
          (sym (link-join (released c) bs (after a b))) tail

    before : (freed hs (after a b) (after a b)).prev ≡ a
    before =
        Chain-prev (freed hs (after a b)) a (after a b) rest end tail.0
          (omega (arith, link-join (released c) bs (after a b)))

-- What `kfree` does to the headers is what it does to the list of the blocks.
pub free-Chain :
    (target : ℕ) (hs : Headers) (prev a : ℕ) (bs : List Block) (end : ℕ)
    → Chain hs prev a bs end
    → block_at target a bs ≢ none
    → 0 < a
    → end < 2 ^ 64
    → (a ≡ target → Settled hs prev a)
    → Became hs (merge_prev (freed hs target) target) prev a (ideal_free target a bs) end
unfolding block_at ideal_free
free-Chain target hs prev a [] end chain found pos small settled = absurd (found refl)
free-Chain target hs prev a (b ∷ bs) end chain found pos small settled =
    elim (Bool-cases (a == target)) [
      | inl e ↦ subst Result (sym (free_here target a b bs e)) (
          subst
            (λ (t : ℕ).
              Became hs (merge_prev (freed hs t) t) prev a (join_next (released b) bs) end)
            {x = a} (ground arith)
            (free-first hs prev a b bs end chain pos small (settled (ground arith))))
      | inr e ↦
          past e bs chain (λ none_found. found (rw e none_found))
            (λ there f.
              free-Chain target hs a (after a b) bs end chain.1 there (omega arith) small f)
    ]
  where
    Result : List Block → Type 0
    Result l = Became hs (merge_prev (freed hs target) target) prev a l end

    past :
        (a == target) ≡ false
        → (bs : List Block) → Chain hs prev a (b ∷ bs) end
        → block_at target (after a b) bs ≢ none
        → (block_at target (after a b) bs ≢ none
            → (after a b ≡ target → Settled hs a (after a b))
            → Became hs
                (merge_prev (freed hs target) target)
                a
                (after a b)
                (ideal_free target (after a b) bs)
                end)
        → Became hs (merge_prev (freed hs target) target) prev a (ideal_free target a (b ∷ bs)) end
    past e [] chain there ih = absurd (there refl)
    past e (c ∷ bs) chain there ih = elim (Bool-cases (after a b == target)) [
      | inl f ↦
          subst
            (λ (t : ℕ).
              Became hs (merge_prev (freed hs t) t) prev a (ideal_free target a (b ∷ c ∷ bs)) end)
            {x = after a b} (ground arith)
            (subst
              (λ (l : List Block).
                Became hs (merge_prev (freed hs (after a b)) (after a b)) prev a l end)
              (rw (e, f) refl) (free-second hs prev a b c bs end chain pos small))
      | inr f ↦ subst Result (sym (free_past target a b (c ∷ bs) e (rw f refl))) (
          Became-cons hs (merge_prev (freed hs target) target) prev a b (c ∷ bs)
            (ideal_free target (after a b) (c ∷ bs)) end chain
            (sym (link-free target (after a b) (after a b) (c ∷ bs)))
            (ih there (λ g. absurd (ground arith))))
    ]
