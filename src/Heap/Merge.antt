-- ===== src/Heap/Merge.antt =====
-- Merging with a neighbour, on a heap that is known as a list of blocks.
use quin_kernel_template.Base.{
  ℕ, ◌+◌, ◌^◌, ◌<◌, ◌≤◌, ◌≡◌, ◌≢◌, ◌⊎◌, inl, inr, refl, sym, ap, u64, subst, ◌∙◌, arith, true,
  false, not, ◌&&◌, List, [], ◌∷◌, ◌==◌, if◌then◌else◌, Bool-cases,
}
use quin_kernel_template.Heap.{BlockHeader, Headers, header_size, merge_next, merge_prev}
use quin_kernel_template.Heap.Blocks.{Block, after, link, header, Chain, join_next, absorb}
use quin_kernel_template.Heap.Chain.{merge_at}
use quin_kernel_template.Heap.Alloc.{Chain-relink, Chain-le, link_place}

merge_next-keep :
    (hs : Headers) (node : ℕ)
    → (not ((hs node).next == 0) && (hs (hs node).next).free) ≡ false
    → merge_next hs node ≡ hs
unfolding merge_next
merge_next-keep hs node keep = rw keep refl

pub merge_prev-keep :
    (hs : Headers) (node : ℕ)
    → (not ((hs node).prev == 0) && (hs (hs node).prev).free) ≡ false
    → merge_prev hs node ≡ hs
unfolding merge_prev
merge_prev-keep hs node keep = rw keep refl

-- The header at `x` after the block at `node` has grown to `size` bytes, up to the block at `last`.
abbrev grown : Headers → (node size last x : ℕ) → BlockHeader
grown hs node size last x =
    if not (last == 0) && x == last
    then record (if x == node then record (hs node) { size = size; next = last } else hs x) {
      prev = node;
    }
    else if x == node
    then record (hs node) { size = size; next = last }
    else hs x

grown-node :
    (hs : Headers) (node size last : ℕ)
    → (last ≡ 0) ⊎ (node < last)
    → grown hs node size last node ≡ record (hs node) { size = size; next = last }
grown-node hs node size last e = ground arith

grown-last :
    (hs : Headers) (node size last : ℕ)
    → last ≢ 0
    → last ≢ node
    → grown hs node size last last ≡ record (hs last) { prev = node }
grown-last hs node size last e1 e2 = ground arith

grown-other :
    (hs : Headers) (node size last x : ℕ)
    → x ≢ node
    → (x ≡ last → last ≡ 0)
    → grown hs node size last x ≡ hs x
grown-other hs node size last x e1 e2 = ground arith

-- `merge_prev` on headers that are known at the blocks that it looks at.
merge_prev_at :
    (hs : Headers) (node x : ℕ)
    → let before = (hs node).prev in
      before ≢ 0
      → before ≢ node
      → (hs before).free ≡ true
      → merge_prev hs node x
        ≡ grown hs before (u64 ((hs before).size + (header_size + (hs node).size))) (hs node).next x
unfolding merge_prev
merge_prev_at hs node x e2 e3 e4 = ground arith

-- The block behind the first one is taken in by it.
module _ (hs hs' : Headers) (prev a : ℕ) (b c : Block) (bs : List Block) (end : ℕ)
    (chain : Chain hs prev a (b ∷ c ∷ bs) end) (pos : 0 < a) (small : end < 2 ^ 64) (size : ℕ)
    (sum : size ≡ u64 (b.size + (header_size + c.size)))
    (all : (x : ℕ) → hs' x ≡ grown hs a size (link bs (after (after a b) c)) x) where
  abbrev last : ℕ
  last = after (after a b) c

  last_end : last ≤ end
  last_end = Chain-le hs (after a b) last bs end chain.1.1

  spot : (link bs last ≡ 0) ⊎ (link bs last ≡ last)
  spot = link_place bs last

  absorb-other : (x : ℕ) → x ≢ a → (x ≡ last → ⊥) → hs' x ≡ hs x
  absorb-other x e1 e2 = all x ∙ grown-other hs a size (link bs last) x e1 (omega (arith, spot))

  absorb-last : link bs last ≢ 0 → hs' last ≡ record (hs last) { prev = a }
  absorb-last some_last =
      subst (λ (x : ℕ). hs' x ≡ record (hs x) { prev = a }) {x = link bs last} {y = last}
        (omega (arith, spot))
        (all (link bs last) ∙ grown-last hs a size (link bs last) some_last (omega (arith, spot)))

  absorb-Chain : Chain hs' prev a (absorb b (c ∷ bs)) end × ((x : ℕ) → x < a → hs' x ≡ hs x)
  absorb-Chain = (
    (
      all a
          ∙ grown-node hs a size (link bs last) (omega (arith, spot))
          ∙ rw chain.0 (ground (arith, sum, last_end)),
      subst (λ (x : ℕ). Chain hs' a x bs end) {x = last} (omega arith)
          (Chain-relink hs hs' (after a b) a last bs end
            (λ x lt. absorb-other x (omega arith) (omega arith)) absorb-last (omega arith)
            chain.1.1),
    ),
    λ x lt. absorb-other x (omega arith) (omega arith),
  )

pub join_next-taken :
    (b c : Block) (bs : List Block) → c.free ≡ false → join_next b (c ∷ bs) ≡ b ∷ c ∷ bs
join_next-taken b c bs e = ground arith

pub join_next-free :
    (b c : Block) (bs : List Block) → c.free ≡ true → join_next b (c ∷ bs) ≡ absorb b (c ∷ bs)
join_next-free b c bs e = ground arith

-- Headers that a chain begins with, the headers below it kept.
abbrev pub Became : Headers → Headers → (prev a : ℕ) → List Block → (end : ℕ) → Type 0
Became hs hs' prev a bs end = Chain hs' prev a bs end × ((x : ℕ) → x < a → hs' x ≡ hs x)

Became-same :
    (hs hs' : Headers) (prev a : ℕ) (bs : List Block) (end : ℕ)
    → hs' ≡ hs
    → Chain hs prev a bs end
    → Became hs hs' prev a bs end
Became-same hs hs' prev a bs end e chain =
    subst (λ (g : Headers). Became hs g prev a bs end) (sym e) (chain, (λ x lt. refl))

-- Merging with the block behind.
pub join-Chain :
    (hs : Headers) (prev a : ℕ) (b : Block) (bs : List Block) (end : ℕ)
    → Chain hs prev a (b ∷ bs) end
    → 0 < a
    → end < 2 ^ 64
    → Became hs (merge_next hs a) prev a (join_next b bs) end
join-Chain hs prev a b [] end chain pos small =
    Became-same hs (merge_next hs a) prev a (b ∷ []) end (merge_next-keep hs a (rw chain.0 refl))
      chain
join-Chain hs prev a b (c ∷ bs) end chain pos small = elim (Bool-cases c.free) [
  | inl e ↦
      subst (λ (l : List Block). Became hs (merge_next hs a) prev a l end)
        (sym (join_next-free b c bs e))
        (absorb-Chain hs (merge_next hs a) prev a b c bs end chain pos small
          (u64 ((hs a).size + (header_size + (hs (hs a).next).size))) (rw (behind, chain.0) refl)
          (λ x.
            merge_at hs a x (omega (arith, place)) (omega (arith, place))
              (ap (λ (h : BlockHeader). h.free) behind ∙ e)
            ∙ ap
                (λ (l : ℕ).
                  grown hs a (u64 ((hs a).size + (header_size + (hs (hs a).next).size))) l x)
                (ap (λ (h : BlockHeader). h.next) behind)))
  | inr e ↦
      subst (λ (l : List Block). Became hs (merge_next hs a) prev a l end)
        (sym (join_next-taken b c bs e))
        (Became-same hs (merge_next hs a) prev a (b ∷ c ∷ bs) end
          (merge_next-keep hs a (ground (arith, ap (λ (h : BlockHeader). h.free) behind, e))) chain)
]
  where
    place : (hs a).next ≡ after a b
    place = ap (λ (h : BlockHeader). h.next) chain.0

    behind : hs (hs a).next ≡ header c a (link bs (after (after a b) c))
    behind = ap hs place ∙ chain.1.0

-- Merging with the block before.
pub merge_prev-Chain :
    (hs : Headers) (prev a : ℕ) (b c : Block) (bs : List Block) (end : ℕ)
    → Chain hs prev a (b ∷ c ∷ bs) end
    → 0 < a
    → end < 2 ^ 64
    → b.free ≡ true
    → Became hs (merge_prev hs (after a b)) prev a (absorb b (c ∷ bs)) end
merge_prev-Chain hs prev a b c bs end chain pos small free =
    absorb-Chain hs (merge_prev hs (after a b)) prev a b c bs end chain pos small
      (u64 ((hs a).size + (header_size + (hs (after a b)).size))) (rw (chain.1.0, chain.0) refl)
      (λ x.
        subst
          (λ (p : ℕ).
            merge_prev hs (after a b) x
            ≡ grown hs p (u64 ((hs p).size + (header_size + (hs (after a b)).size)))
                (link bs (after (after a b) c)) x)
          before
          (merge_prev_at hs (after a b) x (omega (arith, before)) (omega (arith, before))
              (ap (λ (p : ℕ). (hs p).free) before ∙ ap (λ (h : BlockHeader). h.free) chain.0 ∙ free)
            ∙ ap
                (λ (l : ℕ).
                  grown hs (hs (after a b)).prev
                    (u64 ((hs (hs (after a b)).prev).size + (header_size + (hs (after a b)).size)))
                    l x)
                (ap (λ (h : BlockHeader). h.next) chain.1.0)))
  where
    before : (hs (after a b)).prev ≡ a
    before = ap (λ (h : BlockHeader). h.prev) chain.1.0
