-- ===== src/Heap/Chain.antt =====
-- heap.c: splitting a block and merging it again.
use quin_kernel_template.Base.{
  ℕ, ◌+◌, ◌-◌, ◌^◌, ◌<◌, ◌≤◌, ◌≡◌, ◌≢◌, ◌⊎◌, arith, true, false, not, ◌&&◌, ◌==◌, if◌then◌else◌,
  u64,
}
use quin_kernel_template.Heap.{
  BlockHeader, Headers, header_size, min_split_size, split, take, merge_next,
}

-- The header of the rest, after the first `size` bytes of the block at `node`.
abbrev pub rest_of : Headers → (node size : ℕ) → BlockHeader
rest_of hs node size = record {
  size = (hs node).size - size - header_size;
  free = true;
  prev = node;
  next = (hs node).next;
}

-- All headers after `take` of a block that is split.
pub split_at :
    (hs : Headers) (node size a : ℕ)
    → (hs node).size < 2 ^ 64
    → size + header_size + min_split_size ≤ (hs node).size
    → node + header_size + (hs node).size < 2 ^ 64
    → ((hs node).next ≡ 0) ⊎ (node + header_size + (hs node).size ≤ (hs node).next)
    → split hs node size a ≡ (
        if a == node + header_size + size
        then rest_of hs node size
        else if a == node
        then record (hs node) { size = size; next = node + header_size + size }
        else if not ((hs node).next == 0) && a == (hs node).next
        then record (hs a) { prev = node + header_size + size }
        else hs a)
unfolding split
split_at hs node size a small room fits next = ground arith

-- All headers after `take` of a block that is split, and of one that is not.
pub taken_at :
    (hs : Headers) (node size a : ℕ)
    → (hs node).size < 2 ^ 64
    → size + header_size + min_split_size ≤ (hs node).size
    → node + header_size + (hs node).size < 2 ^ 64
    → ((hs node).next ≡ 0) ⊎ (node + header_size + (hs node).size ≤ (hs node).next)
    → take hs node size a ≡ (
        if a == node + header_size + size
        then rest_of hs node size
        else if a == node
        then record (hs node) { size = size; free = false; next = node + header_size + size }
        else if not ((hs node).next == 0) && a == (hs node).next
        then record (hs a) { prev = node + header_size + size }
        else hs a)
unfolding take
taken_at hs node size a small room fits next = ground (
  arith,
  split_at hs node size a small room fits next,
  split_at hs node size node small room fits next,
)

pub taken_whole_at :
    (hs : Headers) (node size a : ℕ)
    → (hs node).size < 2 ^ 64
    → size ≤ (hs node).size
    → (hs node).size < size + header_size + min_split_size
    → take hs node size a ≡ (if a == node then record (hs node) { free = false } else hs a)
unfolding take
taken_whole_at hs node size a small room exact = ground arith

-- `merge_next` on headers that are known at the blocks that it looks at.
pub merge_at :
    (hs : Headers) (node a : ℕ)
    → let behind = (hs node).next in
      let last = (hs behind).next in
      behind ≢ 0
      → behind ≢ node
      → (hs behind).free ≡ true
      → merge_next hs node a ≡ (
          if not (last == 0) && a == last
          then record (if a == node
              then record (hs node) {
                size = u64 ((hs node).size + (header_size + (hs behind).size));
                next = last;
              }
              else hs a) { prev = node }
          else if a == node
          then record (hs node) {
            size = u64 ((hs node).size + (header_size + (hs behind).size));
            next = last;
          }
          else hs a)
unfolding merge_next
merge_at hs node a e2 e3 e4 = ground arith
