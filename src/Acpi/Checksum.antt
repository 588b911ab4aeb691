-- ===== src/Acpi/Checksum.antt =====
-- kernel/acpi/acpi.c's search for a table, and what its checksum says.
use quin_kernel_template.Base.{
  ℕ, zero, suc, ◌+◌, ◌*◌, ◌%◌, ◌<◌, ◌≤◌, ◌≡◌, refl, ap, ◌∙◌, Bool, true, false, List, arith, u8,
  u32, u64, ◌==◌, if◌then◌else◌, Bool-cases, ◌⊎◌, inl, inr,
}
use quin_kernel_template.Memory.{Memory, load, load64}
use quin_kernel_template.Acpi.{
  Acpi, load32, phys_to_virt, sum_loop, checksum_ok, same_text, table_length, table_at, find_loop,
  acpi_find_table,
}
use quin_kernel_template.Panic.{Outcome, ok, panicked}

-- The sum of the bytes, without wrapping.
unfoldable pub byte_sum : Memory → (start len : ℕ) → ℕ
byte_sum m start zero = 0
byte_sum m start (suc len) = load m start + byte_sum m (start + 1) len

sum_loop_lem :
    (m : Memory) (bytes left i sum : ℕ)
    → sum < 256
    → sum_loop m bytes left i sum ≡ (sum + byte_sum m (bytes + i) left) % 256
unfolding sum_loop byte_sum
sum_loop_lem m bytes zero i sum small = omega arith
sum_loop_lem m bytes (suc left) i sum small =
    sum_loop_lem m bytes left (i + 1) (u8 (sum + load m (bytes + i))) (omega arith)
    ∙ omega (
      arith,
      ap (λ (a : ℕ). byte_sum m a left) {x = bytes + (i + 1)} {y = bytes + i + 1} (omega arith),
    )

-- `checksum_ok` holds exactly when the bytes add up to a multiple of 256.
pub checksum_ok_lem :
    (m : Memory) (bytes len : ℕ) → checksum_ok m bytes len ≡ (byte_sum m bytes len % 256 == 0)
unfolding checksum_ok
checksum_ok_lem m bytes len =
    ap (λ (r : ℕ). r == 0)
      (sum_loop_lem m bytes len 0 0 (omega arith)
        ∙ omega (arith, ap (λ (a : ℕ). byte_sum m a len) {x = bytes + 0} {y = bytes} (omega arith)))

-- Where the `i`-th entry behind the root table's header of 36 bytes points: an entry is an address
-- of eight bytes in an XSDT, and of four in an RSDT.
abbrev pub nth_table : Acpi → Memory → (i : ℕ) → ℕ
nth_table s m i = u64 (
    (if s.root_entries_are_64bit
      then load64 m (s.root_table + 36 + u32 (i * 8))
      else load32 m (s.root_table + 36 + u32 (i * 4)))
    + s.hhdm_offset)

-- The table of entry `i` has the signature, of four characters.
abbrev pub matches : Acpi → Memory → List ℕ → ℕ → Bool
matches s m signature i = same_text m (nth_table s m i) 4 signature

-- What the search from entry `i` on, of `left` entries, may come to.
pub data FindResult (s : Acpi) (m : Memory) (signature : List ℕ) (i left : ℕ) (r : Outcome ℕ)
    : Type 0 where
  absent :
      r ≡ ok 0
      → ((j : ℕ) → i ≤ j → j < i + left → matches s m signature j ≡ false)
      → FindResult s m signature i left r
  found :
      (k : ℕ)
      → i ≤ k
      → k < i + left
      → matches s m signature k ≡ true
      → ((j : ℕ) → i ≤ j → j < k → matches s m signature j ≡ false)
      → r ≡ (
          if byte_sum m (nth_table s m k) (table_length m (nth_table s m k)) % 256 == 0
          then ok (nth_table s m k)
          else panicked)
      → FindResult s m signature i left r

le_split : (i j : ℕ) → i ≤ j → (j ≡ i) ⊎ (i + 1 ≤ j)
le_split i j h = omega arith

find_loop-FindResult :
    (s : Acpi) (m : Memory) (signature : List ℕ) (left i : ℕ)
    → FindResult s m signature i left (find_loop s m signature left i)
unfolding find_loop table_at phys_to_virt
find_loop-FindResult s m signature zero i = absent refl (λ j low high. absurd (omega arith))
find_loop-FindResult s m signature (suc left) i = elim (Bool-cases (matches s m signature i)) [
  | inl here ↦
      found i (omega arith) (omega arith) here (λ j low high. absurd (omega arith))
        (ground
          (arith, here, checksum_ok_lem m (nth_table s m i) (table_length m (nth_table s m i))))
  | inr away ↦ rw away (later away (find_loop-FindResult s m signature left (i + 1)))
]
  where
    first_or :
        matches s m signature i ≡ false
        → (j : ℕ) → i ≤ j
        → (i + 1 ≤ j → matches s m signature j ≡ false)
        → matches s m signature j ≡ false
    first_or away j low above = elim (le_split i j low) [
      | inl same ↦ rw same away
      | inr beyond ↦ above beyond
    ]

    later :
        matches s m signature i ≡ false
        → {r : Outcome ℕ} → FindResult s m signature (i + 1) left r
        → FindResult s m signature i (suc left) r
    later away (absent e none_later) =
        absent e (λ j low high. first_or away j low (λ above. none_later j above (omega arith)))
    later away (found k low high hit before e) =
        found k (omega arith) (omega arith) hit
          (λ j from to. first_or away j from (λ above. before j above to)) e

-- `acpi_find_table` goes through all entries behind the root table's header in order, of eight bytes
-- in an XSDT and of four in an RSDT. It returns the first table
-- with the signature when its bytes add up to a multiple of 256, and panics when they do not; it
-- returns NULL when no entry has the signature.
pub find_table-FindResult :
    (s : Acpi) (m : Memory) (signature : List ℕ)
    → FindResult s m signature 0 s.root_entry_count (acpi_find_table s m signature)
unfolding acpi_find_table
find_table-FindResult s m signature = find_loop-FindResult s m signature s.root_entry_count 0
