-- ===== src/Acpi.antt =====
-- kernel/acpi/acpi.c: finding the root table and the tables that it lists, in byte-addressed memory.
pub mod Checksum
pub mod Madt
mod Tests
use quin_kernel_template.Base.{
  ℕ, zero, suc, ◌+◌, ◌-◌, ◌*◌, ◌/◌, ◌%◌, ◌^◌, Bool, true, false, not, ◌&&◌, ◌||◌, Option, none,
  some, List, [], ◌∷◌, u8, u32, u64, sub32, leb, ltb, ◌==◌, if◌then◌else◌,
}
use quin_kernel_template.Memory.{Memory, load, load64}
use quin_kernel_template.Panic.{Outcome, ok, panicked}

-- `*(uint32_t *)a`
unfoldable pub load32 : Memory → ℕ → ℕ
load32 m a = load m a + load m (a + 1) * 2 ^ 8 + load m (a + 2) * 2 ^ 16 + load m (a + 3) * 2 ^ 24

-- The static variables.
pub record Acpi : Type 0 where
  pub hhdm_offset : ℕ
  pub root_table : ℕ
  pub root_entry_count : ℕ
  pub root_entries_are_64bit : Bool

abbrev pub header_size : ℕ
header_size = 36

abbrev pub rsdp_size : ℕ
rsdp_size = 36

unfoldable pub phys_to_virt : (hhdm_offset phys : ℕ) → ℕ
phys_to_virt hhdm_offset phys = u64 (phys + hhdm_offset)

-- The loop of `checksum_ok`, with `left` rounds to go.
unfoldable pub sum_loop : Memory → (bytes left i sum : ℕ) → ℕ
sum_loop m bytes zero i sum = sum
sum_loop m bytes (suc left) i sum = sum_loop m bytes left (i + 1) (u8 (sum + load m (bytes + i)))

unfoldable pub checksum_ok : Memory → (bytes len : ℕ) → Bool
unfolding sum_loop
checksum_ok m bytes len = sum_loop m bytes len 0 0 == 0

-- `memcmp(table, text, n) == 0` against a string constant: behind its characters is its NUL.
unfoldable pub same_text : Memory → (a n : ℕ) → List ℕ → Bool
same_text m a zero text = true
same_text m a (suc n) [] = load m a == 0 && same_text m (a + 1) n []
same_text m a (suc n) (c ∷ cs) = load m a == c && same_text m (a + 1) n cs

abbrev pub rsd_ptr : List ℕ
rsd_ptr = 82 ∷ 83 ∷ 68 ∷ 32 ∷ 80 ∷ 84 ∷ 82 ∷ 32 ∷ []

abbrev pub xsdt_signature : List ℕ
xsdt_signature = 88 ∷ 83 ∷ 68 ∷ 84 ∷ []

abbrev pub rsdt_signature : List ℕ
rsdt_signature = 82 ∷ 83 ∷ 68 ∷ 84 ∷ []

-- `table->length`
abbrev pub table_length : Memory → ℕ → ℕ
table_length m table = load32 m (table + 4)

-- One arm of the `if` in `acpi_init`: the root table, or panic.
unfoldable pub use_root :
    Memory → (hhdm_offset table : ℕ) (signature : List ℕ) (entry_size : ℕ) → Outcome Acpi
unfolding same_text checksum_ok
use_root m hhdm_offset table signature entry_size =
    if not (same_text m table 4 signature) || not (checksum_ok m table (table_length m table))
    then panicked
    else ok (record {
      hhdm_offset = hhdm_offset;
      root_table = table;
      root_entry_count = sub32 (table_length m table) header_size / entry_size;
      root_entries_are_64bit = entry_size == 8;
    })

-- `rsdp` is what `boot_get_rsdp` answered.
unfoldable pub acpi_init : Memory → (hhdm_offset : ℕ) → (rsdp : Option ℕ) → Outcome Acpi
unfolding use_root same_text checksum_ok phys_to_virt load32
acpi_init m hhdm_offset none = panicked
acpi_init m hhdm_offset (some rsdp) =
    if not (same_text m rsdp 8 rsd_ptr)
    then panicked
    else if not (checksum_ok m rsdp 20)
    then panicked
    else if leb 2 (load m (rsdp + 15)) && checksum_ok m rsdp rsdp_size
    then use_root m hhdm_offset (phys_to_virt hhdm_offset (load64 m (rsdp + 24))) xsdt_signature 8
    else use_root m hhdm_offset (phys_to_virt hhdm_offset (load32 m (rsdp + 16))) rsdt_signature 4

-- The table that entry `i` of the root table points to.
unfoldable pub table_at : Acpi → Memory → (i : ℕ) → ℕ
unfolding phys_to_virt load32
table_at s m i =
    let entries = s.root_table + header_size in
    phys_to_virt s.hhdm_offset (
      if s.root_entries_are_64bit
      then load64 m (entries + u32 (i * 8))
      else load32 m (entries + u32 (i * 4)))

-- The loop of `acpi_find_table`, with `left` rounds to go; 0 for NULL.
unfoldable pub find_loop : Acpi → Memory → (signature : List ℕ) → (left i : ℕ) → Outcome ℕ
unfolding table_at same_text checksum_ok
find_loop s m signature zero i = ok 0
find_loop s m signature (suc left) i =
    let rest = find_loop s m signature left (i + 1) in
    let table = table_at s m i in
    if same_text m table 4 signature
    then if not (checksum_ok m table (table_length m table)) then panicked else ok table
    else rest

unfoldable pub acpi_find_table : Acpi → Memory → (signature : List ℕ) → Outcome ℕ
unfolding find_loop
acpi_find_table s m signature = find_loop s m signature s.root_entry_count 0
