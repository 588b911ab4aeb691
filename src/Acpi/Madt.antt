-- ===== src/Acpi/Madt.antt =====
-- kernel/acpi/madt.c: the interrupt controllers that the MADT lists.
use quin_kernel_template.Base.{
  ℕ, zero, suc, ◌+◌, Bool, true, false, not, ◌&&◌, ◌||◌, List, [], ◌∷◌, u32, leb, ltb, ◌==◌,
  bit_and, if◌then◌else◌, ◌≤◌, ◌≡◌, refl, arith,
}
use quin_kernel_template.Acpi.{Acpi, load32, table_length, acpi_find_table}
use quin_kernel_template.Memory.{Memory, load}
use quin_kernel_template.Panic.{Outcome, ok, ◌>>=◌}

pub record MadtInfo : Type 0 where
  pub local_apic_address : ℕ
  pub enabled_cpu_count : ℕ
  pub have_ioapic : Bool
  pub ioapic_address : ℕ
  pub ioapic_gsi_base : ℕ

abbrev pub madt_size : ℕ
madt_size = 44

abbrev pub entry_local_apic : ℕ
entry_local_apic = 0

abbrev pub entry_ioapic : ℕ
entry_ioapic = 1

abbrev pub apic_signature : List ℕ
apic_signature = 65 ∷ 80 ∷ 73 ∷ 67 ∷ []

abbrev pub empty_info : MadtInfo
empty_info = record {
  local_apic_address = 0;
  enabled_cpu_count = 0;
  have_ioapic = false;
  ioapic_address = 0;
  ioapic_gsi_base = 0;
}

-- What the entry at `cursor` adds.
unfoldable pub read_entry : Memory → (cursor : ℕ) → MadtInfo → MadtInfo
unfolding load32
read_entry m cursor out =
    if load m cursor == entry_local_apic
    then if not (bit_and (load32 m (cursor + 4)) 1 == 0)
      then record out { enabled_cpu_count = u32 (out.enabled_cpu_count + 1) }
      else out
    else if load m cursor == entry_ioapic && not out.have_ioapic
    then record out {
      have_ioapic = true;
      ioapic_address = load32 m (cursor + 4);
      ioapic_gsi_base = load32 m (cursor + 8);
    }
    else out

-- The loop of `madt_parse`, on fuel: `cursor` grows in each round.
unfoldable pub parse_loop : (fuel : ℕ) → Memory → (cursor end : ℕ) → MadtInfo → MadtInfo
unfolding read_entry
parse_loop zero m cursor end out = out
parse_loop (suc fuel) m cursor end out =
    let size = load m (cursor + 1) in
    elim (leb (cursor + 2) end && not (size == 0 || ltb end (cursor + size))) [
      | true ↦ parse_loop fuel m (cursor + size) end (read_entry m cursor out)
      | false ↦ out
    ]

-- The result, and what `out` points to. A round takes a byte of the table at least.
unfoldable pub madt_parse : Acpi → Memory → Outcome (Bool × MadtInfo)
unfolding parse_loop acpi_find_table load32
madt_parse s m = acpi_find_table s m apic_signature >>= λ table.
    let found = record empty_info { local_apic_address = load32 m (table + 36) } in
    if table == 0
    then ok (false, empty_info)
    else ok (
      true,
      parse_loop (table_length m table) m (table + madt_size) (table + table_length m table) found,
    )

-- The loop takes a byte of the table at least in each round, so any fuel that covers what is left of
-- the table gives the same result: the length that `madt_parse` starts with never runs out.
parse_loop_enough :
    (a b : ℕ) (m : Memory) (cursor end : ℕ) (out : MadtInfo)
    → end ≤ cursor + a
    → end ≤ cursor + b
    → parse_loop a m cursor end out ≡ parse_loop b m cursor end out
unfolding parse_loop
parse_loop_enough zero zero m cursor end out ha hb = refl
parse_loop_enough zero (suc b) m cursor end out ha hb = ground arith
parse_loop_enough (suc a) zero m cursor end out ha hb = ground arith
parse_loop_enough (suc a) (suc b) m cursor end out ha hb =
    ground
      (arith, parse_loop_enough a b m (cursor + load m (cursor + 1)) end (read_entry m cursor out))
