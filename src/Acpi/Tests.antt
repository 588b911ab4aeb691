-- ===== src/Acpi/Tests.antt =====
-- Runs of kernel/acpi on a root table at 100 with two entries, the second of a MADT at 1000.
use quin_kernel_template.Base.{◌≡◌, refl, true, ◌==◌, if◌then◌else◌}
use quin_kernel_template.Acpi.{Acpi, acpi_find_table}
use quin_kernel_template.Acpi.Checksum.{FindResult, find_table-FindResult}
use quin_kernel_template.Acpi.Madt.{apic_signature, empty_info, madt_parse}
use quin_kernel_template.Memory.{Memory, load, load64}
use quin_kernel_template.Panic.{ok}

abbrev state : Acpi
state = record {
  hhdm_offset = 0;
  root_table = 100;
  root_entry_count = 2;
  root_entries_are_64bit = true;
}

-- The table: its signature, a length of 52, a checksum, and one processor that is enabled.
abbrev memory : Memory
memory a =
    if a == 144
    then 232
    else if a == 145
    then 3
    else if a == 1000
    then 65
    else if a == 1001
    then 80
    else if a == 1002
    then 73
    else if a == 1003
    then 67
    else if a == 1004
    then 52
    else if a == 1009
    then 166
    else if a == 1045
    then 8
    else if a == 1048
    then 1
    else 0

found_here : acpi_find_table state memory apic_signature ≡ ok 1000
unfolding acpi_find_table load load64
found_here = refl

find_table-FindResult_example :
    FindResult state memory apic_signature 0 2 (acpi_find_table state memory apic_signature)
find_table-FindResult_example = find_table-FindResult state memory apic_signature

one_processor : madt_parse state memory ≡ ok (true, record empty_info { enabled_cpu_count = 1 })
unfolding madt_parse load load64
one_processor = refl
