-- ===== src/Tests/Firmware.antt =====
-- A MADT with a core, an I/O APIC and an override, one with an entry of length zero, and an empty
-- memory.
use reaveros_iteration.Common.{
  ℕ, ◌^◌, ◌≡◌, ◌≤◌, refl, none, some, Option, List, [], ◌∷◌, ◌++◌, replicate, length, map, ok,
  out_of_fuel, arith, get_or,
}
use reaveros_iteration.Utils.Raf.{Bytes}
use reaveros_iteration.Acpi.Tables.{find_rsdp}
use reaveros_iteration.Acpi.Tables.Finding.{IsFirstRsdp, root_from, find_rsdp-first}
use reaveros_iteration.Acpi.Madt.{Ioapic, Parsed, Counts, parse_table, fill_entry}
use reaveros_iteration.Acpi.Madt.Entries.{bare, enabled}
use reaveros_iteration.Acpi.Madt.Parse.{parse_table-fills}
use reaveros_iteration.Acpi.Madt.Faults.{parse_table-stuck, fill_entry-nmi}

-- the header and the two words behind it, of a table of `length` bytes
abbrev header : ℕ → List ℕ
header length = 65 ∷ 80 ∷ 73 ∷ 67 ∷ length ∷ replicate 39 0

abbrev entries : List ℕ
entries =
    (0 ∷ 8 ∷ 1 ∷ 3 ∷ 1 ∷ 0 ∷ 0 ∷ 0 ∷ [])
    ++ ((1 ∷ 12 ∷ 9 ∷ 0 ∷ 0 ∷ 0 ∷ 192 ∷ 254 ∷ 0 ∷ 0 ∷ 0 ∷ 0 ∷ [])
        ++ (2 ∷ 10 ∷ 0 ∷ 1 ∷ 2 ∷ 0 ∷ 0 ∷ 0 ∷ 0 ∷ 0 ∷ []))

abbrev madt : Bytes
madt a = get_or (header 74 ++ entries) a 0

parse_table-fills_example :
    (n : Counts) × (q : Parsed) × (parse_table (λ a. 2 ^ 20) 4 madt 0 (λ i. none) ≡ ok (n, q))
    × (map bare q.cores ≡ enabled madt (44 ∷ 52 ∷ 64 ∷ []))
    × (length q.cores ≤ n.core_num)
    × (length q.ioapics ≡ n.ioapic_num)
parse_table-fills_example =
    parse_table-fills (λ a. 2 ^ 20) 4 madt 0 (λ i. none) (44 ∷ 52 ∷ 64 ∷ [])
      (refl, omega arith, (refl, omega arith, (refl, omega arith, omega arith)))
      (
        (λ e. absurd (omega arith)),
        (
          (λ e. absurd (omega arith)),
          ((λ e. (omega arith, (λ f. omega arith), (λ f. omega arith))), tt),
        ),
      )
      (omega arith)

-- an entry of length zero behind the core
abbrev stuck_madt : Bytes
stuck_madt a = get_or (header 74 ++ (0 ∷ 8 ∷ 1 ∷ 3 ∷ 1 ∷ 0 ∷ 0 ∷ 0 ∷ [])) a 0

stuck_madt_runs : parse_table (λ a. 0) 100 stuck_madt 0 (λ i. none) ≡ out_of_fuel
stuck_madt_runs =
    parse_table-stuck (λ a. 0) 100 stuck_madt 0 (λ i. none) (44 ∷ [])
      (refl, omega arith, (omega arith, refl))

abbrev first_ioapic : Ioapic
first_ioapic = record { apic_id = 9; base_vector_number = 0; size = 24; global_nmi = none }

abbrev one_ioapic : Parsed
one_ioapic = record {
  cores = [];
  ioapics = first_ioapic ∷ [];
  sources = λ i. none;
  lic_address = 0;
}

fill_entry-nmi_example :
    (q : Parsed) × (fill_entry (λ a. 0) madt 64 one_ioapic ≡ ok q)
    × (q.ioapics
        ≡ record first_ioapic { global_nmi = some (record { vector = 2; flags = 256 }) } ∷ [])
fill_entry-nmi_example =
    fill_entry-nmi (λ a. 0) madt 64 one_ioapic first_ioapic [] refl
      ((λ e. (omega arith, (λ f. omega arith), (λ f. omega arith))), tt) refl (omega arith)
      (omega arith) (omega arith)

find_rsdp-first_example :
    (low high : Option ℕ) × IsFirstRsdp (λ a. 0) 0 1024 low
    × IsFirstRsdp (λ a. 0) 0xe0000 0x100000 high
    × (find_rsdp 8193 (λ a. 0) ≡ root_from (λ a. 0) low high)
find_rsdp-first_example = find_rsdp-first 8193 (λ a. 0) (omega arith)
