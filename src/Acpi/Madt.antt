-- ===== src/Acpi/Madt.antt =====
-- `parse_madt` of kernel/acpi/acpi.cpp, with `core` of kernel/processor/core.h, `ioapic` of
-- kernel/processor/ioapic.h and `interrupt_entry` of kernel/processor/interrupt_entry.h. What an
-- I/O APIC's version register holds is the argument `version`.
pub mod Entries
pub mod Parse
pub mod Faults
use reaveros_iteration.Common.{
  ℕ, zero, suc, ◌+◌, ◌-◌, ◌*◌, ◌/◌, ◌%◌, ◌^◌, Bool, true, false, not, ◌&&◌, ◌||◌, Option, none,
  some, List, [], ◌∷◌, ◌++◌, Run, ok, panic, fault, out_of_fuel, ◌>>=◌, panic_if, ◌>>◌, ◌==◌, ltb,
  leb, if◌then◌else◌, map, length,
}
use reaveros_iteration.Utils.Raf.{Bytes, read64}
use reaveros_iteration.Acpi.Tables.{Signature, Root, find_table, read16, read32, table_length}

-- a vector and flags
pub record Nmi : Type 0 where
  pub vector : ℕ
  pub flags : ℕ

pub record Core : Type 0 where
  pub acpi_id : ℕ
  pub apic_id : ℕ
  pub is_local_apic : Bool
  pub nmi : Option Nmi

pub record Ioapic : Type 0 where
  pub apic_id : ℕ
  pub base_vector_number : ℕ
  pub size : ℕ
  pub global_nmi : Option Nmi

-- `interrupt_entry`, once it is set
pub record Source : Type 0 where
  pub global_vector : ℕ
  pub flags : ℕ

-- What `parse_madt` fills: the cores and the I/O APICs in the order of the arrays, `_sources`, and
-- the address of the local APICs.
pub record Parsed : Type 0 where
  pub cores : List Core
  pub ioapics : List Ioapic
  pub sources : ℕ → Option Source
  pub lic_address : ℕ

-- `while (entry - table < table->length)`, with the body as an argument
unfoldable pub each_entry {ℓ} :
    {S : Type ℓ} → (fuel : ℕ) → Bytes → (end : ℕ) → (ℕ → S → Run S) → (entry : ℕ) → S → Run S
each_entry zero m end body entry s = out_of_fuel
each_entry (suc fuel) m end body entry s =
    if ltb entry end
    then (body entry s >>= each_entry fuel m end body (entry + m (entry + 1)))
    else ok s

-- the numbers of cores and I/O APICs that room is made for
pub record Counts : Type 0 where
  pub core_num : ℕ
  pub ioapic_num : ℕ

unfoldable pub count_entry : Bytes → ℕ → Counts → Counts
count_entry m entry n =
    if m entry == 0 || m entry == 9
    then record n { core_num = n.core_num + 1 }
    else (if m entry == 1 then record n { ioapic_num = n.ioapic_num + 1 } else n)

-- `ioapic::set_global_nmi`; it returns `_is_nmi_valid`
unfoldable pub set_global_nmi : (vector flags : ℕ) → Ioapic → Bool × Ioapic
set_global_nmi vector flags a =
    if leb a.base_vector_number vector && ltb vector ((a.base_vector_number + a.size) % 2 ^ 32)
    then (true, record a { global_nmi = some (record { vector = vector; flags = flags }) })
    else (elim a.global_nmi [ some nmi ↦ true | none ↦ false ], a)

-- the loop over the I/O APICs that stops at the first that returns true
unfoldable pub set_first_nmi : (vector flags : ℕ) → List Ioapic → List Ioapic
unfolding set_global_nmi
set_first_nmi vector flags [] = []
set_first_nmi vector flags (a ∷ rest) =
    let later = set_first_nmi vector flags rest in
    let tried = set_global_nmi vector flags a in if tried.0 then tried.1 ∷ rest else tried.1 ∷ later

-- case 3, a source of an NMI
unfoldable pub fill_nmi : Bytes → ℕ → Parsed → Parsed
unfolding set_first_nmi
fill_nmi m entry p = record p {
  ioapics = set_first_nmi (read32 m (entry + 4)) (read16 m (entry + 2)) p.ioapics;
}

-- Case 2, an override of an interrupt source, up to its end, where the code goes on with case 3.
-- `_sources` has 128 entries.
unfoldable pub fill_override : Bytes → ℕ → Parsed → Run Parsed
fill_override m entry p =
    let source = m (entry + 3) in
    let flags = read16 m (entry + 8) in
    if leb 128 source
    then fault
    else if flags % 4 == 2 || flags / 4 % 4 == 2
    then panic
    else ok (record p {
      sources = λ i.
          if i == source
          then some (record { global_vector = read32 m (entry + 4); flags = flags })
          else p.sources i;
    })

-- case 0 and case 9, a core that is enabled
abbrev pub lapic_core : Bytes → ℕ → List Core
lapic_core m entry =
    if read32 m (entry + 4) % 2 == 1
    then record {
      acpi_id = m (entry + 2);
      apic_id = m (entry + 3);
      is_local_apic = true;
      nmi = none;
    }
      ∷ []
    else []

abbrev pub x2apic_core : Bytes → ℕ → List Core
x2apic_core m entry =
    if read32 m (entry + 8) % 2 == 1
    then record {
      acpi_id = read32 m (entry + 12);
      apic_id = read32 m (entry + 4);
      is_local_apic = false;
      nmi = none;
    }
      ∷ []
    else []

module _ (version : ℕ → ℕ) where
  -- the constructor of `ioapic`
  unfoldable pub new_ioapic : Bytes → ℕ → Ioapic
  new_ioapic m entry = record {
    apic_id = m (entry + 2);
    base_vector_number = read32 m (entry + 8);
    size = version (read32 m (entry + 4)) / 2 ^ 16 % 256 + 1;
    global_nmi = none;
  }

  -- the other cases of the second loop
  unfoldable pub fill_other : Bytes → ℕ → Parsed → Parsed
  unfolding fill_nmi new_ioapic
  fill_other m entry p =
      if m entry == 0
      then record p { cores = p.cores ++ lapic_core m entry }
      else if m entry == 1
      then record p { ioapics = p.ioapics ++ (new_ioapic m entry ∷ []) }
      else if m entry == 3
      then fill_nmi m entry p
      else if m entry == 5
      then record p { lic_address = read64 m (entry + 4) }
      else if m entry == 9
      then record p { cores = p.cores ++ x2apic_core m entry }
      else p

  -- the body of the second loop
  unfoldable pub fill_entry : Bytes → ℕ → Parsed → Run Parsed
  unfolding fill_other fill_nmi fill_override
  fill_entry m entry p =
      if m entry == 2
      then (fill_override m entry p >>= λ q. ok (fill_nmi m entry q))
      else ok (fill_other m entry p)

-- `core::set_nmi`
unfoldable pub set_nmi : (vector flags : ℕ) → Core → Core
set_nmi vector flags c = record c { nmi = some (record { vector = vector; flags = flags }) }

-- the loop that sets the NMI of the first core with an id
unfoldable pub set_core_nmi : (acpi_id vector flags : ℕ) → List Core → List Core
unfolding set_nmi
set_core_nmi acpi_id vector flags [] = []
set_core_nmi acpi_id vector flags (c ∷ rest) =
    let later = set_core_nmi acpi_id vector flags rest in
    if c.acpi_id == acpi_id then set_nmi vector flags c ∷ rest else c ∷ later

-- case 4 and case 10: the NMI of every core, or of the one that the entry names
unfoldable pub mark_lapic : Bytes → ℕ → List Core → List Core
unfolding set_core_nmi set_nmi
mark_lapic m entry cores =
    let vector = m (entry + 5) in
    let flags = read16 m (entry + 3) in
    if m (entry + 2) == 0xff
    then map (λ (c : Core). if c.is_local_apic then set_nmi vector flags c else c) cores
    else set_core_nmi (m (entry + 2)) vector flags cores

unfoldable pub mark_x2apic : Bytes → ℕ → List Core → List Core
unfolding set_core_nmi set_nmi
mark_x2apic m entry cores =
    let vector = m (entry + 8) in
    let flags = read16 m (entry + 2) in
    if read32 m (entry + 4) == 0xffffffff
    then map (set_nmi vector flags) cores
    else set_core_nmi (read32 m (entry + 4)) vector flags cores

-- the body of the third loop
unfoldable pub nmi_entry : Bytes → ℕ → Parsed → Parsed
unfolding mark_lapic mark_x2apic
nmi_entry m entry p = record p {
  cores =
      if m entry == 4
      then mark_lapic m entry p.cores
      else if m entry == 10
      then mark_x2apic m entry p.cores
      else p.cores;
}

-- `parse_madt` of a table that has been found, with the counts that room is made for
unfoldable pub parse_table :
    (version : ℕ → ℕ) (fuel : ℕ) → Bytes → (table : ℕ) → (ℕ → Option Source) → Run (Counts × Parsed)
unfolding each_entry count_entry fill_entry nmi_entry
parse_table version fuel m table sources = do
  let end = table + table_length m table
  n ←
      each_entry fuel m end (λ entry c. ok (count_entry m entry c)) (table + 44)
        (record { core_num = 0; ioapic_num = 0 })
  p ←
      each_entry fuel m end (fill_entry version m) (table + 44) (record {
        cores = [];
        ioapics = [];
        sources = sources;
        lic_address = read32 m (table + 36);
      })
  q ← each_entry fuel m end (λ entry r. ok (nmi_entry m entry r)) (table + 44) p
  ok (n, q)

abbrev madt_sign : Signature
madt_sign = record { first = 0x41; second = 0x50; third = 0x49; fourth = 0x43 }

-- `parse_madt`, which returns at once where there is no table
unfoldable pub parse_madt :
    (version : ℕ → ℕ) (fuel : ℕ)
    → Bytes
    → Root
    → (ℕ → Option Source)
    → Run (Option (Counts × Parsed))
unfolding parse_table find_table
parse_madt version fuel m root sources = elim (find_table m root madt_sign) [
  | none ↦ ok none
  | some table ↦ parse_table version fuel m table sources >>= λ r. ok (some r)
]
