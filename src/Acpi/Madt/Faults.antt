-- ===== src/Acpi/Madt/Faults.antt =====
-- Two flaws of `parse_madt` in kernel/acpi/acpi.cpp: an entry of no length, and an override that is
-- taken for a source of an NMI too.
use reaveros_iteration.Common.{
  ℕ, zero, suc, ◌+◌, ◌%◌, ◌^◌, ◌≡◌, ◌≤◌, ◌<◌, refl, ap, ◌∙◌, true, ◌&&◌, Option, some, List, [],
  ◌∷◌, ok, out_of_fuel, ltb, leb, arith,
}
use reaveros_iteration.Utils.Raf.{Bytes}
use reaveros_iteration.Acpi.Tables.{read16, read32, table_length}
use reaveros_iteration.Acpi.Madt.{
  Ioapic, Source, Parsed, each_entry, Counts, count_entry, set_global_nmi, set_first_nmi, fill_nmi,
  fill_entry, parse_table,
}
use reaveros_iteration.Acpi.Madt.Entries.{AllSound, fill_override-ok}

-- The entries of the list follow each other from `at` to one of length zero before the end.
abbrev pub Stops : Bytes → (end at : ℕ) → List ℕ → Type 0
Stops m end at [] = (at < end) × (m (at + 1) ≡ 0)
Stops m end at (e ∷ es) = (e ≡ at) × (at < end) × Stops m end (at + m (at + 1)) es

count-stuck :
    (fuel : ℕ) (m : Bytes) (end at : ℕ) (es : List ℕ) (n : Counts)
    → Stops m end at es
    → each_entry fuel m end (λ entry c. ok (count_entry m entry c)) at n ≡ out_of_fuel
unfolding each_entry
count-stuck zero m end at es n stops = refl
count-stuck (suc fuel) m end at [] n (lt, none_left) =
    let same : at + m (at + 1) ≡ at = omega (arith, none_left) in
    let test : ltb at end ≡ true = ground (arith, lt) in
    rw (test, same) (count-stuck fuel m end at [] (count_entry m at n) (lt, none_left))
count-stuck (suc fuel) m end at (e ∷ es) n (here, lt, stops) =
    let test : ltb at end ≡ true = ground (arith, lt) in
    rw test (count-stuck fuel m end (at + m (at + 1)) es (count_entry m at n) stops)

-- With an entry of length zero, parse_madt does not return, whatever the fuel.
pub parse_table-stuck :
    (version : ℕ → ℕ) (fuel : ℕ) (m : Bytes) (table : ℕ) (sources : ℕ → Option Source) (es : List ℕ)
    → Stops m (table + table_length m table) (table + 44) es
    → parse_table version fuel m table sources ≡ out_of_fuel
unfolding parse_table
parse_table-stuck version fuel m table sources es stops =
    rw
      (count-stuck fuel m (table + table_length m table) (table + 44) es
        (record { core_num = 0; ioapic_num = 0 }) stops)
      refl

first_takes :
    (vector flags : ℕ) (a : Ioapic) (rest : List Ioapic)
    → a.base_vector_number + a.size < 2 ^ 32
    → a.base_vector_number ≤ vector
    → vector < a.base_vector_number + a.size
    → set_first_nmi vector flags (a ∷ rest)
      ≡ record a { global_nmi = some (record { vector = vector; flags = flags }) } ∷ rest
unfolding set_first_nmi set_global_nmi
first_takes vector flags a rest small low high =
    let test : (leb a.base_vector_number vector
          && ltb vector ((a.base_vector_number + a.size) % 2 ^ 32))
        ≡ true =
      ground (arith, small, low, high) in
    rw test refl

-- parse_madt goes on from the case of an override to the case of a source of an NMI: an override,
-- of a source below 128 and without reserved flags, whose global interrupt the first I/O APIC
-- handles, makes that interrupt the NMI of this I/O APIC, with the bytes of the bus and the source
-- as flags.
pub fill_entry-nmi :
    (version : ℕ → ℕ) (m : Bytes) (e : ℕ) (p : Parsed) (a : Ioapic) (rest : List Ioapic)
    → m e ≡ 2
    → AllSound m (e ∷ [])
    → p.ioapics ≡ a ∷ rest
    → a.base_vector_number + a.size < 2 ^ 32
    → a.base_vector_number ≤ read32 m (e + 4)
    → read32 m (e + 4) < a.base_vector_number + a.size
    → (q : Parsed) × (fill_entry version m e p ≡ ok q)
      × (q.ioapics
          ≡ record a {
            global_nmi = some (record { vector = read32 m (e + 4); flags = read16 m (e + 2) });
          }
            ∷ rest)
unfolding fill_entry fill_nmi
fill_entry-nmi version m e p a rest two sound one small low high =
    let (q, run, cores, apics) = fill_override-ok m e p sound two in
    (
      fill_nmi m e q,
      rw (two, run) refl,
      ap (set_first_nmi (read32 m (e + 4)) (read16 m (e + 2))) (apics ∙ one)
          ∙ first_takes (read32 m (e + 4)) (read16 m (e + 2)) a rest small low high,
    )
