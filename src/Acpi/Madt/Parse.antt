-- ===== src/Acpi/Madt/Parse.antt =====
-- `parse_madt` of kernel/acpi/acpi.cpp on a whole table.
use mathlib.Core.List.{append-nil, append_assoc}
use reaveros_iteration.Common.{
  ℕ, ◌+◌, ◌≡◌, ◌≤◌, ◌<◌, inl, inr, refl, sym, ap, ap₂, ◌∙◌, Option, List, [], ◌∷◌, ◌++◌, ok, ◌==◌,
  map, length, length-append, length-map, arith, Bool-cases,
}
use reaveros_iteration.Utils.Raf.{Bytes}
use reaveros_iteration.Acpi.Tables.{read16, read32, table_length}
use reaveros_iteration.Acpi.Madt.{
  Core, Source, Parsed, Counts, count_entry, fill_entry, set_nmi, set_core_nmi, mark_lapic,
  mark_x2apic, nmi_entry, parse_table,
}
use reaveros_iteration.Acpi.Madt.Entries.{
  Chain, run_all, each_entry-run_all, count_kind, is_core, is_ioapic, added, enabled, bare,
  AllSound, count-all, fill_entry-IsFilled,
}

record IsFilledAll (m : Bytes) (es : List ℕ) (p q : Parsed) : Type 0 where
  pub cores : q.cores ≡ p.cores ++ enabled m es
  pub ioapics : length q.ioapics ≡ length p.ioapics + count_kind (is_ioapic m) es

fill-all :
    (version : ℕ → ℕ) (m : Bytes) (es : List ℕ) (p : Parsed)
    → AllSound m es
    → (q : Parsed) × (run_all (fill_entry version m) es p ≡ ok q) × IsFilledAll m es p q
unfolding run_all
fill-all version m [] p sound =
    (p, refl, record { cores = sym (append-nil p.cores); ioapics = omega arith })
fill-all version m (e ∷ es) p (one, sound) =
    let (q, run, filled) = fill_entry-IsFilled version m e p (one, tt) in
    let (r, rest, all) = fill-all version m es q sound in
    (
      r,
      rw run rest,
      record {
        cores =
            all.cores
            ∙ ap (λ (l : List Core). l ++ enabled m es) filled.cores
            ∙ append_assoc p.cores (added m e) (enabled m es);
        ioapics = omega (arith, all.ioapics, filled.ioapics);
      },
    )

bare-set_core_nmi :
    (id vector flags : ℕ) (cores : List Core)
    → map bare (set_core_nmi id vector flags cores) ≡ map bare cores
unfolding set_core_nmi set_nmi
bare-set_core_nmi id vector flags [] = refl
bare-set_core_nmi id vector flags (c ∷ cores) = elim (Bool-cases (c.acpi_id == id)) [
  | inl e ↦ rw e refl
  | inr e ↦ rw e (ap (λ (l : List Core). bare c ∷ l) (bare-set_core_nmi id vector flags cores))
]

bare-map :
    (change : Core → Core) (cores : List Core)
    → ((c : Core) → bare (change c) ≡ bare c)
    → map bare (map change cores) ≡ map bare cores
bare-map change [] same = refl
bare-map change (c ∷ cores) same =
    ap₂ (λ (d : Core) (l : List Core). d ∷ l) (same c) (bare-map change cores same)

bare-mark_lapic :
    (m : Bytes) (e : ℕ) (cores : List Core) → map bare (mark_lapic m e cores) ≡ map bare cores
unfolding mark_lapic set_nmi
bare-mark_lapic m e cores = elim (Bool-cases (m (e + 2) == 0xff)) [
  | inl all ↦ rw all (bare-map _ cores (λ c. ground arith))
  | inr one ↦ rw one (bare-set_core_nmi (m (e + 2)) (m (e + 5)) (read16 m (e + 3)) cores)
]

bare-mark_x2apic :
    (m : Bytes) (e : ℕ) (cores : List Core) → map bare (mark_x2apic m e cores) ≡ map bare cores
unfolding mark_x2apic set_nmi
bare-mark_x2apic m e cores = elim (Bool-cases (read32 m (e + 4) == 0xffffffff)) [
  | inl all ↦ rw all (bare-map _ cores (λ c. refl))
  | inr one ↦ rw one (bare-set_core_nmi (read32 m (e + 4)) (m (e + 8)) (read16 m (e + 2)) cores)
]

bare-nmi_entry :
    (m : Bytes) (e : ℕ) (p : Parsed) → map bare (nmi_entry m e p).cores ≡ map bare p.cores
unfolding nmi_entry
bare-nmi_entry m e p = ground (arith, bare-mark_lapic m e p.cores, bare-mark_x2apic m e p.cores)

ioapics-nmi_entry : (m : Bytes) (e : ℕ) (p : Parsed) → (nmi_entry m e p).ioapics ≡ p.ioapics
unfolding nmi_entry
ioapics-nmi_entry m e p = refl

nmi-all :
    (m : Bytes) (es : List ℕ) (p : Parsed)
    → (q : Parsed) × (run_all (λ entry r. ok (nmi_entry m entry r)) es p ≡ ok q)
      × (map bare q.cores ≡ map bare p.cores)
      × (q.ioapics ≡ p.ioapics)
unfolding run_all
nmi-all m [] p = (p, refl, refl, refl)
nmi-all m (e ∷ es) p =
    let (q, run, all, all_apics) = nmi-all m es (nmi_entry m e p) in
    (q, run, all ∙ bare-nmi_entry m e p, all_apics ∙ ioapics-nmi_entry m e p)

bare-append : (xs ys : List Core) → map bare (xs ++ ys) ≡ map bare xs ++ map bare ys
bare-append [] ys = refl
bare-append (c ∷ xs) ys = ap (λ (l : List Core). bare c ∷ l) (bare-append xs ys)

bare-added : (m : Bytes) (e : ℕ) → map bare (added m e) ≡ added m e
bare-added m e = ground arith

bare-enabled : (m : Bytes) (es : List ℕ) → map bare (enabled m es) ≡ enabled m es
bare-enabled m [] = refl
bare-enabled m (e ∷ es) =
    bare-append (added m e) (enabled m es)
    ∙ ap₂ (λ (l r : List Core). l ++ r) (bare-added m e) (bare-enabled m es)

length-enabled : (m : Bytes) (es : List ℕ) → length (enabled m es) ≤ count_kind (is_core m) es
length-enabled m [] = omega arith
length-enabled m (e ∷ es) =
    ground (arith, length-append (added m e) (enabled m es), length-enabled m es)

-- parse_madt of a table whose entries follow each other up to its end, and whose overrides name a
-- source below 128 and have no reserved flags, returns: the cores are those of the enabled entries
-- in their order, but for the NMI, there are at most as many as the first loop has counted, and
-- exactly as many I/O APICs as that has counted.
pub parse_table-fills :
    (version : ℕ → ℕ) (fuel : ℕ) (m : Bytes) (table : ℕ) (sources : ℕ → Option Source) (es : List ℕ)
    → Chain m (table + table_length m table) (table + 44) es
    → AllSound m es
    → length es < fuel
    → (n : Counts) × (q : Parsed) × (parse_table version fuel m table sources ≡ ok (n, q))
      × (map bare q.cores ≡ enabled m es)
      × (length q.cores ≤ n.core_num)
      × (length q.ioapics ≡ n.ioapic_num)
unfolding parse_table
parse_table-fills version fuel m table sources es chain sound enough =
    let end = table + table_length m table in
    let n₀ : Counts = record { core_num = 0; ioapic_num = 0 } in
    let p₀ : Parsed = record {
      cores = [];
      ioapics = [];
      sources = sources;
      lic_address = read32 m (table + 36);
    } in
    let counted =
      each_entry-run_all fuel m end (λ entry c. ok (count_entry m entry c)) (table + 44) es n₀ chain
        enough
      ∙ count-all m es n₀ in
    let (p, run, filled) = fill-all version m es p₀ sound in
    let filling =
      each_entry-run_all fuel m end (fill_entry version m) (table + 44) es p₀ chain enough ∙ run in
    let (q, ran, cores, apics) = nmi-all m es p in
    let marking =
      each_entry-run_all fuel m end (λ entry r. ok (nmi_entry m entry r)) (table + 44) es p chain
        enough
      ∙ ran in
    let same : map bare q.cores ≡ enabled m es =
      cores ∙ ap (map bare) filled.cores ∙ bare-enabled m es in
    let many : length q.cores ≡ length (enabled m es) =
      sym (length-map q.cores bare) ∙ ap length same in
    let n : Counts = record {
      core_num = 0 + count_kind (is_core m) es;
      ioapic_num = 0 + count_kind (is_ioapic m) es;
    } in
    (
      n,
      q,
      rw (counted, filling, marking) refl,
      same,
      omega (arith, many, length-enabled m es),
      ap length apics ∙ filled.ioapics,
    )
