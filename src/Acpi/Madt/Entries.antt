-- ===== src/Acpi/Madt/Entries.antt =====
-- What `parse_madt` of kernel/acpi/acpi.cpp makes of the entries of a MADT.
use mathlib.Core.List.{append-nil}
use reaveros_iteration.Common.{
  ℕ, zero, suc, ◌+◌, ◌/◌, ◌%◌, ◌≡◌, ◌≢◌, ◌≤◌, ◌<◌, refl, ◌∙◌, Bool, true, false, ◌||◌, none, some,
  List, [], ◌∷◌, ◌++◌, Run, ok, panic, fault, out_of_fuel, ◌>>=◌, ◌==◌, ltb, leb, if◌then◌else◌,
  length, length-append, arith, ℕ_discrete,
}
use reaveros_iteration.Utils.Raf.{Bytes}
use reaveros_iteration.Acpi.Tables.{read16, read32}
use reaveros_iteration.Acpi.Madt.{
  Core, Ioapic, Parsed, each_entry, Counts, count_entry, set_first_nmi, fill_nmi, fill_override,
  lapic_core, x2apic_core, new_ioapic, fill_other, fill_entry,
}

-- The entries from `at` on stand at the addresses of the list, and the last reaches the end.
abbrev pub Chain : Bytes → (end at : ℕ) → List ℕ → Type 0
Chain m end at [] = end ≤ at
Chain m end at (e ∷ es) = (e ≡ at) × (at < end) × Chain m end (at + m (at + 1)) es

module _ {ℓ} {S : Type ℓ} where
  -- a body run on each of some entries
  unfoldable pub run_all : (ℕ → S → Run S) → List ℕ → S → Run S
  run_all body [] s = ok s
  run_all body (e ∷ es) s = body e s >>= run_all body es

  then_same : (r : Run S) (f g : S → Run S) → ((s : S) → f s ≡ g s) → (r >>= f) ≡ (r >>= g)
  then_same (ok s) f g same = same s
  then_same panic f g same = refl
  then_same fault f g same = refl
  then_same out_of_fuel f g same = refl

  pub each_entry-run_all :
      (fuel : ℕ) (m : Bytes) (end : ℕ) (body : ℕ → S → Run S) (at : ℕ) (es : List ℕ) (s : S)
      → Chain m end at es
      → length es < fuel
      → each_entry fuel m end body at s ≡ run_all body es s
  unfolding each_entry run_all
  each_entry-run_all zero m end body at es s c f = absurd (omega arith)
  each_entry-run_all (suc fuel) m end body at [] s c f = ground arith
  each_entry-run_all (suc fuel) m end body at (e ∷ es) s (here, lt, c) f =
      let test : ltb at end ≡ true = ground arith in
      rw (test, here)
        (then_same (body at s) _ _
          (λ s'. each_entry-run_all fuel m end body (at + m (at + 1)) es s' c (omega arith)))

-- how many entries are of a kind
abbrev pub count_kind : (ℕ → Bool) → List ℕ → ℕ
count_kind kind [] = 0
count_kind kind (e ∷ es) = (if kind e then 1 else 0) + count_kind kind es

abbrev pub is_core : Bytes → ℕ → Bool
is_core m e = m e == 0 || m e == 9

abbrev pub is_ioapic : Bytes → ℕ → Bool
is_ioapic m e = m e == 1

-- the cores of the enabled entries, in the order of the table
abbrev pub added : Bytes → ℕ → List Core
added m e = if m e == 0 then lapic_core m e else (if m e == 9 then x2apic_core m e else [])

abbrev pub enabled : Bytes → List ℕ → List Core
enabled m [] = []
enabled m (e ∷ es) = added m e ++ enabled m es

-- a core without its NMI
abbrev pub bare : Core → Core
bare c = record c { nmi = none }

-- An override names one of the 128 sources, and its flags are not reserved.
abbrev pub AllSound : Bytes → List ℕ → Type 0
AllSound m [] = Unit
AllSound m (e ∷ es) =
    (m e ≡ 2 → (m (e + 3) < 128) × (read16 m (e + 8) % 4 ≢ 2) × (read16 m (e + 8) / 4 % 4 ≢ 2))
    × AllSound m es

pub count-all :
    (m : Bytes) (es : List ℕ) (n : Counts)
    → run_all (λ entry c. ok (count_entry m entry c)) es n
      ≡ ok (record {
        core_num = n.core_num + count_kind (is_core m) es;
        ioapic_num = n.ioapic_num + count_kind (is_ioapic m) es;
      })
unfolding run_all count_entry
count-all m [] n = ground arith
count-all m (e ∷ es) n = count-all m es (count_entry m e n) ∙ ground arith

length-set_first_nmi :
    (vector flags : ℕ) (apics : List Ioapic)
    → length (set_first_nmi vector flags apics) ≡ length apics
unfolding set_first_nmi
length-set_first_nmi vector flags [] = refl
length-set_first_nmi vector flags (a ∷ apics) =
    ground (arith, length-set_first_nmi vector flags apics)

-- what one entry adds
pub record IsFilled (m : Bytes) (e : ℕ) (p q : Parsed) : Type 0 where
  pub cores : q.cores ≡ p.cores ++ added m e
  pub ioapics : length q.ioapics ≡ length p.ioapics + (if is_ioapic m e then 1 else 0)

pub fill_override-ok :
    (m : Bytes) (e : ℕ) (p : Parsed)
    → AllSound m (e ∷ [])
    → m e ≡ 2
    → (q : Parsed) × (fill_override m e p ≡ ok q) × (q.cores ≡ p.cores) × (q.ioapics ≡ p.ioapics)
unfolding fill_override
fill_override-ok m e p (sound, rest) two =
    let (low, polarity, trigger) = sound two in
    let test : leb 128 (m (e + 3)) ≡ false = ground (arith, low) in
    let tests : (read16 m (e + 8) % 4 == 2 || read16 m (e + 8) / 4 % 4 == 2) ≡ false =
      ground (arith, polarity, trigger) in
    let q : Parsed = record p {
      sources = λ i.
          if i == m (e + 3)
          then some (record { global_vector = read32 m (e + 4); flags = read16 m (e + 8) })
          else p.sources i;
    } in
    (q, rw (test, tests) refl, refl, refl)

fill_other-IsFilled :
    (version : ℕ → ℕ) (m : Bytes) (e : ℕ) (p : Parsed)
    → m e ≢ 2
    → IsFilled m e p (fill_other version m e p)
unfolding fill_other fill_nmi new_ioapic
fill_other-IsFilled version m e p ne = record {
  cores = ground (arith, ne, append-nil p.cores);
  ioapics = ground (
    arith,
    ne,
    length-append p.ioapics (new_ioapic version m e ∷ []),
    length-set_first_nmi (read32 m (e + 4)) (read16 m (e + 2)) p.ioapics,
  );
}

pub fill_entry-IsFilled :
    (version : ℕ → ℕ) (m : Bytes) (e : ℕ) (p : Parsed)
    → AllSound m (e ∷ [])
    → (q : Parsed) × (fill_entry version m e p ≡ ok q) × IsFilled m e p q
unfolding fill_entry fill_nmi
fill_entry-IsFilled version m e p sound = elim (ℕ_discrete (m e) 2) [
  | yes two ↦
      let (q, run, cores, apics) = fill_override-ok m e p sound two in
      (
        fill_nmi m e q,
        rw (two, run) refl,
        record {
          cores = ground (arith, two, cores, append-nil p.cores);
          ioapics = ground (
            arith,
            two,
            apics,
            length-set_first_nmi (read32 m (e + 4)) (read16 m (e + 2)) q.ioapics,
          );
        },
      )
  | no ne ↦ (fill_other version m e p, ground (arith, ne), fill_other-IsFilled version m e p ne)
]
