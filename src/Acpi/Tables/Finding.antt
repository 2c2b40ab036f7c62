-- ===== src/Acpi/Tables/Finding.antt =====
-- What the searches of kernel/acpi/acpi.cpp find.
use reaveros_iteration.Common.{
  ℕ, zero, suc, ◌+◌, ◌*◌, ◌^◌, ◌≡◌, ◌≤◌, ◌<◌, ◌⊎◌, inl, inr, refl, sym, ap, subst, ◌∙◌, true, false,
  Option, none, some, Run, ok, panic, arith, Bool-cases, dec_lt, forall_from,
}
use reaveros_iteration.Utils.Raf.{Bytes, read64}
use reaveros_iteration.Acpi.Tables.{
  read16, read32, validate_rsdp, Signature, validate, Root, rsdt, xsdt, install_root, scan_rsdp,
  find_rsdp, find_entry, entry_count, find_table,
}

-- `found` is the first of the tables that `entry` leads to, from the index `i` up to `n`, that has
-- the signature and a checksum of zero, and is none where there is no such table.
abbrev pub IsFirst : Bytes → (ℕ → ℕ) → Signature → (i n : ℕ) → Option ℕ → Type 0
IsFirst m entry sign i n found =
    ((j : ℕ) × (i ≤ j)
      × (j < n)
      × (found ≡ some (entry j))
      × (validate m (entry j) sign ≡ true)
      × ((h : ℕ) → i ≤ h → h < j → validate m (entry h) sign ≡ false))
    ⊎ ((found ≡ none) × ((h : ℕ) → i ≤ h → h < n → validate m (entry h) sign ≡ false))

find_entry-IsFirst :
    (k : ℕ) (m : Bytes) (entry : ℕ → ℕ) (i : ℕ) (sign : Signature)
    → IsFirst m entry sign i (i + k) (find_entry k m entry i sign)
unfolding find_entry
find_entry-IsFirst zero m entry i sign = inr (refl, λ h lo hi. absurd (omega arith))
find_entry-IsFirst (suc k) m entry i sign = elim (Bool-cases (validate m (entry i) sign)) [
  | inl e ↦ inl (i, omega arith, omega arith, rw e refl, e, λ h lo hi. absurd (omega arith))
  | inr e ↦ elim (find_entry-IsFirst k m entry (i + 1) sign) [
    | inl (j, lo, hi, run, valid, before) ↦ inl (
      j,
      omega arith,
      omega arith,
      rw e run,
      valid,
      forall_from (λ (h : ℕ). validate m (entry h) sign ≡ false) i j e before,
    )
    | inr (run, all) ↦ inr (
      rw e run,
      forall_from (λ (h : ℕ). validate m (entry h) sign ≡ false) i (i + suc k) e
          (λ h lo hi. all h lo (omega arith)),
    )
  ]
]

-- the entry of a root table at an index, and the number of entries
abbrev pub entry_of : Bytes → Root → ℕ → ℕ
entry_of m (xsdt root) i = read64 m (root + 36 + 8 * i)
entry_of m (rsdt root) i = read32 m (root + 36 + 4 * i)

abbrev pub entries_of : Bytes → Root → ℕ
entries_of m (xsdt root) = entry_count m root 8
entries_of m (rsdt root) = entry_count m root 4

-- _find_table returns the first table with the signature and a good checksum, or null if there is none.
pub find_table-IsFirst :
    (m : Bytes) (root : Root) (sign : Signature)
    → IsFirst m (entry_of m root) sign 0 (entries_of m root) (find_table m root sign)
unfolding find_table
find_table-IsFirst m (xsdt root) sign =
    subst
      (λ (n : ℕ).
        IsFirst m (entry_of m (xsdt root)) sign 0 n
          (find_entry (entry_count m root 8) m (entry_of m (xsdt root)) 0 sign))
      (omega arith) (find_entry-IsFirst (entry_count m root 8) m (entry_of m (xsdt root)) 0 sign)
find_table-IsFirst m (rsdt root) sign =
    subst
      (λ (n : ℕ).
        IsFirst m (entry_of m (rsdt root)) sign 0 n
          (find_entry (entry_count m root 4) m (entry_of m (rsdt root)) 0 sign))
      (omega arith) (find_entry-IsFirst (entry_count m root 4) m (entry_of m (rsdt root)) 0 sign)

-- the first of the addresses `ptr`, `ptr + 16`, … below the end that holds an RSDP
abbrev pub IsFirstRsdp : Bytes → (ptr end : ℕ) → Option ℕ → Type 0
IsFirstRsdp m ptr end found =
    ((k : ℕ) × (ptr + 16 * k < end)
      × (found ≡ some (ptr + 16 * k))
      × (validate_rsdp m (ptr + 16 * k) ≡ true)
      × ((h : ℕ) → h < k → validate_rsdp m (ptr + 16 * h) ≡ false))
    ⊎ ((found ≡ none) × ((h : ℕ) → ptr + 16 * h < end → validate_rsdp m (ptr + 16 * h) ≡ false))

first_or_later :
    (m : Bytes) (ptr h : ℕ)
    → validate_rsdp m ptr ≡ false
    → ((g : ℕ) → h ≡ suc g → validate_rsdp m (ptr + 16 + 16 * g) ≡ false)
    → validate_rsdp m (ptr + 16 * h) ≡ false
first_or_later m ptr zero here later = let same : ptr + 16 * 0 ≡ ptr = omega arith in rw same here
first_or_later m ptr (suc g) here later =
    let same : ptr + 16 * suc g ≡ ptr + 16 + 16 * g = omega arith in rw same (later g refl)

scan_rsdp-first :
    (fuel : ℕ) (m : Bytes) (ptr end : ℕ)
    → 0 < fuel
    → end + 16 ≤ ptr + 16 * fuel
    → (found : Option ℕ) × (scan_rsdp fuel m ptr end ≡ ok found) × IsFirstRsdp m ptr end found
unfolding scan_rsdp
scan_rsdp-first zero m ptr end some_fuel enough = absurd (omega arith)
scan_rsdp-first (suc fuel) m ptr end some_fuel enough = elim (dec_lt ptr end) [
  | yes lt ↦ elim (Bool-cases (validate_rsdp m ptr)) [
    | inl e ↦
        let same : ptr + 16 * 0 ≡ ptr = omega arith in
        (
          some ptr,
          ground (arith, e, lt),
          inl (0, omega arith, ap some (sym same), rw same e, λ h hi. absurd (omega arith)),
        )
    | inr e ↦
        let (found, run, first) =
          scan_rsdp-first fuel m (ptr + 16) end (omega arith) (omega arith) in
        (
          found,
          ground (arith, e, run, lt),
          elim first [
            | inl (k, inside, at, valid, before) ↦
                let same : ptr + 16 * suc k ≡ ptr + 16 + 16 * k = omega arith in
                inl (
                  suc k,
                  omega arith,
                  at ∙ ap some (sym same),
                  rw same valid,
                  λ h hi. first_or_later m ptr h e (λ g eq. before g (omega arith)),
                )
            | inr (nothing, all) ↦
                inr (nothing, λ h hi. first_or_later m ptr h e (λ g eq. all g (omega arith)))
          ],
        )
  ]
  | no ge ↦ (none, ground (arith, ge), inr (refl, λ h hi. absurd (omega arith)))
]

-- the root that the two searches lead to
abbrev pub root_from : Bytes → (low high : Option ℕ) → Run Root
root_from m (some ptr) high = install_root m ptr
root_from m none (some ptr) = install_root m ptr
root_from m none none = panic

find_rsdp-scans :
    (fuel : ℕ) (m : Bytes) (low high : Option ℕ)
    → scan_rsdp fuel m (read16 m 0x40e * 2 ^ 4) (read16 m 0x40e * 2 ^ 4 + 1024) ≡ ok low
    → scan_rsdp fuel m 0xe0000 0x100000 ≡ ok high
    → find_rsdp fuel m ≡ root_from m low high
unfolding find_rsdp
find_rsdp-scans fuel m (some ptr) high run run' = rw run refl
find_rsdp-scans fuel m none (some ptr) run run' = rw (run, run') refl
find_rsdp-scans fuel m none none run run' = rw (run, run') refl

-- _find_rsdp ends, and the root is the one that the first valid RSDP leads to, at a multiple of 16
-- bytes in the kilobyte of the segment at 0x40e or, where that has none, from 0xe0000 up to
-- 0x100000; where neither has one it panics.
pub find_rsdp-first :
    (fuel : ℕ) (m : Bytes)
    → 8192 < fuel
    → (low high : Option ℕ) × IsFirstRsdp m
        (read16 m 0x40e * 2 ^ 4)
        (read16 m 0x40e * 2 ^ 4 + 1024)
        low
      × IsFirstRsdp m 0xe0000 0x100000 high
      × (find_rsdp fuel m ≡ root_from m low high)
find_rsdp-first fuel m enough =
    let (low, run, first) =
      scan_rsdp-first fuel m (read16 m 0x40e * 2 ^ 4) (read16 m 0x40e * 2 ^ 4 + 1024) (omega arith)
        (omega arith) in
    let (high, run', first') =
      scan_rsdp-first fuel m 0xe0000 0x100000 (omega arith) (omega arith) in
    (low, high, first, first', find_rsdp-scans fuel m low high run run')
