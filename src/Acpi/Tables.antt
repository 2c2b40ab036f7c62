-- ===== src/Acpi/Tables.antt =====
-- The ACPI tables of kernel/acpi/tables.h, and how kernel/acpi/acpi.cpp finds them. A table is read
-- at its physical address: the mapping of its pages is not modelled.
pub mod Finding
use reaveros_iteration.Common.{
  ℕ, zero, suc, ◌+◌, ◌-◌, ◌*◌, ◌/◌, ◌%◌, ◌^◌, Bool, true, false, not, ◌&&◌, Option, none, some, Run,
  ok, panic, out_of_fuel, ◌>>=◌, ◌==◌, ltb, if◌then◌else◌,
}
use reaveros_iteration.Utils.Raf.{Bytes, read64}

abbrev pub read16 : Bytes → ℕ → ℕ
read16 m a = m a + m (a + 1) * 2 ^ 8

abbrev pub read32 : Bytes → ℕ → ℕ
read32 m a = m a + m (a + 1) * 2 ^ 8 + m (a + 2) * 2 ^ 16 + m (a + 3) * 2 ^ 24

-- the sum of `rounds` bytes in a `uint8_t`
unfoldable pub sum_bytes : (rounds : ℕ) → Bytes → (at sum : ℕ) → ℕ
sum_bytes zero m at sum = sum
sum_bytes (suc k) m at sum = sum_bytes k m (at + 1) ((sum + m at) % 256)

-- `rsdp::validate`: the signature is "RSD PTR ", and `sizeof(rsdp)` is 36
unfoldable pub validate_rsdp : Bytes → ℕ → Bool
unfolding sum_bytes
validate_rsdp m p =
    if m p == 0x52
      && (m (p + 1) == 0x53
          && (m (p + 2) == 0x44
              && (m (p + 3) == 0x20
                  && (m (p + 4) == 0x50
                      && (m (p + 5) == 0x54 && (m (p + 6) == 0x52 && m (p + 7) == 0x20))))))
    then sum_bytes 36 m p 0 == 0
    else false

-- the four characters of a signature
pub record Signature : Type 0 where
  pub first : ℕ
  pub second : ℕ
  pub third : ℕ
  pub fourth : ℕ

abbrev pub table_length : Bytes → ℕ → ℕ
table_length m table = read32 m (table + 4)

-- `description_table_header::validate`
unfoldable pub validate : Bytes → ℕ → Signature → Bool
unfolding sum_bytes
validate m table sign =
    if m table == sign.first
      && (m (table + 1) == sign.second
          && (m (table + 2) == sign.third && m (table + 3) == sign.fourth))
    then sum_bytes (table_length m table) m table 0 == 0
    else false

-- `root` and `new_root`
pub data Root : Type 0 where
  rsdt : ℕ → Root
  xsdt : ℕ → Root

abbrev pub rsdt_sign : Signature
rsdt_sign = record { first = 0x52; second = 0x53; third = 0x44; fourth = 0x54 }

abbrev pub xsdt_sign : Signature
xsdt_sign = record { first = 0x58; second = 0x53; third = 0x44; fourth = 0x54 }

unfoldable pub install_rsdt : Bytes → ℕ → Run Root
unfolding validate
install_rsdt m ptr =
    if validate m (read32 m (ptr + 16)) rsdt_sign then ok (rsdt (read32 m (ptr + 16))) else panic

unfoldable pub install_xsdt : Bytes → ℕ → Run Root
unfolding validate install_rsdt
install_xsdt m ptr =
    if validate m (read64 m (ptr + 24)) xsdt_sign
    then ok (xsdt (read64 m (ptr + 24)))
    else install_rsdt m ptr

unfoldable pub install_root : Bytes → ℕ → Run Root
unfolding install_xsdt install_rsdt
install_root m ptr = if not (m (ptr + 15) == 0) then install_xsdt m ptr else install_rsdt m ptr

-- `while (ptr < end)`, 16 bytes at a time
unfoldable pub scan_rsdp : (fuel : ℕ) → Bytes → (ptr end : ℕ) → Run (Option ℕ)
unfolding validate_rsdp
scan_rsdp zero m ptr end = out_of_fuel
scan_rsdp (suc fuel) m ptr end =
    let rest = scan_rsdp fuel m (ptr + 16) end in
    if ltb ptr end then (if validate_rsdp m ptr then ok (some ptr) else rest) else ok none

-- `_find_rsdp`, with the segment of the extended BIOS data area at 0x40e
unfoldable pub find_rsdp : (fuel : ℕ) → Bytes → Run Root
unfolding scan_rsdp install_root
find_rsdp fuel m = do
  let ebda = read16 m 0x40e * 2 ^ 4
  low ← scan_rsdp fuel m ebda (ebda + 1024)
  elim low [
    | some ptr ↦ install_root m ptr
    | none ↦ scan_rsdp fuel m 0xe0000 0x100000 >>= λ high. elim high [
      | some ptr ↦ install_root m ptr
      | none ↦ panic
    ]
  ]

-- the two loops of `_find_table`, by rounds left
unfoldable pub find_entry : (rounds : ℕ) → Bytes → (ℕ → ℕ) → (i : ℕ) → Signature → Option ℕ
unfolding validate
find_entry zero m entry i sign = none
find_entry (suc k) m entry i sign =
    let rest = find_entry k m entry (i + 1) sign in
    if validate m (entry i) sign then some (entry i) else rest

-- `length` is a `uint32_t`, so that the subtraction wraps around in 32 bits.
abbrev pub entry_count : Bytes → (table size : ℕ) → ℕ
entry_count m table size = (table_length m table + 2 ^ 32 - 36) % 2 ^ 32 / size

unfoldable pub find_table : Bytes → Root → Signature → Option ℕ
unfolding find_entry
find_table m (xsdt root) sign =
    find_entry (entry_count m root 8) m (λ i. read64 m (root + 36 + 8 * i)) 0 sign
find_table m (rsdt root) sign =
    find_entry (entry_count m root 4) m (λ i. read32 m (root + 36 + 4 * i)) 0 sign
