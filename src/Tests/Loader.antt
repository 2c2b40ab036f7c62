-- ===== src/Tests/Loader.antt =====
-- Memory maps of loader/booter/memory/memmap.cpp with one and two entries.
use reaveros_iteration.Common.{
  ℕ, ◌≡◌, ◌≤◌, ◌<◌, inl, inr, refl, true, arith, ℕ_discrete, ok, ◌==◌, if◌then◌else◌,
}
use reaveros_iteration.Booter.MemoryMap.{
  MapEntry, MemoryMap, no_entry, usable, write_entry, add_entry, find_last_usable, grow_to_page,
}
use reaveros_iteration.Booter.MemoryMap.Lookup.{Carves, Fits as MapFits, find_last_usable-Carves}
use reaveros_iteration.Booter.MemoryMap.Insertion.{
  Fits, Inserts, IsSorted, IsAway, add_entry-IsSorted,
}

abbrev region : ℕ → ℕ → ℕ → MapEntry
region base length type = record { base = base; length = length; type = type; extended_attribs = 0 }

abbrev low_and_high : MemoryMap
low_and_high = record {
  entries = λ i.
      if i == 0 then region 0 0xA0000 2 else if i == 1 then region 0x100000 0x10000 1 else no_entry;
  count = 2;
}

usable_runs : usable low_and_high 0x100010 ≡ true
unfolding usable
usable_runs = refl

low_and_high-Fits : (j : ℕ) → MapFits low_and_high j
low_and_high-Fits j = ground arith

shortened :
    find_last_usable low_and_high 0x1800
    ≡ ok (0x10E000, write_entry low_and_high 1 (region 0x100000 0xE000 1))
unfolding find_last_usable
shortened = refl

find_last_usable-Carves_example :
    (j : ℕ) × (j ≤ 2)
    × Carves low_and_high
        (grow_to_page 0x1800)
        0x10E000
        (write_entry low_and_high 1 (region 0x100000 0xE000 1))
        j
find_last_usable-Carves_example =
    find_last_usable-Carves low_and_high (write_entry low_and_high 1 (region 0x100000 0xE000 1))
      0x1800 0x10E000 shortened low_and_high-Fits

all_of_it : find_last_usable low_and_high 0xF800 ≡ ok (0x100000, low_and_high)
unfolding find_last_usable
all_of_it = refl

low_and_high-IsSorted : IsSorted low_and_high
low_and_high-IsSorted g h l k = ground arith

abbrev hole : MapEntry
hole = region 0xB0000 0x8000 3

apart : (h : ℕ) → h < 2 → Fits (low_and_high.entries h) × IsAway hole (low_and_high.entries h)
apart h l = elim (ℕ_discrete h 0) [
  | yes e ↦ (ground arith, inr (ground arith))
  | no ne ↦ (ground arith, inl (ground arith))
]

add_entry-IsSorted_example :
    (m' : MemoryMap) × (p : ℕ) × (add_entry 1 low_and_high hole ≡ ok m')
    × (p ≤ 2)
    × Inserts low_and_high hole p m'
    × IsSorted m'
add_entry-IsSorted_example =
    add_entry-IsSorted 0 low_and_high hole (omega arith) (omega arith) low_and_high-IsSorted
      (omega arith, omega arith) apart
