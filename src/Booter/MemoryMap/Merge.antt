-- ===== src/Booter/MemoryMap/Merge.antt =====
-- How `add_entry` of loader/booter/memory/memmap.cpp joins overlapping ranges of the same type.
use reaveros_iteration.Common.{ℕ, ◌+◌, ◌-◌, ◌≤◌, ◌<◌, ◌≡◌, arith, ok}
use reaveros_iteration.Booter.MemoryMap.{
  MapEntry, MemoryMap, write_entry, same_type, examine, finish,
}
use reaveros_iteration.Booter.MemoryMap.Insertion.{Fits}

-- A range that begins inside an entry of its type and ends behind it does not lengthen the entry:
-- the entry loses as many bytes as lie before the new range, so the end of the new range is lost.
pub examine_overlap :
    (m : MemoryMap) (entry : MapEntry) (i : ℕ)
    → let e = m.entries i in
      Fits entry
      → Fits e
      → entry.type ≡ e.type
      → e.base < entry.base
      → entry.base ≤ e.base + e.length
      → e.base + e.length < entry.base + entry.length
      → let shorter = record e { length = e.length - (entry.base - e.base) } in
        (examine m entry i ≡ ok (finish (write_entry m i shorter)))
        × (shorter.base + shorter.length < entry.base + entry.length)
unfolding examine same_type
examine_overlap m entry i fits fits' same low inside behind = (ground arith, omega arith)
