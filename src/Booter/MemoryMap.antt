-- ===== src/Booter/MemoryMap.antt =====
-- `memory::map` of loader/booter/memory/memmap.{h,cpp}: the entries of the memory map, a fixed
-- array with a count. Addresses and lengths are 64 bits wide and wrap around.
pub mod Lookup
pub mod Insertion
pub mod Merge
use reaveros_iteration.Common.{
  ℕ, zero, suc, ◌+◌, ◌-◌, ◌*◌, ◌%◌, ◌^◌, Bool, true, false, not, ◌&&◌, ◌||◌, Option, none, some,
  List, [], ◌∷◌, Run, ok, panic, out_of_fuel, ◌>>=◌, ◌==◌, ltb, leb, if◌then◌else◌, add64, sub64,
}

pub record MapEntry : Type 0 where
  pub base : ℕ
  pub length : ℕ
  pub type : ℕ
  pub extended_attribs : ℕ

abbrev pub no_entry : MapEntry
no_entry = record { base = 0; length = 0; type = 0; extended_attribs = 0 }

-- `_entries` and `_num_entries`; what stands behind the count may be left over
pub record MemoryMap : Type 0 where
  pub entries : ℕ → MapEntry
  pub count : ℕ

-- `base + length`
abbrev pub end_of : MapEntry → ℕ
end_of e = add64 e.base e.length

-- the loop of `usable`, with the rounds that are left
unfoldable pub usable_from : ℕ → ℕ → MemoryMap → ℕ → Bool
usable_from zero i m addr = false
usable_from (suc k) i m addr =
    let e = m.entries i in
    elim (leb e.base addr && ltb addr (end_of e)) [
      | true ↦ e.type == 1
      | false ↦ usable_from k (suc i) m addr
    ]

unfoldable pub usable : MemoryMap → ℕ → Bool
unfolding usable_from
usable m = usable_from m.count 0 m

-- the loop of `next_usable`; the result is the index of the entry
unfoldable pub next_usable_from : ℕ → ℕ → MemoryMap → ℕ → Option ℕ
next_usable_from zero i m addr = none
next_usable_from (suc k) i m addr =
    let e = m.entries i in
    elim (ltb addr e.base && (e.type == 1)) [
      | true ↦ some i
      | false ↦ next_usable_from k (suc i) m addr
    ]

unfoldable pub next_usable : MemoryMap → ℕ → Option ℕ
unfolding next_usable_from
next_usable m = next_usable_from m.count 0 m

abbrev pub write_entry : MemoryMap → ℕ → MapEntry → MemoryMap
write_entry m i e = record m { entries = λ j. if i == j then e else m.entries j }

-- `for (j = _num_entries; j > i; --j) _entries[j] = _entries[j - 1];`, by the rounds that are left
unfoldable pub shift_up : ℕ → ℕ → MemoryMap → MemoryMap
shift_up zero j m = m
shift_up (suc k) j m = shift_up k (j - 1) (write_entry m j (m.entries (j - 1)))

unfoldable pub expand : MemoryMap → ℕ → Run MemoryMap
unfolding shift_up
expand m i =
    if leb m.count i
    then panic
    else if leb 512 (m.count + 1)
    then panic
    else let m' = shift_up (m.count - i) m.count m in ok (record m' { count = m'.count + 1 })

-- `for (; i < _num_entries - 1; ++i) _entries[i] = _entries[i + 1];`
unfoldable pub shift_down : ℕ → ℕ → MemoryMap → MemoryMap
shift_down zero i m = m
shift_down (suc k) i m = shift_down k (i + 1) (write_entry m i (m.entries (i + 1)))

unfoldable pub shrink : MemoryMap → ℕ → Run MemoryMap
unfolding shift_down
shrink m i =
    if leb m.count i
    then panic
    else let m' = shift_down (m.count - 1 - i) i m in ok (record m' { count = m'.count - 1 })

-- What one round of the first loop of `add_entry` comes to: nothing, a return, or calls of
-- `add_entry` before a return.
pub data Verdict : Type 0 where
  pass : Verdict
  finish : MemoryMap → Verdict
  again : MemoryMap → List MapEntry → Verdict

-- the tests for an entry of the same type
unfoldable pub same_type : MemoryMap → MapEntry → ℕ → Option MemoryMap
same_type m entry i =
    let e = m.entries i in
    if leb e.base entry.base && leb (end_of entry) (end_of e)
    then some m
    else if leb entry.base (end_of e) && leb (end_of e) (end_of entry)
    then some (write_entry m i (record e { length = add64 e.length (sub64 e.base entry.base) }))
    else if leb e.base (end_of entry) && leb (end_of entry) (end_of e)
    then some
        (write_entry m i (record e { base = entry.base; length = sub64 (end_of e) entry.base }))
    else none

-- the entry lies within the entry `i`, which is split
unfoldable pub split : MemoryMap → MapEntry → ℕ → Run Verdict
unfolding shrink
split m entry i =
    let e = m.entries i in
    if ltb entry.type e.type
    then ok (finish m)
    else let other : MapEntry = record {
      base = end_of entry;
      length = sub64 (end_of e) (end_of entry);
      type = e.type;
      extended_attribs = 0;
    } in
      let another : MapEntry = record {
        base = e.base;
        length = sub64 entry.base e.base;
        type = e.type;
        extended_attribs = 0;
      } in
      shrink m i >>= λ m'. ok (again m' (other ∷ another ∷ entry ∷ []))

-- the entry begins before the entry `i` and ends in it
unfoldable pub overlap : MemoryMap → MapEntry → ℕ → Verdict
overlap m entry i =
    let e = m.entries i in
    if ltb e.type entry.type
    then (let base' = end_of entry in
        again
          (write_entry m i
            (record e { base = base'; length = sub64 e.length (sub64 e.base base') }))
          (entry ∷ []))
    else again m (record entry { length = sub64 e.base entry.base } ∷ [])

unfoldable pub examine : MemoryMap → MapEntry → ℕ → Run Verdict
unfolding same_type split overlap
examine m entry i =
    let e = m.entries i in
    elim (if entry.type == e.type then same_type m entry i else none) [
      | some m' ↦ ok (finish m')
      | none ↦
          if ltb entry.base e.base && ltb (end_of e) (end_of entry)
          then ok (finish m)
          else if leb e.base entry.base && leb (end_of entry) (end_of e)
          then split m entry i
          else if ltb e.base entry.base
              && (ltb entry.base (end_of e) && ltb (end_of e) (end_of entry))
          then ok (finish m)
          else if ltb entry.base e.base
              && (ltb e.base (end_of entry) && ltb (end_of entry) (end_of e))
          then ok (overlap m entry i)
          else ok pass
    ]

-- the first loop, with the rounds that are left
unfoldable pub scan : ℕ → ℕ → MemoryMap → MapEntry → Run Verdict
unfolding examine
scan zero i m entry = ok pass
scan (suc k) i m entry = examine m entry i >>= λ v. elim v [
  | pass ↦ scan k (suc i) m entry
  | finish m' ↦ ok (finish m')
  | again m' es ↦ ok (again m' es)
]

-- the test of the second loop
abbrev pub goes_before : MemoryMap → MapEntry → ℕ → Bool
goes_before m entry i =
    if i == 0
    then ltb entry.base (m.entries 0).base
    else ltb (m.entries (i - 1)).base entry.base && ltb entry.base (m.entries i).base

-- the second loop, with the rounds that are left, and the write behind it, which is not guarded
unfoldable pub insert_from : ℕ → ℕ → MemoryMap → MapEntry → Run MemoryMap
unfolding expand
insert_from zero i m entry = ok (record (write_entry m m.count entry) { count = m.count + 1 })
insert_from (suc k) i m entry = elim (goes_before m entry i) [
  | true ↦ expand m i >>= λ m'. ok (write_entry m' i entry)
  | false ↦ insert_from k (suc i) m entry
]

-- `add_entry(other); add_entry(another); add_entry(entry);`, for a given `add_entry`
unfoldable pub add_all :
    (MemoryMap → MapEntry → Run MemoryMap) → List MapEntry → MemoryMap → Run MemoryMap
add_all add [] m = ok m
add_all add (e ∷ es) m = add m e >>= λ m'. add_all add es m'

-- `add_entry`; the fuel bounds the depth of its calls of itself
unfoldable pub add_entry : ℕ → MemoryMap → MapEntry → Run MemoryMap
unfolding scan insert_from add_all
add_entry zero m entry = out_of_fuel
add_entry (suc fuel) m entry =
    if entry.length == 0
    then ok m
    else if m.count == 0
    then ok (record (write_entry m 0 entry) { count = 1 })
    else (scan m.count 0 m entry >>= λ v. elim v [
      | pass ↦ insert_from m.count 0 m entry
      | finish m' ↦ ok m'
      | again m' es ↦ add_all (λ n e. add_entry fuel n e) es m'
    ])

-- The loop of `find_last_usable` from the index `i` down to 0. An entry of exactly the wanted
-- length is returned and left as it is; a longer one is shortened.
unfoldable pub try_last : MemoryMap → ℕ → ℕ → Option (ℕ × MemoryMap)
try_last m size i =
    let e = m.entries i in
    if ltb (0xFFFF_FFFF - size) e.base || not (e.type == 1)
    then none
    else if e.length == size
    then some (e.base % 2 ^ 32, m)
    else if ltb size e.length
    then some (
      add64 e.base (sub64 e.length size) % 2 ^ 32,
      write_entry m i (record e { length = sub64 e.length size }),
    )
    else none

unfoldable pub find_last_from : ℕ → MemoryMap → ℕ → Run (ℕ × MemoryMap)
unfolding try_last
find_last_from zero m size = elim (try_last m size 0) [ some r ↦ ok r | none ↦ panic ]
find_last_from (suc i) m size = elim (try_last m size (suc i)) [
  | some r ↦ ok r
  | none ↦ find_last_from i m size
]

-- `size += 4096 - size % 4096`, on 32 bits
abbrev pub grow_to_page : ℕ → ℕ
grow_to_page size = (size + (4096 - size % 4096)) % 2 ^ 32

-- The search begins at the index behind the last entry.
unfoldable pub find_last_usable : MemoryMap → ℕ → Run (ℕ × MemoryMap)
unfolding find_last_from
find_last_usable m size = find_last_from m.count m (grow_to_page size)

-- `allocate_empty_entry`: the new entry has the index `i`, and the old one moves behind it
unfoldable pub allocate_empty_entry : MemoryMap → ℕ → Run MemoryMap
unfolding expand
allocate_empty_entry m i = expand m i >>= λ m'. ok (
    write_entry m' i (record (m'.entries i) {
      base = (m'.entries (i + 1)).base;
      length = 0;
      extended_attribs = 0;
    }))

-- the loop of `memory::initialize` of loader/booter/memory/memory.cpp
unfoldable pub load_entries : ℕ → List MapEntry → MemoryMap → Run MemoryMap
unfolding add_entry
load_entries fuel [] m = ok m
load_entries fuel (e ∷ es) m =
    add_entry fuel m (if ltb 1 e.type then record e { type = (e.type + 4) % 2 ^ 32 } else e)
    >>= λ m'. load_entries fuel es m'
