-- ===== src/Booter/MemoryMap/Lookup.antt =====
-- What `usable`, `next_usable` and `find_last_usable` of loader/booter/memory/memmap.cpp find.
use reaveros_iteration.Common.{
  ℕ, zero, suc, ◌+◌, ◌-◌, ◌≤◌, ◌<◌, ◌%◌, ◌^◌, ◌≡◌, ◌⊎◌, inl, inr, refl, sym, subst, false, ◌&&◌,
  none, some, arith, ok, ◌==◌, ltb, leb, Bool-cases, Option-cases, forall_from,
}
use reaveros_iteration.Booter.MemoryMap.{
  MapEntry, MemoryMap, end_of, usable_from, usable, next_usable_from, next_usable, find_last_from,
  try_last, write_entry, find_last_usable, grow_to_page,
}

-- the address lies in the entry
abbrev pub Covers : MapEntry → ℕ → Type 0
Covers e addr = (e.base ≤ addr) × (addr < end_of e)

-- the first entry from `i` on, of `k`, that covers the address
abbrev pub FirstCover : MemoryMap → ℕ → ℕ → ℕ → ℕ → Type 0
FirstCover m i k addr j =
    (i ≤ j)
    × (j < i + k)
    × Covers (m.entries j) addr
    × ((h : ℕ) → i ≤ h → h < j → ¬ Covers (m.entries h) addr)

usable_from_lem :
    (k i : ℕ) (m : MemoryMap) (addr : ℕ)
    → ((usable_from k i m addr ≡ false)
        × ((h : ℕ) → i ≤ h → h < i + k → ¬ Covers (m.entries h) addr))
      ⊎ ((j : ℕ) × FirstCover m i k addr j × (usable_from k i m addr ≡ ((m.entries j).type == 1)))
unfolding usable_from
usable_from_lem zero i m addr = inl (refl, λ h lo hi. absurd (omega arith))
usable_from_lem (suc k) i m addr =
    elim (Bool-cases (leb (m.entries i).base addr && ltb addr (end_of (m.entries i)))) [
      | inl here ↦
          let covers : Covers (m.entries i) addr = (ground arith, ground arith) in
          inr (i, (omega arith, omega arith, covers, λ h lo hi. absurd (omega arith)), ground arith)
      | inr away ↦
          let out : ¬ Covers (m.entries i) addr = λ c. ground (arith, c.0, c.1) in
          elim (usable_from_lem k (suc i) m addr) [
            | inl (none_found, others) ↦ inl (
              ground (arith, none_found),
              forall_from (λ h. ¬ Covers (m.entries h) addr) i (i + suc k) out
                  (λ h lo hi. others h (omega arith) (omega arith)),
            )
            | inr (j, (lo, hi, covers, first), e) ↦ inr (
              j,
              (
                omega arith,
                omega arith,
                covers,
                forall_from (λ h. ¬ Covers (m.entries h) addr) i j out
                    (λ h lo' hi'. first h (omega arith) hi'),
              ),
              ground (arith, e),
            )
          ]
    ]

-- `usable` is decided by the first entry that covers the address, and fails where none does.
pub usable_lem :
    (m : MemoryMap) (addr : ℕ)
    → ((usable m addr ≡ false) × ((h : ℕ) → h < m.count → ¬ Covers (m.entries h) addr))
      ⊎ ((j : ℕ) × FirstCover m 0 m.count addr j × (usable m addr ≡ ((m.entries j).type == 1)))
unfolding usable
usable_lem m addr = elim (usable_from_lem m.count 0 m addr) [
  | inl (e, out) ↦ inl (e, λ h hi. out h (omega arith) (omega arith))
  | inr found ↦ inr found
]

-- an entry of free memory that begins above the address
abbrev pub IsAbove : MapEntry → ℕ → Type 0
IsAbove e addr = (addr < e.base) × (e.type ≡ 1)

next_usable_from_lem :
    (k i : ℕ) (m : MemoryMap) (addr : ℕ)
    → ((next_usable_from k i m addr ≡ none)
        × ((h : ℕ) → i ≤ h → h < i + k → ¬ IsAbove (m.entries h) addr))
      ⊎ ((j : ℕ) × (next_usable_from k i m addr ≡ some j)
          × (i ≤ j)
          × (j < i + k)
          × IsAbove (m.entries j) addr
          × ((h : ℕ) → i ≤ h → h < j → ¬ IsAbove (m.entries h) addr))
unfolding next_usable_from
next_usable_from_lem zero i m addr = inl (refl, λ h lo hi. absurd (omega arith))
next_usable_from_lem (suc k) i m addr =
    elim (Bool-cases (ltb addr (m.entries i).base && ((m.entries i).type == 1))) [
      | inl here ↦
          let above : IsAbove (m.entries i) addr = (ground arith, ground arith) in
          inr (i, ground arith, omega arith, omega arith, above, λ h lo hi. absurd (omega arith))
      | inr away ↦
          let out : ¬ IsAbove (m.entries i) addr = λ c. ground (arith, c.0, c.1) in
          elim (next_usable_from_lem k (suc i) m addr) [
            | inl (none_found, others) ↦ inl (
              ground (arith, none_found),
              forall_from (λ h. ¬ IsAbove (m.entries h) addr) i (i + suc k) out
                  (λ h lo hi. others h (omega arith) (omega arith)),
            )
            | inr (j, e, lo, hi, above, first) ↦ inr (
              j,
              ground (arith, e),
              omega arith,
              omega arith,
              above,
              forall_from (λ h. ¬ IsAbove (m.entries h) addr) i j out
                  (λ h lo' hi'. first h (omega arith) hi'),
            )
          ]
    ]

-- `next_usable` finds the first entry of free memory above the address, or that there is none.
pub next_usable_lem :
    (m : MemoryMap) (addr : ℕ)
    → ((next_usable m addr ≡ none) × ((h : ℕ) → h < m.count → ¬ IsAbove (m.entries h) addr))
      ⊎ ((j : ℕ) × (next_usable m addr ≡ some j)
          × (j < m.count)
          × IsAbove (m.entries j) addr
          × ((h : ℕ) → h < j → ¬ IsAbove (m.entries h) addr))
unfolding next_usable
next_usable_lem m addr = elim (next_usable_from_lem m.count 0 m addr) [
  | inl (e, out) ↦ inl (e, λ h hi. out h (omega arith) (omega arith))
  | inr (j, e, lo, hi, above, first) ↦
      inr (j, e, omega arith, above, λ h hi'. first h (omega arith) hi')
]

-- `size` bytes at the end of the entry `j`, which is free memory below 4 GiB; the entry is shortened
-- by them, unless they are all of it: then it stays
abbrev pub Carves : MemoryMap → ℕ → ℕ → MemoryMap → ℕ → Type 0
Carves m size base m' j =
    let e = m.entries j in
    (e.type ≡ 1)
    × (e.base + size ≤ 0xFFFF_FFFF)
    × (size ≤ e.length)
    × (base ≡ (e.base + (e.length - size)) % 2 ^ 32)
    × (((size ≡ e.length) × (m' ≡ m))
        ⊎ ((size < e.length) × (m' ≡ write_entry m j (record e { length = e.length - size }))))

abbrev pub Fits : MemoryMap → ℕ → Type 0
Fits m j = (m.entries j).base + (m.entries j).length < 2 ^ 64

try_last-Carves :
    (m : MemoryMap) (size i base : ℕ) (m' : MemoryMap)
    → try_last m size i ≡ some (base, m')
    → size ≤ 0xFFFF_FFFF
    → Fits m i
    → Carves m size base m' i
unfolding try_last
try_last-Carves m size i base m' h small fits = ground arith

find_last_from_lem :
    (i : ℕ) (m m' : MemoryMap) (size base : ℕ)
    → find_last_from i m size ≡ ok (base, m')
    → size ≤ 0xFFFF_FFFF
    → ((j : ℕ) → Fits m j)
    → (j : ℕ) × (j ≤ i) × Carves m size base m' j
unfolding find_last_from
find_last_from_lem zero m m' size base h small fits = elim (Option-cases (try_last m size 0)) [
  | inl e ↦ absurd (cc)
  | inr ((b, n), e) ↦
      (0, omega arith, try_last-Carves m size 0 base m' (ground arith) small (fits 0))
]
find_last_from_lem (suc i) m m' size base h small fits =
    elim (Option-cases (try_last m size (suc i))) [
      | inl e ↦
          let (j, le, c) = find_last_from_lem i m m' size base (ground arith) small fits in
          (j, omega arith, c)
      | inr ((b, n), e) ↦ (
        suc i,
        omega arith,
        try_last-Carves m size (suc i) base m' (ground arith) small (fits (suc i)),
      )
    ]

-- Where find_last_usable returns and no entry ends beyond 2^64, there is one entry, of the map or
-- right behind its last, of free memory that starts at least the wanted size, grown to pages, below
-- 4 GiB - 1, and is at least of that size, such that the address is the lower 32 bits of where the
-- last bytes of this size in the entry begin; the entry is shortened by them, or stays where they
-- are all of it.
pub find_last_usable-Carves :
    (m m' : MemoryMap) (size base : ℕ)
    → find_last_usable m size ≡ ok (base, m')
    → ((j : ℕ) → Fits m j)
    → (j : ℕ) × (j ≤ m.count) × Carves m (grow_to_page size) base m' j
unfolding find_last_usable
find_last_usable-Carves m m' size base h fits =
    find_last_from_lem m.count m m' (grow_to_page size) base h (omega arith) fits

-- An entry that is given out whole is not marked: where every entry of free memory has just the
-- size that is looked for, a search that returned gives the same memory out once more.
pub find_last_usable_again :
    (m m' : MemoryMap) (size base : ℕ)
    → find_last_usable m size ≡ ok (base, m')
    → ((j : ℕ) → (m.entries j).type ≡ 1 → (m.entries j).length ≡ grow_to_page size)
    → ((j : ℕ) → Fits m j)
    → find_last_usable m' size ≡ ok (base, m')
find_last_usable_again m m' size base h whole fits =
    let (j, _, c) = find_last_usable-Carves m m' size base h fits in
    let same : m' ≡ m = ground (arith, whole j, c.4) in
    subst (λ n. find_last_usable n size ≡ ok (base, m')) (sym same) h
