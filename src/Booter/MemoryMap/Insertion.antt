-- ===== src/Booter/MemoryMap/Insertion.antt =====
-- The arrays behind `_expand` and `_shrink`, and where `add_entry` of
-- loader/booter/memory/memmap.cpp puts an entry that overlaps none.
use reaveros_iteration.Common.{
  ℕ, zero, suc, ◌+◌, ◌-◌, ◌^◌, ◌≤◌, ◌<◌, ◌≡◌, ◌≢◌, ◌⊎◌, inl, inr, refl, sym, subst, ◌&&◌, arith, ok,
  ltb, leb, if◌then◌else◌, Bool-cases, forall_from, ℕ_discrete, dec_lt,
}
use reaveros_iteration.Booter.MemoryMap.{
  MapEntry, MemoryMap, write_entry, shift_up, shift_down, expand, shrink, goes_before, insert_from,
  add_entry, scan, examine, same_type, pass,
}

shift_up_lem :
    (k j : ℕ) (m : MemoryMap) (h : ℕ)
    → k ≤ j
    → (shift_up k j m).entries h
      ≡ (if ltb (j - k) h && leb h j then m.entries (h - 1) else m.entries h)
unfolding shift_up
shift_up_lem zero j m h le = ground arith
shift_up_lem (suc k) j m h le =
    ground (arith, shift_up_lem k (j - 1) (write_entry m j (m.entries (j - 1))) h)

shift_up-count : (k j : ℕ) (m : MemoryMap) → (shift_up k j m).count ≡ m.count
unfolding shift_up
shift_up-count zero j m = refl
shift_up-count (suc k) j m = shift_up-count k (j - 1) (write_entry m j (m.entries (j - 1)))

shift_down_lem :
    (k i : ℕ) (m : MemoryMap) (h : ℕ)
    → (shift_down k i m).entries h
      ≡ (if leb i h && ltb h (i + k) then m.entries (h + 1) else m.entries h)
unfolding shift_down
shift_down_lem zero i m h = ground arith
shift_down_lem (suc k) i m h =
    ground (arith, shift_down_lem k (i + 1) (write_entry m i (m.entries (i + 1))) h)

shift_down-count : (k i : ℕ) (m : MemoryMap) → (shift_down k i m).count ≡ m.count
unfolding shift_down
shift_down-count zero i m = refl
shift_down-count (suc k) i m = shift_down-count k (i + 1) (write_entry m i (m.entries (i + 1)))

-- `m'` is `m` with `entry` put in at the index `p`
pub record Inserts (m : MemoryMap) (entry : MapEntry) (p : ℕ) (m' : MemoryMap) : Type 0 where
  pub counted : m'.count ≡ m.count + 1
  pub before : (h : ℕ) → h < p → m'.entries h ≡ m.entries h
  pub here : m'.entries p ≡ entry
  pub behind : (h : ℕ) → p ≤ h → h < m.count → m'.entries (h + 1) ≡ m.entries h

expand-Inserts :
    (m : MemoryMap) (i : ℕ) (entry : MapEntry)
    → i < m.count
    → m.count + 1 < 512
    → (m' : MemoryMap) × (expand m i ≡ ok m') × Inserts m entry i (write_entry m' i entry)
unfolding expand
expand-Inserts m i entry lt room =
    let n = shift_up (m.count - i) m.count m in
    let moved = λ (h : ℕ). shift_up_lem (m.count - i) m.count m h (omega arith) in
    (
      record n { count = n.count + 1 },
      ground arith,
      record {
        counted = omega (arith, shift_up-count (m.count - i) m.count m);
        before = λ h low. ground (arith, moved h);
        here = ground arith;
        behind = λ h low high. ground (arith, moved (h + 1));
      },
    )

-- `_shrink` undoes `_expand`, whatever was written to the new place.
pub shrink-expand :
    (m : MemoryMap) (i : ℕ) (entry : MapEntry)
    → i < m.count
    → m.count + 1 < 512
    → (m₁ m₂ : MemoryMap) × (expand m i ≡ ok m₁)
      × (shrink (write_entry m₁ i entry) i ≡ ok m₂)
      × (m₂.count ≡ m.count)
      × ((h : ℕ) → h < m.count → m₂.entries h ≡ m.entries h)
unfolding shrink
shrink-expand m i entry lt room =
    let (m₁, run, w) = expand-Inserts m i entry lt room in
    let n = write_entry m₁ i entry in
    let d = shift_down (n.count - 1 - i) i n in
    let moved = λ (h : ℕ). shift_down_lem (n.count - 1 - i) i n h in
    (
      m₁,
      record d { count = d.count - 1 },
      run,
      ground (arith, w.counted),
      omega (arith, shift_down-count (n.count - 1 - i) i n, w.counted),
      λ h lo. ground (arith, moved h, w.counted, w.before h, w.behind h),
    )

-- The entries lie by base address, no two with the same.
abbrev pub IsSorted : MemoryMap → Type 0
IsSorted m = (g h : ℕ) → g < h → h < m.count → (m.entries g).base < (m.entries h).base

insert_from-Inserts :
    (k i : ℕ) (m : MemoryMap) (entry : MapEntry)
    → i + k ≡ m.count
    → m.count + 1 < 512
    → IsSorted m
    → ((h : ℕ) → h < m.count → (m.entries h).base ≢ entry.base)
    → ((h : ℕ) → h < i → (m.entries h).base < entry.base)
    → (m' : MemoryMap) × (p : ℕ) × (insert_from k i m entry ≡ ok m')
      × (p ≤ m.count)
      × Inserts m entry p m'
      × ((h : ℕ) → h < p → (m.entries h).base < entry.base)
      × ((h : ℕ) → p ≤ h → h < m.count → entry.base < (m.entries h).base)
unfolding insert_from
insert_from-Inserts zero i m entry e room sorted apart below = (
  record (write_entry m m.count entry) { count = m.count + 1 },
  m.count,
  refl,
  omega arith,
  record {
    counted = refl;
    before = λ h lo. ground arith;
    here = ground arith;
    behind = λ h lo hi. absurd (omega arith);
  },
  (λ h lo. below h (omega arith)),
  λ h lo hi. absurd (omega arith),
)
insert_from-Inserts (suc k) i m entry e room sorted apart below =
    elim (Bool-cases (goes_before m entry i)) [
      | inl here ↦
          let (m', run, w) = expand-Inserts m i entry (omega arith) room in
          let first : entry.base < (m.entries i).base = ground arith in
          (
            write_entry m' i entry,
            i,
            ground (arith, run),
            omega arith,
            w,
            below,
            forall_from (λ h. entry.base < (m.entries h).base) i m.count first
                (λ h lo hi. omega (arith, first, sorted i h (omega arith) hi)),
          )
      | inr further ↦
          let next : (m.entries i).base < entry.base =
            ground (arith, apart i (omega arith), below (i - 1)) in
          let below' : (h : ℕ) → h < suc i → (m.entries h).base < entry.base = λ h lo.
            elim (ℕ_discrete i h) [
              | yes e ↦ subst (λ j. (m.entries j).base < entry.base) e next
              | no ne ↦ below h (omega arith)
            ] in
          let (m', p, run, le, w, lows, highs) =
            insert_from-Inserts k (suc i) m entry (omega arith) room sorted apart below' in
          (m', p, ground (arith, run), le, w, lows, highs)
    ]

Inserts-cases :
    (m m' : MemoryMap) (entry : MapEntry) (p h : ℕ)
    → Inserts m entry p m'
    → h < m.count + 1
    → ((h < p) × ((m'.entries h).base ≡ (m.entries h).base))
      ⊎ ((h ≡ p) × ((m'.entries h).base ≡ entry.base))
      ⊎ ((p < h) × ((m'.entries h).base ≡ (m.entries (h - 1)).base))
Inserts-cases m m' entry p h w small = elim (dec_lt h p) [
  | yes lt ↦ inl (lt, ground (arith, w.before h lt))
  | no ge ↦ elim (ℕ_discrete p h) [
    | yes e ↦
        inr (inl (sym e, subst (λ j. (m'.entries j).base ≡ entry.base) e (ground (arith, w.here))))
    | no ne ↦
        let back : h - 1 + 1 ≡ h = omega arith in
        let moved =
          subst (λ j. m'.entries j ≡ m.entries (h - 1)) back
            (w.behind (h - 1) (omega arith) (omega arith)) in
        inr (inr (omega arith, ground (arith, moved)))
  ]
]

Inserts-IsSorted :
    (m m' : MemoryMap) (entry : MapEntry) (p : ℕ)
    → Inserts m entry p m'
    → p ≤ m.count
    → IsSorted m
    → ((h : ℕ) → h < p → (m.entries h).base < entry.base)
    → ((h : ℕ) → p ≤ h → h < m.count → entry.base < (m.entries h).base)
    → IsSorted m'
Inserts-IsSorted m m' entry p w le sorted lows highs g h lt small =
    let at_g = Inserts-cases m m' entry p g w (omega (arith, w.counted)) in
    let at_h = Inserts-cases m m' entry p h w (omega (arith, w.counted)) in
    ground (
      arith,
      at_g,
      at_h,
      sorted g h,
      sorted g (h - 1),
      sorted (g - 1) (h - 1),
      lows g,
      highs (h - 1),
      w.counted,
    )

-- the two ranges neither overlap nor touch
abbrev pub IsAway : MapEntry → MapEntry → Type 0
IsAway a b = (a.base + a.length < b.base) ⊎ (b.base + b.length < a.base)

abbrev pub Fits : MapEntry → Type 0
Fits e = (0 < e.length) × (e.base + e.length < 2 ^ 64)

examine-pass :
    (m : MemoryMap) (entry : MapEntry) (i : ℕ)
    → Fits entry
    → Fits (m.entries i)
    → IsAway entry (m.entries i)
    → examine m entry i ≡ ok pass
unfolding examine same_type
examine-pass m entry i fits fits' (inl low) = ground arith
examine-pass m entry i fits fits' (inr high) = ground arith

scan-pass :
    (k i : ℕ) (m : MemoryMap) (entry : MapEntry)
    → Fits entry
    → ((h : ℕ) → i ≤ h → h < i + k → Fits (m.entries h) × IsAway entry (m.entries h))
    → scan k i m entry ≡ ok pass
unfolding scan
scan-pass zero i m entry fits away = refl
scan-pass (suc k) i m entry fits away =
    let here = away i (omega arith) (omega arith) in
    let rest = scan-pass k (suc i) m entry fits (λ h lo hi. away h (omega arith) (omega arith)) in
    ground (arith, examine-pass m entry i fits here.0 here.1, rest)

-- add_entry of an entry that overlaps and touches no other, into a sorted memory map that is not
-- empty and has fewer than 511 entries, returns the map with the entry put in at one index, and
-- that map is sorted by base address. The new entry and those of the map are not of length 0 and
-- end below 2^64.
pub add_entry-IsSorted :
    (fuel : ℕ) (m : MemoryMap) (entry : MapEntry)
    → 0 < m.count
    → m.count + 1 < 512
    → IsSorted m
    → Fits entry
    → ((h : ℕ) → h < m.count → Fits (m.entries h) × IsAway entry (m.entries h))
    → (m' : MemoryMap) × (p : ℕ) × (add_entry (suc fuel) m entry ≡ ok m')
      × (p ≤ m.count)
      × Inserts m entry p m'
      × IsSorted m'
unfolding add_entry
add_entry-IsSorted fuel m entry some room sorted fits away =
    let passed = scan-pass m.count 0 m entry fits (λ h lo hi. away h (omega arith)) in
    let (m', p, run, le, w, lows, highs) =
      insert_from-Inserts m.count 0 m entry (omega arith) room sorted
        (λ h lo. ground (arith, away h lo)) (λ h lo. absurd (omega arith)) in
    (
      m',
      p,
      ground (arith, passed, run),
      le,
      w,
      Inserts-IsSorted m m' entry p w le sorted lows highs,
    )
