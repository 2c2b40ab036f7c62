-- ===== src/Utils/Raf.antt =====
-- The initial ram disk of kernel/utils/raf.{h,cpp}, over the bytes of the memory that holds it.
use reaveros_iteration.Common.{
  ℕ, zero, suc, ◌+◌, ◌-◌, ◌*◌, ◌%◌, ◌^◌, ◌≡◌, ◌≢◌, ◌<◌, ◌↔◌, refl, ap, Bool, true, false, not, ◌||◌,
  Run, ok, panic, ◌==◌, ltb, if◌then◌else◌, add64, sub64, arith, ℕ_discrete,
}

abbrev pub Bytes : Type 0
Bytes = ℕ → ℕ

-- a `uint64_t`, the low byte first
abbrev pub read64 : Bytes → ℕ → ℕ
read64 m a =
    m a
    + m (a + 1) * 2 ^ 8
    + m (a + 2) * 2 ^ 16
    + m (a + 3) * 2 ^ 24
    + m (a + 4) * 2 ^ 32
    + m (a + 5) * 2 ^ 40
    + m (a + 6) * 2 ^ 48
    + m (a + 7) * 2 ^ 56

pub record File : Type 0 where
  pub begin : ℕ
  pub end : ℕ
  pub name : ℕ

-- the fields of `_raf_header` that are read, at their offsets
abbrev pub size : Bytes → ℕ → ℕ
size m header = read64 m (header + 24)

abbrev pub file_count : Bytes → ℕ → ℕ
file_count m header = read64 m (header + 32)

-- `for (i = 0; i < sizeof(_raf_header); ++i, ++ptr) sum += *ptr;`, by rounds left
unfoldable pub checksum : ℕ → Bytes → ℕ → ℕ → ℕ
checksum zero m ptr sum = sum
checksum (suc k) m ptr sum = checksum k m (ptr + 1) ((sum + m ptr) % 256)

-- the magic bytes are `'r'`, `'a'`, `'f'` and `0xab`
unfoldable pub validate : Bytes → ℕ → Bool
unfolding checksum
validate m h =
    if not (m h == 0x72)
      || (not (m (h + 1) == 0x61)
          || (not (m (h + 2) == 0x66) || (not (m (h + 3) == 0xab) || m (h + 4) == 0)))
    then false
    else checksum 64 m h 0 == 0

-- the constructor, which keeps `begin` as `_header`
unfoldable pub open_raf : Bytes → ℕ → ℕ → Run ℕ
open_raf m begin end =
    if not (validate m begin) || ltb 512 (sub64 (sub64 end begin) (size m begin))
    then panic
    else (if ltb 1 (m (begin + 4)) then panic else ok begin)

-- `_compare`, by rounds left
unfoldable pub compare : Bytes → ℕ → ℕ → ℕ → Bool
compare m name sized zero = true
compare m name sized (suc k) =
    let rest = compare m (name + 1) (sized + 1) k in
    if m name == 0 then false else (if m name == m sized then rest else false)

-- `for (i = 0; i < file_count; ++i)`, by rounds left; `first` is not advanced
unfoldable pub search : ℕ → Bytes → ℕ → ℕ → ℕ → Run File
search zero m header first filename = panic
search (suc k) m header first filename =
    let rest = search k m header first filename in
    if compare m filename (first + 24) (read64 m (first + 16))
    then (let start = add64 header (read64 m first) in
        ok (record { begin = start; end = add64 start (read64 m (first + 8)); name = filename }))
    else rest

-- `operator[]`
unfoldable pub lookup : Bytes → ℕ → ℕ → Run File
unfolding search
lookup m header filename = search (file_count m header) m header (header + 64) filename

-- `compare` accepts a name exactly when it begins with the sized string: it has no end and no
-- other byte before that string is over. A longer name is accepted too.
pub compare-prefix :
    (m : Bytes) (name sized n : ℕ)
    → (compare m name sized n ≡ true)
      ↔ ((i : ℕ) → i < n → (m (name + i) ≢ 0) × (m (name + i) ≡ m (sized + i)))
unfolding compare
compare-prefix m name sized zero = (λ _ i l. absurd (omega (arith, l)), λ _. refl)
compare-prefix m name sized (suc n) =
    let rest = compare-prefix m (name + 1) (sized + 1) n in
    (
      λ e i l.
          let tail : compare m (name + 1) (sized + 1) n ≡ true = ground arith in
          let first : (m name ≢ 0) × (m name ≡ m sized) = (ground arith, ground arith) in
          elim (ℕ_discrete i 0) [
            | yes z ↦ ground (arith, first, z)
            | no nz ↦
                let there = rest.0 tail (i - 1) (omega arith) in
                let a : name + 1 + (i - 1) ≡ name + i = omega arith in
                let b : sized + 1 + (i - 1) ≡ sized + i = omega arith in
                ground (arith, there, ap m a, ap m b)
          ],
      λ same.
          let first = same 0 (omega arith) in
          let tail : compare m (name + 1) (sized + 1) n ≡ true = rest.1 λ i l.
            let there = same (i + 1) (omega arith) in
            let a : name + (i + 1) ≡ name + 1 + i = omega arith in
            let b : sized + (i + 1) ≡ sized + 1 + i = omega arith in
            (ground (arith, there, ap m a), ground (arith, there, ap m a, ap m b)) in
          ground (arith, first, tail),
    )

-- Only the first file of the disk is ever found: with one file header or more, `lookup` answers as
-- if that one were the only one.
pub search_first :
    (n : ℕ) (m : Bytes) (header first filename : ℕ)
    → search (suc n) m header first filename ≡ search 1 m header first filename
unfolding search
search_first zero m header first filename = refl
search_first (suc n) m header first filename =
    let rest = search_first n m header first filename in ground (arith, rest)
