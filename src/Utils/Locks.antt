-- ===== src/Utils/Locks.antt =====
-- The locks of kernel/utils/spinlock.h and `bit_lock` of kernel/utils/locks.h. An atomic operation
-- is one function of the memory it touches; the loops around it are steps of Locks/Exclusion.
pub mod Exclusion
pub mod Nesting
use reaveros_iteration.Common.{
  ℕ, ◌+◌, ◌-◌, ◌/◌, ◌%◌, ◌^◌, ◌≡◌, refl, Bool, true, false, not, ◌&&◌, ◌||◌, Run, ok, panic, arith,
  ◌==◌, if◌then◌else◌, add64, sub64,
}

-- What the loops of a lock use of its memory: the atomic read and write that `lock` repeats until
-- it reads a lock that is free, and `unlock`.
pub record TestAndSet (M : Type 0) : Type 0 where
  pub held : M → Bool
  pub acquire : M → Bool × M
  pub release : M → Run M
  pub acquire-old : (m : M) → (acquire m).0 ≡ held m
  pub acquire-held : (m : M) → held (acquire m).1 ≡ true
  pub release-free : (m : M) → held m ≡ true → (m' : M) × (release m ≡ ok m') × (held m' ≡ false)

-- `spinlock`: `_lock.exchange(true)`, and `unlock`, which panics where the lock is free already
unfoldable pub exchange : Bool → Bool × Bool
exchange locked = (locked, true)

unfoldable pub unlock : (panicing : Bool) → Bool → Run Bool
unlock panicing locked = if not locked && not panicing then panic else ok false

unfoldable pub spinlock : Bool → TestAndSet Bool
unfolding exchange unlock
spinlock panicing = record {
  held = λ locked. locked;
  acquire = exchange;
  release = unlock panicing;
  acquire-old = λ m. refl;
  acquire-held = λ m. refl;
  release-free = λ m e. (false, rw e, refl);
}

-- `bit_lock`: bit `bit` of the word at `_address`
abbrev pub has_bit : ℕ → ℕ → Bool
has_bit bit word = word / 2 ^ bit % 2 == 1

-- `__sync_fetch_and_or(address, 1 << _bit) & (1 << _bit)`
unfoldable pub fetch_and_or : ℕ → ℕ → Bool × ℕ
fetch_and_or bit word = (has_bit bit word, if has_bit bit word then word else word + 2 ^ bit)

-- `*_address &= ~(1 << _bit)`
unfoldable pub clear_bit : ℕ → ℕ → Run ℕ
clear_bit bit word = ok (if has_bit bit word then word - 2 ^ bit else word)

pub fetch_and_or-held : (m : ℕ) → has_bit 9 (fetch_and_or 9 m).1 ≡ true
unfolding fetch_and_or
fetch_and_or-held m = ground arith

pub clear_bit-free :
    (m : ℕ) → has_bit 9 m ≡ true → (m' : ℕ) × (clear_bit 9 m ≡ ok m') × (has_bit 9 m' ≡ false)
unfolding clear_bit
clear_bit-free m e = (m - 2 ^ 9, rw e, ground arith)

-- the lock of an entry of the paging structures, `bit_lock{ this, 9 }`
unfoldable pub entry_lock : TestAndSet ℕ
unfolding fetch_and_or clear_bit
entry_lock = record {
  held = has_bit 9;
  acquire = fetch_and_or 9;
  release = clear_bit 9;
  acquire-old = λ m. refl;
  acquire-held = fetch_and_or-held;
  release-free = clear_bit-free;
}

-- `recursive_spinlock`: each of the two functions holds `_inner_lock` while it reads and writes
pub record RecursiveSpinlock : Type 0 where
  pub count : ℕ
  pub owner : ℕ

-- one round of the loop of `lock`, and whether it is the last
unfoldable pub try_lock : ℕ → RecursiveSpinlock → Bool × RecursiveSpinlock
try_lock cpu l =
    if l.count == 0
    then (true, record { count = add64 l.count 1; owner = cpu })
    else if l.owner == cpu
    then (true, record l { count = add64 l.count 1 })
    else (false, l)

-- `if (_count-- == 0 || _owner != cpu) PANIC(...)`
unfoldable pub unlock_recursive : ℕ → RecursiveSpinlock → Run RecursiveSpinlock
unlock_recursive cpu l =
    if l.count == 0 || not (l.owner == cpu)
    then panic
    else ok (record l { count = sub64 l.count 1 })
