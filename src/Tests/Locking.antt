-- ===== src/Tests/Locking.antt =====
-- Cores that contend for a lock.
use reaveros_iteration.Common.{ℕ, ◌-◌, ◌<◌, ◌≤◌, ◌≡◌, ◌≢◌, ◌↔◌, refl, Bool, true, false, ok, arith}
use reaveros_iteration.Utils.Locks.{
  spinlock, exchange, RecursiveSpinlock, try_lock, unlock_recursive,
}
use reaveros_iteration.Utils.Locks.Exclusion.{
  outside, spinning, inside, Cores, go, Reach, start, more, begin, enter, Steps, Reach-exclusive,
  spinning-enters,
}
use reaveros_iteration.Utils.Locks.Nesting.{Nested, set_depth, try_lock-unlock}
use reaveros_iteration.Utils.Locks.Nesting as Nesting

-- core 1 spins while core 2 holds the lock
abbrev idle_cores : Cores Bool
idle_cores = record { memory = false; phase = λ c. outside }

abbrev contended : Cores Bool
contended = go (go (go idle_cores 1 spinning false) 2 spinning false) 2 inside true

contended-Reach : Reach (spinlock false) contended
unfolding spinlock exchange
contended-Reach =
    more (more (more (start refl (λ c. refl)) (begin 1 refl)) (begin 2 refl)) (enter 2 refl refl)

Reach-exclusive_example :
    ((c d : ℕ) → contended.phase c ≡ inside → contended.phase d ≡ inside → c ≡ d)
    × ((c : ℕ)
        → contended.phase c ≡ inside
        → (m : Bool) × ((spinlock false).release true ≡ ok m) × ((spinlock false).held m ≡ false))
Reach-exclusive_example = Reach-exclusive (spinlock false) contended contended-Reach

spinning-enters_example :
    (t : Cores Bool) × (n : ℕ) × (n ≤ 2)
    × Steps (spinlock false) n contended t
    × (t.phase 1 ≡ inside)
spinning-enters_example = spinning-enters (spinlock false) contended 1 contended-Reach refl

-- core 5 has locked twice
abbrev unused_lock : Nested
unused_lock = record { spinlock = record { count = 0; owner = 0 }; depth = λ c. 0 }

abbrev locked_twice : Nested
locked_twice = record {
  spinlock = record { count = 2; owner = 5 };
  depth = set_depth (record unused_lock { depth = set_depth unused_lock 5 1 }) 5 2;
}

locked_twice-Reach : Nesting.Reach locked_twice
unfolding try_lock
locked_twice-Reach =
    Nesting.later
      (Nesting.later (Nesting.unlocked {s = unused_lock} refl (λ c. refl))
        (Nesting.enters 5 (omega arith) refl))
      (Nesting.enters 5 (omega arith) refl)

try_lock-unlock_example :
    ((try_lock 5 locked_twice.spinlock).0 ≡ true ↔ ((d : ℕ) → d ≢ 5 → locked_twice.depth d ≡ 0))
    × (0 < locked_twice.depth 5
        → (l : RecursiveSpinlock) × (unlock_recursive 5 locked_twice.spinlock ≡ ok l)
          × (l.count ≡ locked_twice.depth 5 - 1))
try_lock-unlock_example = try_lock-unlock locked_twice 5 locked_twice-Reach
