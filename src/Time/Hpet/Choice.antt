-- ===== src/Time/Hpet/Choice.antt =====
-- Which comparator of the HPET of kernel/time/hpet.cpp is taken, and when it fires.
use native.Mathlib.Nat.{div-add-mod, mod-lt}
use reaveros_iteration.Common.{
  ℕ, zero, suc, ◌+◌, ◌-◌, ◌*◌, ◌/◌, ◌%◌, ◌^◌, ◌≡◌, ◌≤◌, ◌<◌, ◌⊎◌, inl, inr, refl, true, ◌&&◌, ltb,
  arith, ℕ_discrete, Bool-cases,
}
use reaveros_iteration.Time.Hpet.{
  Comparator, comparator_of, choose, choose_comparator, one_shot, now_of,
}

-- `best` is used the least among the first and the valid ones below `n`.
pub record IsLeastUsed (comparators : ℕ → Comparator) (n best : ℕ) : Type 0 where
  pub below : best < n
  pub usable : (best ≡ 0) ⊎ ((comparators best).valid ≡ true)
  pub not_first : (comparators best).usage ≤ (comparators 0).usage
  pub least :
      (i : ℕ)
      → i < n
      → (comparators i).valid ≡ true
      → (comparators best).usage ≤ (comparators i).usage

choose-IsLeastUsed :
    (k i n best : ℕ) (comparators : ℕ → Comparator)
    → i + k ≡ n
    → IsLeastUsed comparators i best
    → IsLeastUsed comparators n (choose k i (comparators best).usage best comparators)
unfolding choose
choose-IsLeastUsed zero i n best comparators e so_far =
    let same : i ≡ n = omega arith in rw (← same) so_far
choose-IsLeastUsed (suc k) i n best comparators e so_far =
    elim (Bool-cases
      ((comparators i).valid && ltb (comparators i).usage (comparators best).usage)) [
        | inl better ↦ rw better (
            choose-IsLeastUsed k (i + 1) n i comparators (omega arith) (record {
              below = omega arith;
              usable = inr (ground (arith, better));
              not_first = ground (arith, better, so_far.not_first);
              least = λ j lt v. elim (ℕ_discrete j i) [
                | yes e ↦ rw e (omega arith)
                | no ne ↦ ground (arith, better, so_far.least j (omega arith) v)
              ];
            }))
        | inr worse ↦ rw worse (
            choose-IsLeastUsed k (i + 1) n best comparators (omega arith) (record {
              below = omega (arith, so_far.below);
              usable = so_far.usable;
              not_first = so_far.not_first;
              least = λ j lt v. elim (ℕ_discrete j i) [
                | yes e ↦ ground (arith, worse, e, v)
                | no ne ↦ so_far.least j (omega arith) v
              ];
            }))
      ]

-- one_shot and periodic take the first comparator or a valid one, and none that is valid has less
-- usage, nor has the first.
pub choose_comparator-IsLeastUsed :
    (n : ℕ) (comparators : ℕ → Comparator)
    → 0 < n
    → IsLeastUsed comparators n (choose_comparator n comparators)
unfolding choose_comparator
choose_comparator-IsLeastUsed n comparators some_left =
    choose-IsLeastUsed (n - 1) 1 n 0 comparators (omega arith) (record {
      below = omega arith;
      usable = inl refl;
      not_first = omega arith;
      least = λ i lt v. let first : i ≡ 0 = omega arith in rw first (omega arith);
    })

one_shot-comparator :
    (period now time : ℕ) (c : Comparator) (registers : ℕ → ℕ)
    → (now + time) * 1_000_000 < 2 ^ 64
    → one_shot period now time c registers (comparator_of c.index)
      ≡ (now + time) * 1_000_000 / period
unfolding one_shot
one_shot-comparator period now time c registers soon =
    let plain : (now + time) % 2 ^ 64 * 1_000_000 % 2 ^ 64 ≡ (now + time) * 1_000_000 =
      omega arith in
    rw plain (ground arith)

-- A comparator that _one_shot sets, while the nanoseconds times a million fit into 64 bits, matches
-- the main counter at a time that is not after the wanted one, while one count later is.
pub one_shot-fires :
    (period now time : ℕ) (c : Comparator) (registers : ℕ → ℕ)
    → 0 < period
    → (now + time) * 1_000_000 < 2 ^ 64
    → (one_shot period now time c registers (comparator_of c.index) * period
        ≤ (now + time) * 1_000_000)
      × ((now + time) * 1_000_000
          < (one_shot period now time c registers (comparator_of c.index) + 1) * period)
one_shot-fires period now time c registers pos soon =
    let parts = div-add-mod ((now + time) * 1_000_000) period in
    let rest = mod-lt ((now + time) * 1_000_000) pos in
    rw (one_shot-comparator period now time c registers soon)
      (omega (arith, parts), omega (arith, parts, rest))

-- What timer::now and _update_now read is below 2^64 / 10^6 nanoseconds, some five hours, whatever
-- the main counter holds.
pub now_of-below : (period : ℕ) (registers : ℕ → ℕ) → now_of period registers ≤ 18_446_744_073_709
unfolding now_of
now_of-below period registers = omega arith
