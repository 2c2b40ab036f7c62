-- ===== src/Processor/Vectors/Start.antt =====
-- Where the searches of `allocate_isr` in kernel/processor/handlers.cpp begin.
use native.Mathlib.Nat.{one-le-pow}
use reaveros_iteration.Common.{
  ℕ, zero, suc, ◌+◌, ◌-◌, ◌*◌, ◌/◌, ◌^◌, ◌≡◌, ◌≤◌, ◌<◌, refl, Bool, true, ◌&&◌, ◌==◌, ltb, leb,
  if◌then◌else◌, arith, ℕ_discrete,
}
use reaveros_iteration.Processor.Vectors.{first_vector}

-- The test of a statement below a bound, run for every number.
pub all_below : ℕ → (ℕ → Bool) → Bool
all_below zero test = true
all_below (suc n) test = test n && all_below n test

pub all_below_lem :
    (n : ℕ) (test : ℕ → Bool) → all_below n test ≡ true → (i : ℕ) → i < n → test i ≡ true
unfolding all_below
all_below_lem zero test h i lt = absurd (omega arith)
all_below_lem (suc n) test h i lt = elim (ℕ_discrete i n) [
  | yes e ↦ rw e (ground arith)
  | no ne ↦ all_below_lem n test (ground arith) i (omega arith)
]

-- the block of `2 ^ k` vectors in which a search begins
abbrev pub first_block : ℕ → ℕ → ℕ
first_block k priority = (16 * priority + 2 ^ k - 1) / 2 ^ k

pub starts_right : ℕ → ℕ → Bool
starts_right k priority =
    if leb (16 * priority + 2 ^ k) 224
    then first_vector priority (2 ^ k) == 2 ^ k * first_block k priority
      && (ltb (first_block k priority) (224 / 2 ^ k) && (2 ^ k * (224 / 2 ^ k) == 224))
    else true

pub starts_right-all : all_below 6 (λ k. all_below 14 (starts_right k)) ≡ true
unfolding all_below starts_right first_vector
starts_right-all = refl

pub first_vector-block :
    (k priority : ℕ)
    → k ≤ 5
    → 16 * priority + 2 ^ k ≤ 224
    → (first_vector priority (2 ^ k) ≡ 2 ^ k * first_block k priority)
      × (first_block k priority < 224 / 2 ^ k)
      × (2 ^ k * (224 / 2 ^ k) ≡ 224)
unfolding starts_right
first_vector-block k priority small fits =
    let one =
      all_below_lem 6 (λ k. all_below 14 (starts_right k)) starts_right-all k (omega arith) in
    let two =
      all_below_lem 14 (starts_right k) one priority
        (omega (arith, one-le-pow k 2 (omega arith))) in
    ground (arith, two, fits)
