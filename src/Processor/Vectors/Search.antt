-- ===== src/Processor/Vectors/Search.antt =====
-- What the two loops of `allocate_isr` in kernel/processor/handlers.cpp find, for a number of
-- vectors that divides the 224 there are.
use native.Mathlib.Nat.{mul-le-mul_left}
use reaveros_iteration.Common.{
  ℕ, zero, suc, ◌+◌, ◌-◌, ◌*◌, ◌%◌, ◌≡◌, ◌≤◌, ◌<◌, ◌⊎◌, inl, inr, refl, Bool, true, false, Option,
  none, some, Run, ok, Bool-cases, arith, dec_lt,
}
use reaveros_iteration.Processor.Vectors.{
  is_allocated, is_good, search_down, search_up, search_vectors, first_vector,
}

abbrev pub IsFree : (ℕ → Bool) → ℕ → ℕ → Type 0
IsFree a count at = (i : ℕ) → i < count → a (at + i) ≡ false

abbrev pub IsTaken : (ℕ → Bool) → ℕ → ℕ → Type 0
IsTaken a count at = (i : ℕ) × (i < count) × (a (at + i) ≡ true)

pub is_good-cases :
    (k : ℕ) (a : ℕ → Bool) (at : ℕ)
    → at + k ≤ 224
    → ((is_good k a at ≡ ok true) × IsFree a k at) ⊎ ((is_good k a at ≡ ok false) × IsTaken a k at)
unfolding is_good is_allocated
is_good-cases zero a at fits = inl (refl, λ i h. absurd (omega arith))
is_good-cases (suc k) a at fits = elim (Bool-cases (a at)) [
  | inl e ↦
      inr (ground (arith, e), (0, omega arith, let same : at + 0 ≡ at = omega arith in rw same e))
  | inr e ↦ elim (is_good-cases k a (at + 1) (omega arith)) [
    | inl (run, free) ↦ inl (ground (arith, e, run), all e free)
    | inr (run, (i, lt, taken)) ↦ inr (
      ground (arith, e, run),
      (suc i, omega arith, let same : at + suc i ≡ at + 1 + i = omega arith in rw same taken),
    )
  ]
]
  where
    all : a at ≡ false → IsFree a k (at + 1) → IsFree a (suc k) at
    all e free zero h = let same : at + 0 ≡ at = omega arith in rw same e
    all e free (suc i) h =
        let same : at + suc i ≡ at + 1 + i = omega arith in rw same (free i (omega arith))

-- where a search ends, from the blocks that it has looked through
abbrev pub Found : (count blocks : ℕ) → (ℕ → Bool) → (ℕ → Type 0) → Run (Option ℕ) → Type 0
Found count blocks a Seen r =
    ((b : ℕ) × (b < blocks) × (r ≡ ok (some (count * b))) × IsFree a count (count * b))
    ⊎ ((r ≡ ok none) × ((b : ℕ) → b < blocks → Seen b → IsTaken a count (count * b)))

module _ (count blocks : ℕ) (pos : 0 < count) (whole : count * blocks ≡ 224) where
  pub block_fits : (b : ℕ) → b < blocks → count * b + count ≤ 224
  block_fits b h = omega (arith, mul-le-mul_left count h, whole)

  module _ (a : ℕ → Bool) where
    down-suc :
        (j fuel : ℕ)
        → suc j < blocks
        → is_good count a (count * suc j) ≡ ok false
        → search_down (suc fuel) count a (count * suc j) ≡ search_down fuel count a (count * j)
    unfolding search_down
    down-suc j fuel h run =
        let more : count * suc j ≡ count * j + count = omega arith in
        let below : (count * suc j + 256 - count) % 256 ≡ count * j =
          omega (arith, block_fits (suc j) h, more) in
        rw (run, below) (ground (arith, more))

    up-suc :
        (j fuel : ℕ)
        → j < blocks
        → is_good count a (count * j) ≡ ok false
        → search_up (suc fuel) count a (count * j) ≡ search_up fuel count a (count * suc j)
    unfolding search_up
    up-suc j fuel h run =
        let more : count * suc j ≡ count * j + count = omega arith in
        let above : (count * j + count) % 256 ≡ count * suc j =
          omega (arith, block_fits j h, more) in
        rw (run, above) (ground (arith, block_fits j h))

    -- one more block that is looked through
    widen :
        (Seen More : ℕ → Type 0) (j : ℕ) (r : Run (Option ℕ))
        → IsTaken a count (count * j)
        → ((b : ℕ) → b < blocks → More b → (b ≡ j) ⊎ Seen b)
        → Found count blocks a Seen r
        → Found count blocks a More r
    widen Seen More j r taken split (inl found) = inl found
    widen Seen More j r taken split (inr (e, all)) =
        inr (e, λ b h m. elim (split b h m) [ inl same ↦ rw same taken | inr seen ↦ all b h seen ])

    pub search_down-Found :
        (j fuel : ℕ)
        → j < fuel
        → j < blocks
        → Found count blocks a (λ b. b ≤ j) (search_down fuel count a (count * j))
    unfolding search_down
    search_down-Found j zero f h = absurd (omega arith)
    search_down-Found zero (suc fuel) f h =
        elim (is_good-cases count a (count * 0) (block_fits 0 h)) [
          | inl (run, free) ↦ inl (0, h, rw run refl, free)
          | inr (run, taken) ↦
              inr
                (rw run (ground arith), λ b lt le. let same : b ≡ 0 = omega arith in rw same taken)
        ]
    search_down-Found (suc j) (suc fuel) f h =
        elim (is_good-cases count a (count * suc j) (block_fits (suc j) h)) [
          | inl (run, free) ↦ inl (suc j, h, rw run refl, free)
          | inr (run, taken) ↦ rw (down-suc j fuel h run) (
              widen (λ b. b ≤ j) (λ b. b ≤ suc j) (suc j) _ taken (λ b lt le. ground arith)
                (search_down-Found j fuel (omega arith) (omega arith)))
        ]

    pub search_up-Found :
        (left j fuel : ℕ)
        → left < fuel
        → j + left ≡ blocks
        → Found count blocks a (λ b. j ≤ b) (search_up fuel count a (count * j))
    unfolding search_up
    search_up-Found left j zero f e = absurd (omega arith)
    search_up-Found zero j (suc fuel) f e =
        let same : j ≡ blocks = omega arith in
        inr (rw (same, whole) refl, λ b lt le. absurd (omega arith))
    search_up-Found (suc left) j (suc fuel) f e =
        elim (is_good-cases count a (count * j) (block_fits j (omega arith))) [
          | inl (run, free) ↦
              inl (j, omega arith, rw run (ground (arith, block_fits j (omega arith))), free)
          | inr (run, taken) ↦ rw (up-suc j fuel (omega arith) run) (
              widen (λ b. suc j ≤ b) (λ b. j ≤ b) j _ taken (λ b lt le. ground arith)
                (search_up-Found left (suc j) fuel (omega arith) (omega arith)))
        ]

    -- Both searches from one start look through every block.
    pub search_vectors-Found :
        (priority fuel j : ℕ)
        → first_vector priority count ≡ count * j
        → j < blocks
        → blocks < fuel
        → Found count blocks a (λ b. Unit {0}) (search_vectors fuel priority count a)
    unfolding search_vectors
    search_vectors-Found priority fuel j first h f =
        let down : Found count blocks a (λ b. b ≤ j)
            (search_down fuel count a (first_vector priority count)) =
          rw first (search_down-Found j fuel (omega arith) h) in
        let up : Found count blocks a (λ b. j ≤ b)
            (search_up fuel count a (first_vector priority count)) =
          rw first (search_up-Found (blocks - j) j fuel (omega arith) (omega arith)) in
        (elim down [
          | inl (b, lt, run, free) ↦ inl (b, lt, rw run refl, free)
          | inr (run, below) ↦ rw run (elim up [
            | inl found ↦ inl found
            | inr (none_up, above) ↦ inr (
              none_up,
              λ b lt seen. elim (dec_lt j b) [
                | yes q ↦ above b lt (omega arith)
                | no q ↦ below b lt (omega arith)
              ],
            )
          ])
        ])
