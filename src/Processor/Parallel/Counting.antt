-- ===== src/Processor/Parallel/Counting.antt =====
-- Sums over the cores of `parallel_execute` in kernel/processor/ipi.cpp.
use reaveros_iteration.Common.{
  ℕ, zero, suc, ◌+◌, ◌*◌, ◌≡◌, ◌≢◌, ◌≤◌, ◌<◌, refl, ap, ◌∙◌, not, ◌&&◌, ◌==◌, ltb, if◌then◌else◌,
  arith, ℕ_discrete,
}
use reaveros_iteration.Processor.Vectors.{store}
use reaveros_iteration.Processor.Parallel.{Phase, idle, pending}

-- the weights of the first `n` cores
unfoldable pub total : (Phase → ℕ) → ℕ → (ℕ → Phase) → ℕ
total w zero phase = 0
total w (suc n) phase = w (phase n) + total w n phase

module _ (w : Phase → ℕ) where
  pub total-same :
      (n : ℕ) (phase phase' : ℕ → Phase)
      → ((c : ℕ) → c < n → phase c ≡ phase' c)
      → total w n phase ≡ total w n phase'
  unfolding total
  total-same zero phase phase' same = refl
  total-same (suc n) phase phase' same =
      let here : w (phase n) ≡ w (phase' n) = ap w (same n (omega arith)) in
      omega (arith, here, total-same n phase phase' (λ c lt. same c (omega arith)))

  pub total-store :
      (n c : ℕ) (phase : ℕ → Phase) (p : Phase)
      → c < n
      → total w n (store phase c p) + w (phase c) ≡ total w n phase + w p
  unfolding total
  total-store zero c phase p lt = absurd (omega arith)
  total-store (suc n) c phase p lt = elim (ℕ_discrete c n) [
    | yes e ↦
        let here : store phase c p n ≡ p = ground (arith, e) in
        let below = total-same n (store phase c p) phase (λ d lt'. ground (arith, e)) in
        rw (here, below, e) (omega arith)
    | no ne ↦
        let here : store phase c p n ≡ phase n = ground (arith, ne) in
        rw here (omega (arith, total-store n c phase p (omega arith)))
  ]

  -- a core that weighs nothing while the sum is zero
  pub total-zero :
      (n : ℕ) (phase : ℕ → Phase) → total w n phase ≡ 0 → (c : ℕ) → c < n → w (phase c) ≡ 0
  unfolding total
  total-zero zero phase none c lt = absurd (omega arith)
  total-zero (suc n) phase none c lt = elim (ℕ_discrete c n) [
    | yes e ↦ rw e (omega (arith, none))
    | no ne ↦ total-zero n phase (omega arith) c (omega arith)
  ]

  total-below :
      (k n me : ℕ)
      → w idle ≡ 0
      → w pending ≡ 1
      → k ≤ n
      → total w k (λ c. if ltb c n && not (c == me) then pending else idle)
          + (if ltb me k then 1 else 0)
        ≡ k
  unfolding total
  total-below zero n me no_weight one le = ground arith
  total-below (suc k) n me no_weight one le = elim (ℕ_discrete k me) [
    | yes e ↦ ground (arith, total-below k n me no_weight one (omega arith), no_weight, e)
    | no ne ↦ ground (arith, total-below k n me no_weight one (omega arith), one, ne)
  ]

  -- the sum where every core but one has the interrupt, and where one alone has it
  pub total-others :
      (n me : ℕ)
      → w idle ≡ 0
      → w pending ≡ 1
      → me < n
      → total w n (λ c. if ltb c n && not (c == me) then pending else idle) + 1 ≡ n
  total-others n me no_weight one lt =
      ground (arith, total-below n n me no_weight one (omega arith))

  total-only :
      (k target : ℕ)
      → w idle ≡ 0
      → w pending ≡ 1
      → total w k (λ c. if c == target then pending else idle) ≡ (if ltb target k then 1 else 0)
  unfolding total
  total-only zero target no_weight one = ground arith
  total-only (suc k) target no_weight one = elim (ℕ_discrete k target) [
    | yes e ↦ ground (arith, total-only k target no_weight one, one, e)
    | no ne ↦ ground (arith, total-only k target no_weight one, no_weight, ne)
  ]

  pub total-one :
      (n target : ℕ)
      → w idle ≡ 0
      → w pending ≡ 1
      → target < n
      → total w n (λ c. if c == target then pending else idle) ≡ 1
  total-one n target no_weight one lt = ground (arith, total-only n target no_weight one)

  -- a bound on the weights bounds their sum
  pub total-le : (k n : ℕ) (phase : ℕ → Phase) → ((p : Phase) → w p ≤ k) → total w n phase ≤ k * n
  unfolding total
  total-le k zero phase light = omega arith
  total-le k (suc n) phase light = omega (arith, light (phase n), total-le k n phase light)

  -- A sum that is not zero has a core that is not idle.
  pub total-busy :
      (n : ℕ) (phase : ℕ → Phase)
      → w idle ≡ 0
      → total w n phase ≢ 0
      → (c : ℕ) × (c < n) × (phase c ≢ idle)
  unfolding total
  total-busy zero phase none some_left = absurd (some_left refl)
  total-busy (suc n) phase none some_left = elim (ℕ_discrete (w (phase n)) 0) [
    | yes e ↦
        let (c, lt, ne) = total-busy n phase none (λ z. some_left (omega arith)) in
        (c, omega arith, ne)
    | no ne ↦ (n, omega arith, λ e. ne (ap w e ∙ none))
  ]
