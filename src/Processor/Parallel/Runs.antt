-- ===== src/Processor/Parallel/Runs.antt =====
-- Every run of one call of `parallel_execute` in kernel/processor/ipi.cpp that waits.
use reaveros_iteration.Common.{
  ℕ, ◌+◌, ◌^◌, ◌≡◌, ◌≢◌, ◌≤◌, ◌<◌, refl, ap, subst, ◌*◌, ◌||◌, true, ◌&&◌, [], ◌∷◌, ok, ◌==◌,
  if◌then◌else◌, arith, ℕ_discrete,
}
use reaveros_iteration.Processor.Parallel.{
  Policy, Phase, idle, pending, running, Caller, calling, counting, waiting, gone, State,
  calls_self, is_sent, call_self, count_self, leave, take, finish, Step, calls_here, counts_here,
  leaves, takes, finishes, Reach, start, more,
}
use reaveros_iteration.Processor.Parallel.Counting.{total, total-store, total-busy, total-le}
use reaveros_iteration.Processor.Parallel.Policies.{waits, call_self-counts, unfinished, owed}
use reaveros_iteration.Processor.Parallel.Invariant.{
  Inv, Inv-start, Inv-calls, Inv-counts, Inv-leaves, busy, taken, take-taken, Inv-takes,
  Inv-finishes,
}

-- A slot in which no core has an interrupt left, as after a call that waits; one that does not wait
-- can leave another. The calls are counted from here on.
pub record IsLeft (s : State) : Type 0 where
  pub quiet : (c : ℕ) → s.phase c ≡ idle
  pub fresh : (c : ℕ) → s.calls c ≡ []

abbrev work_of : Phase → ℕ
work_of idle = 0
work_of pending = 2
work_of running = 1

abbrev work_left : Caller → ℕ
work_left calling = 3
work_left counting = 2
work_left waiting = 1
work_left gone = 0

-- the steps that a state has left at most
abbrev pub work : ℕ → State → ℕ
work core_count s = total work_of core_count s.phase + work_left s.caller

module _ (policy : Policy) (core_count me target f x : ℕ) (waiting_one : waits policy ≡ true)
    (inside : me < core_count) (aimed : target < core_count) (few : core_count < 2 ^ 64) where
  abbrev Invariant : State → Type 0
  Invariant = Inv policy core_count me target f x

  Inv-Step : {s s' : State} → Invariant s → Step policy core_count me target f x s s' → Invariant s'
  Inv-Step {s} inv (calls_here e) =
      Inv-calls policy core_count me target f x waiting_one inside aimed few s inv e
  Inv-Step {s} inv (counts_here e) =
      Inv-counts policy core_count me target f x waiting_one inside aimed few s inv e
  Inv-Step {s} inv (leaves e zero_left) =
      Inv-leaves policy core_count me target f x waiting_one inside aimed few s inv e zero_left
  Inv-Step {s} {s'} inv (takes c e run) =
      subst Invariant
        (cc (take-taken policy core_count me target f x waiting_one inside aimed few s inv c e))
        (Inv-takes policy core_count me target f x waiting_one inside aimed few s inv c e)
  Inv-Step {s} inv (finishes c e) =
      Inv-finishes policy core_count me target f x waiting_one inside aimed few s inv c e

  Inv-Reach : {s₀ s : State} → IsLeft s₀ → Reach policy core_count me target f x s₀ s → Invariant s
  Inv-Reach {s₀} left start =
      Inv-start policy core_count me target f x waiting_one inside aimed few s₀ left.quiet
        left.fresh
  Inv-Reach left (more before step) = Inv-Step (Inv-Reach left before) step

  -- In every run of parallel_execute with a policy that waits, in a slot that no core has an
  -- interrupt left of, as after another call that waits, and whatever the order in which the cores
  -- take their steps, a core that takes the interrupt finds the function, and once the caller is
  -- back, each core that the policy names has called the function once since the start, no other
  -- core has called it, and none is still busy. The caller and the target are among the cores, and
  -- these are fewer than 2^64.
  pub parallel_execute-calls :
      {s₀ s : State}
      → IsLeft s₀
      → Reach policy core_count me target f x s₀ s
      → ((c : ℕ) → s.phase c ≡ pending → (s' : State) × (take c s ≡ ok s'))
        × (s.caller ≡ gone
            → (c : ℕ)
            → (s.phase c ≡ idle)
              × (s.calls c ≡ (
                  if is_sent policy core_count me target c || (c == me && calls_self policy)
                  then (f, x) ∷ []
                  else [])))
  parallel_execute-calls {s₀} {s} left reach =
      let inv : Invariant s = Inv-Reach left reach in
      (
        (λ c e.
            (_, take-taken policy core_count me target f x waiting_one inside aimed few s inv c e)),
        λ e c. (inv.quiet e c, ground (arith, inv.called c, inv.quiet e c, e)),
      )

  -- a core that takes the interrupt, as a step
  steps_of_core :
      (s : State) (c : ℕ)
      → Invariant s
      → s.phase c ≢ idle
      → (s' : State) × Step policy core_count me target f x s s'
  steps_of_core s c inv ne = by_phase (s.phase c) refl
    where
      by_phase :
          (p : Phase) → s.phase c ≡ p → (s' : State) × Step policy core_count me target f x s s'
      by_phase idle e = absurd (ne e)
      by_phase pending e = (
        _,
        takes c e
            (take-taken policy core_count me target f x waiting_one inside aimed few s inv c e),
      )
      by_phase running e = (_, finishes c e)

  steps_of_caller :
      (s : State) (where_it_is : Caller)
      → s.caller ≡ where_it_is
      → Invariant s
      → s.caller ≢ gone
      → (s' : State) × Step policy core_count me target f x s s'
  steps_of_caller s calling e inv here = (_, calls_here e)
  steps_of_caller s counting e inv here = (_, counts_here e)
  steps_of_caller s waiting e inv here = elim (ℕ_discrete s.unfinished_cores 0) [
    | yes zero_left ↦ (_, leaves e zero_left)
    | no some_left ↦
        let owes : owed s.caller ≡ 0 = ap owed e in
        let (c, lt, ne) =
          total-busy unfinished core_count s.phase refl
            (λ z. some_left (omega (arith, inv.counted))) in
        steps_of_core s c inv ne
  ]
  steps_of_caller s gone e inv here = absurd (here e)

  work-Step :
      {s s' : State}
      → Invariant s
      → Step policy core_count me target f x s s'
      → work core_count s' < work core_count s
  unfolding call_self count_self leave taken finish
  work-Step {s} inv (calls_here e) =
      let now = call_self-counts policy me f x s waiting_one in
      let less : work_left (call_self policy me f x s).caller + 1 ≡ work_left s.caller =
        ground (arith, now, e) in
      omega (arith, less)
  work-Step {s} inv (counts_here e) = ground (arith, e)
  work-Step {s} inv (leaves e zero_left) = ground (arith, e)
  work-Step {s} {s'} inv (takes c e run) =
      let (lt, here, y) =
        busy policy core_count me target f x waiting_one inside aimed few s inv c (λ z. cc) in
      let next = total-store work_of core_count c s.phase running lt in
      let same : taken policy core_count me target f x waiting_one inside aimed few c s ≡ s' =
        cc (take-taken policy core_count me target f x waiting_one inside aimed few s inv c e) in
      subst (λ (t : State). work core_count t < work core_count s) same (ground (arith, next, e))
  work-Step {s} inv (finishes c e) =
      let (lt, here, y) =
        busy policy core_count me target f x waiting_one inside aimed few s inv c (λ z. cc) in
      ground (arith, total-store work_of core_count c s.phase idle lt, e)

  light : (p : Phase) → work_of p ≤ 2
  light idle = omega arith
  light pending = omega arith
  light running = omega arith

  short : (p : Caller) → work_left p ≤ 3
  short calling = omega arith
  short counting = omega arith
  short waiting = omega arith
  short gone = omega arith

  -- A run of parallel_execute with a policy that waits, in a slot that no core has an interrupt
  -- left of, as after another call that waits, can go on until the caller is back, each of its
  -- steps lowers the work that is left, and that is at most two steps for each core and three for
  -- the caller. The caller and the target are among the cores, and these are fewer than 2^64.
  pub parallel_execute-ends :
      {s₀ s : State}
      → IsLeft s₀
      → Reach policy core_count me target f x s₀ s
      → (s.caller ≢ gone → (s' : State) × Step policy core_count me target f x s s')
        × ((s' : State)
            → Step policy core_count me target f x s s'
            → work core_count s' < work core_count s)
        × (work core_count s ≤ 2 * core_count + 3)
  parallel_execute-ends {s₀} {s} left reach =
      let inv : Invariant s = Inv-Reach left reach in
      (
        steps_of_caller s s.caller refl inv,
        (λ s' step. work-Step inv step),
        omega (arith, total-le work_of 2 core_count s.phase light, short s.caller),
      )
