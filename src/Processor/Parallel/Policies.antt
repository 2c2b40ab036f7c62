-- ===== src/Processor/Parallel/Policies.antt =====
-- What the policies of `parallel_execute` in kernel/processor/ipi.cpp start with.
use reaveros_iteration.Common.{
  ℕ, ◌+◌, ◌^◌, ◌≡◌, ◌<◌, ◌⊎◌, inl, inr, refl, Bool, true, false, if◌then◌else◌, arith,
}
use reaveros_iteration.Processor.Parallel.{
  Policy, all, others, specific, all_no_wait, others_no_wait, specific_no_wait, Phase, idle,
  pending, running, Caller, calling, counting, waiting, gone, State, calls_self, is_sent,
  first_count, after_sending, call_self,
}
use reaveros_iteration.Processor.Parallel.Counting.{total, total-others, total-one}

-- the policies that wait for the cores
unfoldable pub waits : Policy → Bool
waits all = true
waits others = true
waits specific = true
waits all_no_wait = false
waits others_no_wait = false
waits specific_no_wait = false

abbrev pub unfinished : Phase → ℕ
unfinished idle = 0
unfinished pending = 1
unfinished running = 1

-- what the caller has still to subtract
abbrev pub owed : Caller → ℕ
owed calling = 1
owed counting = 1
owed waiting = 0
owed gone = 0

abbrev pub has_called : Caller → Bool
has_called calling = false
has_called counting = true
has_called waiting = true
has_called gone = true

pub sent_below :
    (policy : Policy) (core_count me target c : ℕ)
    → target < core_count
    → is_sent policy core_count me target c ≡ true
    → c < core_count
unfolding is_sent
sent_below all core_count me target c aimed e = ground arith
sent_below others core_count me target c aimed e = ground arith
sent_below specific core_count me target c aimed e = ground arith
sent_below all_no_wait core_count me target c aimed e = ground arith
sent_below others_no_wait core_count me target c aimed e = ground arith
sent_below specific_no_wait core_count me target c aimed e = ground arith

pub not_sent_here :
    (policy : Policy) (core_count me target : ℕ)
    → calls_self policy ≡ true
    → is_sent policy core_count me target me ≡ false
unfolding is_sent calls_self
not_sent_here all core_count me target e = ground arith
not_sent_here all_no_wait core_count me target e = ground arith
not_sent_here others core_count me target e = cc e
not_sent_here others_no_wait core_count me target e = cc e
not_sent_here specific core_count me target e = cc e
not_sent_here specific_no_wait core_count me target e = cc e

abbrev pub sent_phase : Policy → (core_count me target : ℕ) → ℕ → Phase
sent_phase policy core_count me target c =
    if is_sent policy core_count me target c then pending else idle

pub first_total :
    (policy : Policy) (core_count me target : ℕ)
    → waits policy ≡ true
    → me < core_count
    → target < core_count
    → core_count < 2 ^ 64
    → first_count policy core_count
      ≡ total unfinished core_count (sent_phase policy core_count me target)
        + owed (after_sending policy)
unfolding is_sent first_count after_sending waits
first_total all n me target w lt lt' few = omega (arith, total-others unfinished n me refl refl lt)
first_total others n me target w lt lt' few =
    omega (arith, total-others unfinished n me refl refl lt)
first_total specific n me target w lt lt' few =
    omega (arith, total-one unfinished n target refl refl lt')
first_total all_no_wait n me target w lt lt' few = cc w
first_total others_no_wait n me target w lt lt' few = cc w
first_total specific_no_wait n me target w lt lt' few = cc w

-- where a caller that waits is after it has sent the interrupts
pub after_cases :
    (policy : Policy)
    → waits policy ≡ true
    → ((after_sending policy ≡ calling) × (calls_self policy ≡ true))
      ⊎ ((after_sending policy ≡ waiting) × (calls_self policy ≡ false))
unfolding waits after_sending calls_self
after_cases all w = inl (refl, refl)
after_cases others w = inr (refl, refl)
after_cases specific w = inr (refl, refl)
after_cases all_no_wait w = cc w
after_cases others_no_wait w = cc w
after_cases specific_no_wait w = cc w

pub call_self-counts :
    (policy : Policy) (me f x : ℕ) (s : State)
    → waits policy ≡ true
    → (call_self policy me f x s).caller ≡ counting
unfolding waits call_self
call_self-counts all me f x s w = refl
call_self-counts others me f x s w = refl
call_self-counts specific me f x s w = refl
call_self-counts all_no_wait me f x s w = cc w
call_self-counts others_no_wait me f x s w = refl
call_self-counts specific_no_wait me f x s w = refl

pub first_bound :
    (policy : Policy) (core_count : ℕ)
    → core_count < 2 ^ 64
    → first_count policy core_count < 2 ^ 64
unfolding first_count
first_bound all n few = few
first_bound others n few = omega arith
first_bound specific n few = omega arith
first_bound all_no_wait n few = omega arith
first_bound others_no_wait n few = omega arith
first_bound specific_no_wait n few = omega arith
