-- ===== src/Processor/Parallel.antt =====
-- `parallel_execute` of kernel/processor/ipi.cpp: one of its slots, from the moment its lock is held,
-- with the cores that take the interrupt as steps in any order. A function is a number.
pub mod Counting
pub mod Policies
pub mod Invariant
pub mod Runs
use reaveros_iteration.Common.{
  ℕ, zero, suc, ◌+◌, ◌-◌, ◌≡◌, ◌≢◌, Bool, true, false, not, ◌&&◌, Option, none, some, List, [], ◌∷◌,
  Run, ok, fault, ◌==◌, ltb, if◌then◌else◌, sub64,
}
use reaveros_iteration.Processor.Vectors.{store}

-- `policies` of kernel/processor/ipi.h
pub data Policy : Type 0 where
  all : Policy
  all_no_wait : Policy
  others : Policy
  others_no_wait : Policy
  specific : Policy
  specific_no_wait : Policy

-- where a core is with the interrupt of the slot: it has none, the interrupt waits, or the handler
-- runs and has called the function
pub data Phase : Type 0 where
  idle : Phase
  pending : Phase
  running : Phase

-- where the caller is: before its own call of the function, before its own decrement, in the loop,
-- or behind it
pub data Caller : Type 0 where
  calling : Caller
  counting : Caller
  waiting : Caller
  gone : Caller

-- `_parallel_slot`, the cores and the caller; `calls` are the calls that a core has made.
pub record State : Type 0 where
  pub fptr : Option ℕ
  pub argument : ℕ
  pub unfinished_cores : ℕ
  pub phase : ℕ → Phase
  pub caller : Caller
  pub calls : ℕ → List (ℕ × ℕ)

-- whether the policy calls the function on the caller's core too, and to which cores it sends the
-- interrupt
unfoldable pub calls_self : Policy → Bool
calls_self all = true
calls_self all_no_wait = true
calls_self others = false
calls_self others_no_wait = false
calls_self specific = false
calls_self specific_no_wait = false

unfoldable pub is_sent : Policy → (core_count me target : ℕ) → ℕ → Bool
is_sent all core_count me target c = ltb c core_count && not (c == me)
is_sent all_no_wait core_count me target c = ltb c core_count && not (c == me)
is_sent others core_count me target c = ltb c core_count && not (c == me)
is_sent others_no_wait core_count me target c = ltb c core_count && not (c == me)
is_sent specific core_count me target c = c == target
is_sent specific_no_wait core_count me target c = c == target

-- `unfinished_cores` at the start
unfoldable pub first_count : Policy → (core_count : ℕ) → ℕ
first_count all core_count = core_count
first_count all_no_wait core_count = 0
first_count others core_count = sub64 core_count 1
first_count others_no_wait core_count = 0
first_count specific core_count = 1
first_count specific_no_wait core_count = 0

-- where the caller goes after `broadcast` or `ipi`
unfoldable pub after_sending : Policy → Caller
after_sending all = calling
after_sending all_no_wait = calling
after_sending others = waiting
after_sending others_no_wait = gone
after_sending specific = waiting
after_sending specific_no_wait = gone

-- the start of `parallel_execute`, up to `broadcast` or `ipi`
unfoldable pub send : Policy → (core_count me target f x : ℕ) → State → State
unfolding is_sent first_count after_sending
send policy core_count me target f x s = record s {
  fptr = some f;
  argument = x;
  unfinished_cores = first_count policy core_count;
  phase = λ c. if is_sent policy core_count me target c then pending else s.phase c;
  caller = after_sending policy;
}

-- `fptr(data)` on the caller's core
unfoldable pub call_self : Policy → (me f x : ℕ) → State → State
call_self policy me f x s = record s {
  calls = store s.calls me ((f, x) ∷ s.calls me);
  caller = elim policy [ all_no_wait ↦ gone | _ ↦ counting ];
}

-- `--slot.unfinished_cores` of the caller
unfoldable pub count_self : State → State
count_self s = record s { unfinished_cores = sub64 s.unfinished_cores 1; caller = waiting }

-- the end of the loop, once the count is zero
unfoldable pub leave : State → State
leave s = record s { fptr = none; argument = 0; caller = gone }

-- `slot.fptr(slot.data)` of `_interrupt_handler`
unfoldable pub take : ℕ → State → Run State
take c s = elim s.fptr [
  | none ↦ fault
  | some g ↦ ok (record s {
    phase = store s.phase c running;
    calls = store s.calls c ((g, s.argument) ∷ s.calls c);
  })
]

-- `--slot.unfinished_cores` of `_interrupt_handler`
unfoldable pub finish : ℕ → State → State
finish c s = record s {
  unfinished_cores = sub64 s.unfinished_cores 1;
  phase = store s.phase c idle;
}

module _ (policy : Policy) (core_count me target f x : ℕ) where
  -- One core takes a step; the cores take turns in any order.
  pub data Step : State → State → Type 0 where
    calls_here : {s : State} → s.caller ≡ calling → Step s (call_self policy me f x s)
    counts_here : {s : State} → s.caller ≡ counting → Step s (count_self s)
    leaves : {s : State} → s.caller ≡ waiting → s.unfinished_cores ≡ 0 → Step s (leave s)
    takes : {s s' : State} (c : ℕ) → s.phase c ≡ pending → take c s ≡ ok s' → Step s s'
    finishes : {s : State} (c : ℕ) → s.phase c ≡ running → Step s (finish c s)

  -- the runs of one call of `parallel_execute` in a slot that is as in `s₀`
  pub data Reach (s₀ : State) : State → Type 0 where
    start : Reach s₀ (send policy core_count me target f x s₀)
    more : {s s' : State} → Reach s₀ s → Step s s' → Reach s₀ s'
