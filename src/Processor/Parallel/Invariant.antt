-- ===== src/Processor/Parallel/Invariant.antt =====
-- The invariant of a call of `parallel_execute` in kernel/processor/ipi.cpp that waits: the count is
-- that of the cores that are not done, and each of them has made its call or will.
use reaveros_iteration.Common.{
  ℕ, ◌+◌, ◌^◌, ◌≡◌, ◌≢◌, ◌<◌, ◌⊎◌, inl, inr, refl, sym, ap, ◌∙◌, Bool, true, false, ◌&&◌, some,
  List, [], ◌∷◌, ok, ◌==◌, if◌then◌else◌, arith, Bool-cases,
}
use reaveros_iteration.Processor.Vectors.{store}
use reaveros_iteration.Processor.Parallel.{
  Policy, Phase, idle, pending, running, Caller, calling, counting, waiting, gone, State,
  calls_self, is_sent, after_sending, send, call_self, count_self, leave, take, finish,
}
use reaveros_iteration.Processor.Parallel.Counting.{total, total-same, total-store, total-zero}
use reaveros_iteration.Processor.Parallel.Policies.{
  waits, unfinished, owed, has_called, sent_below, not_sent_here, sent_phase, first_total,
  after_cases, call_self-counts, first_bound,
}

module _ (policy : Policy) (core_count me target f x : ℕ) where
  abbrev pub sent : ℕ → Bool
  sent = is_sent policy core_count me target

  abbrev pub once : List (ℕ × ℕ)
  once = (f, x) ∷ []

  -- the calls that a core has made, from where it and the caller are
  abbrev pub made : Caller → Phase → ℕ → List (ℕ × ℕ)
  made caller phase c =
      if sent c
      then elim phase [ pending ↦ [] | running ↦ once | idle ↦ once ]
      else if c == me && (calls_self policy && has_called caller)
      then once
      else []

  pub record Inv (s : State) : Type 0 where
    pub counted : s.unfinished_cores ≡ total unfinished core_count s.phase + owed s.caller
    pub present : s.caller ≢ gone → (s.fptr ≡ some f) × (s.argument ≡ x)
    pub quiet : s.caller ≡ gone → (c : ℕ) → s.phase c ≡ idle
    pub only : (c : ℕ) → sent c ≡ false → s.phase c ≡ idle
    pub called : (c : ℕ) → s.calls c ≡ made s.caller (s.phase c) c
    pub own : (s.caller ≡ calling) ⊎ (s.caller ≡ counting) → calls_self policy ≡ true
    pub bound : s.unfinished_cores < 2 ^ 64

  module _ (waiting_one : waits policy ≡ true) (inside : me < core_count)
      (aimed : target < core_count) (few : core_count < 2 ^ 64) where
    pub Inv-start :
        (s : State)
        → ((c : ℕ) → s.phase c ≡ idle)
        → ((c : ℕ) → s.calls c ≡ [])
        → Inv (send policy core_count me target f x s)
    unfolding send
    Inv-start s quiet fresh =
        let phases : (c : ℕ)
            → c < core_count
            → (if sent c then pending else s.phase c) ≡ sent_phase policy core_count me target c =
          λ c lt. ground (arith, quiet c) in
        record {
          counted =
              first_total policy core_count me target waiting_one inside aimed few
              ∙ ap (λ (n : ℕ). n + owed (after_sending policy))
                  (sym (total-same unfinished core_count _ _ phases));
          present = λ ne. (refl, refl);
          quiet = λ e. ground (arith, after_cases policy waiting_one);
          only = λ c e. ground (arith, quiet c);
          called = λ c. ground (arith, quiet c, fresh c, after_cases policy waiting_one);
          own = λ e. ground (arith, after_cases policy waiting_one);
          bound = first_bound policy core_count few;
        }

    pub Inv-calls : (s : State) → Inv s → s.caller ≡ calling → Inv (call_self policy me f x s)
    unfolding call_self
    Inv-calls s inv e =
        let now = call_self-counts policy me f x s waiting_one in
        let here = not_sent_here policy core_count me target (inv.own (inl e)) in
        record {
          counted = ground (arith, now, inv.counted, e);
          present = λ ne. inv.present (λ g. cc);
          quiet = λ g. cc;
          only = inv.only;
          called = λ c. ground (arith, now, here, inv.called c, inv.called me, e, inv.own (inl e));
          own = λ g. inv.own (inl e);
          bound = inv.bound;
        }

    pub Inv-counts : (s : State) → Inv s → s.caller ≡ counting → Inv (count_self s)
    unfolding count_self
    Inv-counts s inv e = record {
      counted = ground (arith, inv.counted, inv.bound, e);
      present = λ ne. inv.present (λ g. cc);
      quiet = λ g. cc;
      only = inv.only;
      called = λ c. ground (arith, inv.called c, e);
      own = λ g. inv.own (inr e);
      bound = omega arith;
    }

    unfinished-zero : (p : Phase) → unfinished p ≡ 0 → p ≡ idle
    unfinished-zero idle e = refl
    unfinished-zero pending e = absurd (omega arith)
    unfinished-zero running e = absurd (omega arith)

    pub Inv-leaves :
        (s : State) → Inv s → s.caller ≡ waiting → s.unfinished_cores ≡ 0 → Inv (leave s)
    unfolding leave
    Inv-leaves s inv e zero_left =
        let none_left : total unfinished core_count s.phase ≡ 0 = omega (arith, inv.counted) in
        record {
          counted = ground (arith, none_left, zero_left);
          present = λ ne. absurd (ne refl);
          quiet = λ g c. elim (Bool-cases (sent c)) [
            | inl y ↦ unfinished-zero (s.phase c) (
                total-zero unfinished core_count s.phase none_left c
                  (sent_below policy core_count me target c aimed y))
            | inr n ↦ inv.only c n
          ];
          only = inv.only;
          called = λ c. ground (arith, inv.called c, e);
          own = λ g. elim g [ inl h ↦ cc | inr h ↦ cc ];
          bound = inv.bound;
        }

    -- a core that has something of the slot
    pub busy :
        (s : State)
        → Inv s
        → (c : ℕ) → s.phase c ≢ idle
        → (c < core_count) × (s.caller ≢ gone) × (sent c ≡ true)
    busy s inv c ne = elim (Bool-cases (sent c)) [
      | inl y ↦ (sent_below policy core_count me target c aimed y, (λ g. ne (inv.quiet g c)), y)
      | inr n ↦ absurd (ne (inv.only c n))
    ]

    unfoldable pub taken : ℕ → State → State
    taken c s = record s {
      phase = store s.phase c running;
      calls = store s.calls c ((f, x) ∷ s.calls c);
    }

    -- the handler finds the function of the call
    pub take-taken : (s : State) → Inv s → (c : ℕ) → s.phase c ≡ pending → take c s ≡ ok (taken c s)
    unfolding take taken
    take-taken s inv c e =
        let (lt, here, y) = busy s inv c (λ z. cc) in
        let (function, data_here) = inv.present here in ground (arith, function, data_here)

    pub Inv-takes : (s : State) → Inv s → (c : ℕ) → s.phase c ≡ pending → Inv (taken c s)
    unfolding taken
    Inv-takes s inv c e =
        let (lt, here, y) = busy s inv c (λ z. cc) in
        record {
          counted =
              ground
                (arith, inv.counted, total-store unfinished core_count c s.phase running lt, e);
          present = inv.present;
          quiet = λ g d. absurd (here g);
          only = λ d n. ground (arith, inv.only d n, y, n);
          called = λ d. ground (arith, inv.called d, inv.called c, e, y);
          own = inv.own;
          bound = inv.bound;
        }

    pub Inv-finishes : (s : State) → Inv s → (c : ℕ) → s.phase c ≡ running → Inv (finish c s)
    unfolding finish
    Inv-finishes s inv c e =
        let (lt, here, y) = busy s inv c (λ z. cc) in
        record {
          counted = ground (
            arith,
            inv.counted,
            inv.bound,
            total-store unfinished core_count c s.phase idle lt,
            e,
          );
          present = inv.present;
          quiet = λ g d. absurd (here g);
          only = λ d n. ground (arith, inv.only d n, y, n);
          called = λ d. ground (arith, inv.called d, e, y);
          own = inv.own;
          bound = omega arith;
        }
