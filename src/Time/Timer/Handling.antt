-- ===== src/Time/Timer/Handling.antt =====
-- The loop of `_handle` of kernel/time/timer.cpp that takes due events out of the list.
use reaveros_iteration.Common.{
  ℕ, zero, suc, ◌+◌, ◌^◌, ◌<◌, ◌≡◌, refl, subst, ◌∙◌, true, false, List, [], ◌∷◌, length, ok, arith,
  leb, if◌then◌else◌, Bool-cases, inl, inr, sub64,
}
use reaveros_iteration.Utils.Nodes.Linked.{Cells, Linked}
use reaveros_iteration.Utils.Allocator.{Layout}
use reaveros_iteration.Utils.PriorityList.{PriorityList, pop}
use reaveros_iteration.Utils.PriorityList.State.{IsList}
use reaveros_iteration.Utils.PriorityList.Pop.{pop-IsList}
use reaveros_iteration.Time.Timer.{Description, Timer}
use reaveros_iteration.Time.Timer.Handle.{finish, handle_due}

-- the events at the front of the list that are due, and the others
abbrev pub take_due : ℕ → Cells Description → Cells Description
take_due now [] = []
take_due now ((a, event) ∷ xs) =
    if leb event.time_point now then (a, event) ∷ take_due now xs else []

abbrev pub drop_due : ℕ → Cells Description → Cells Description
drop_due now [] = []
drop_due now ((a, event) ∷ xs) =
    if leb event.time_point now then drop_due now xs else (a, event) ∷ xs

-- their handlers are called in that order
abbrev pub call_all : Cells Description → List Description → List Description
call_all [] called = called
call_all ((_, event) ∷ xs) called = call_all xs (event ∷ called)

abbrev pub AllOnce : Cells Description → Type 0
AllOnce [] = Unit {0}
AllOnce ((_, event) ∷ xs) = (event.periodic ≡ false) × AllOnce xs

module _ (layout : Layout Description) (fuel : ℕ) (t : Timer) where
  handle_due-empty : t.list.size ≡ 0 → handle_due layout (suc fuel) t ≡ ok t
  unfolding handle_due
  handle_due-empty e = rw e

  module _ (a : ℕ) (event : Description) (xs : Cells Description)
      (h : Linked t.list.memory t.list.first ((a, event) ∷ xs))
      (some_left : t.list.size ≡ suc (length xs)) where
    handle_due-early : leb event.time_point t.now ≡ false → handle_due layout (suc fuel) t ≡ ok t
    unfolding handle_due
    handle_due-early e = ground (arith, h, some_left, e)

    handle_due-next :
        (l : PriorityList Description)
        → leb event.time_point t.now ≡ true
        → event.periodic ≡ false
        → pop t.list ≡ ok (event, l)
        → handle_due layout (suc fuel) t
          ≡ handle_due layout fuel
              (record t { list = l; called = event ∷ t.called; usage = sub64 t.usage 1 })
    unfolding handle_due finish
    handle_due-next l e once run = ground (arith, h, some_left, e, once, run)

-- The loop of real_timer::_handle over a well-formed list of fewer than 2^64 events, none of them
-- periodic, beside a free node, with more fuel than events, ends: it has called the handlers of the
-- due events at the front, in their order, and the rest of the list is left.
pub handle_due-calls :
    (layout : Layout Description) (fuel : ℕ) (t : Timer) (xs : Cells Description) (f : ℕ)
    (u : Description) (fs : Cells Description)
    → IsList t.list xs ((f, u) ∷ fs)
    → AllOnce xs
    → length xs < fuel
    → length xs < 2 ^ 64
    → t.list.pool.free_count + length xs < 2 ^ 64
    → (t' : Timer) × (fs' : Cells Description) × (handle_due layout fuel t ≡ ok t')
      × (t'.called ≡ call_all (take_due t.now xs) t.called)
      × (t'.now ≡ t.now)
      × IsList t'.list (drop_due t.now xs) fs'
handle_due-calls layout zero t xs f u fs h once enough small room = absurd (omega arith)
handle_due-calls layout (suc fuel) t [] f u fs h once enough small room =
    (t, (f, u) ∷ fs, handle_due-empty layout fuel t h.counted, refl, refl, h)
handle_due-calls layout (suc fuel) t ((a, event) ∷ xs) f u fs h once enough small room =
    elim (Bool-cases (leb event.time_point t.now)) [
      | inr early ↦ (
        t,
        (f, u) ∷ fs,
        handle_due-early layout fuel t a event xs h.chain h.counted early,
        rw early,
        refl,
        subst (λ cs. IsList t.list cs ((f, u) ∷ fs)) (rw early) h,
      )
      | inl due ↦
          let (l, popped, list, freed) =
            pop-IsList t.list a event xs f u fs h (omega (arith, small)) (omega (arith, room)) in
          let t₁ : Timer = record t {
            list = l;
            called = event ∷ t.called;
            usage = sub64 t.usage 1;
          } in
          let (t', fs', run, calls, same, rest) =
            handle_due-calls layout fuel t₁ xs f u ((a, event) ∷ fs) list once.1
              (omega (arith, enough)) (omega (arith, small)) (omega (arith, room, freed)) in
          (
            t',
            fs',
            handle_due-next layout fuel t a event xs h.chain h.counted l due once.0 popped ∙ run,
            calls ∙ rw due,
            same,
            subst (λ cs. IsList t'.list cs fs') (rw due) rest,
          )
    ]
