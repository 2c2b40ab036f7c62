-- ===== src/Time/Timer/Handle.antt =====
-- `_handle` and `_schedule_next` of kernel/time/timer.cpp.
use reaveros_iteration.Common.{
  ℕ, zero, suc, true, false, not, ◌&&◌, ◌||◌, ◌∷◌, Run, ok, out_of_fuel, ◌>>=◌, ◌==◌, ltb, leb,
  if◌then◌else◌, add64, sub64,
}
use reaveros_iteration.Utils.Nodes.{load}
use reaveros_iteration.Utils.Allocator.{Layout}
use reaveros_iteration.Utils.PriorityList.{insert, update, pop}
use reaveros_iteration.Time.Timer.{
  periodic_capable, one_shot_capable, fixed_frequency, dynamic, Description, earlier, Timer,
  set_one_shot, set_periodic, can_periodic, at_least, clamp, time_to_top,
}

module _ (layout : Layout Description) where
  -- `while (next->time_point <= _now && next->next) next = next->next;`
  unfoldable pub skip_due : (fuel : ℕ) → Timer → ℕ → Run ℕ
  skip_due zero t next = out_of_fuel
  skip_due (suc fuel) t next = load t.list.memory next >>= λ n.
      elim (leb n.value.time_point t.now && not (n.next == 0)) [
        | true ↦ skip_due fuel t n.next
        | false ↦ ok next
      ]

  -- `switch (_cap)`, where `dynamic` falls through to `one_shot_capable`
  abbrev pub set_next_event : Description → Timer → Timer
  set_next_event next t =
      let time = clamp t (sub64 next.time_point t.now) in
      elim t.cap [
        | periodic_capable ↦ set_periodic t time
        | dynamic ↦
            if t.is_periodic
            then set_periodic t (at_least t.minimal_tick next.period)
            else set_one_shot t time
        | one_shot_capable ↦ set_one_shot t time
        | fixed_frequency ↦ t
      ]

  -- `_schedule_next()` with the node that it returns, 0 for null
  unfoldable pub schedule_next : (fuel : ℕ) → Timer → Run (ℕ × Timer)
  unfolding skip_due
  schedule_next fuel t = if t.list.size == 0 then ok (0, t) else do
    next ← skip_due fuel t t.list.first
    n ← load t.list.memory next
    let alone = not t.is_periodic && (n.next == 0 && (n.value.periodic && can_periodic t.cap))
    let t₁ = if alone then set_periodic (record t { is_periodic = true }) n.value.period else t
    ok (next, set_next_event n.value t₁)

  -- how far `_handle` moves `_now`
  unfoldable pub tick : Timer → Run ℕ
  tick t = elim t.cap [
    | fixed_frequency ↦ ok t.minimal_tick
    | periodic_capable ↦ tick_to_top
    | one_shot_capable ↦ tick_to_top
    | dynamic ↦ tick_to_top
  ]
    where
      tick_to_top : Run ℕ
      tick_to_top = time_to_top t >>= λ time. ok (
          if ltb t.maximal_tick time
          then t.maximal_tick
          else if ltb time t.minimal_tick
          then t.minimal_tick
          else time)

  abbrev pub call : Timer → Description → Timer
  call t event = record t { called = event ∷ t.called }

  abbrev pub postpone : Description → Description
  postpone event = record event { time_point = add64 event.time_point event.period }

  -- the loop of `_handle` while the device is periodic
  unfoldable pub handle_periodic : (fuel : ℕ) → Timer → Run Timer
  unfolding update
  handle_periodic zero t = out_of_fuel
  handle_periodic (suc fuel) t = if t.list.size == 0 then ok t else do
    top ← load t.list.memory t.list.first
    elim (leb top.value.time_point t.now) [
      | false ↦ ok t
      | true ↦ do
        l ← update earlier layout 1 (λ event. true) postpone t.list
        handle_periodic fuel (record (call t top.value) { list = l })
    ]

  -- what the other loop does to an event that is due, once it is out of the list
  unfoldable pub finish : Description → Timer → Run Timer
  unfolding insert
  finish event t =
      if event.periodic
      then (do l ← insert earlier layout t.list (postpone event); ok (record t { list = l }))
      else ok (record t { usage = sub64 t.usage 1 })

  unfoldable pub handle_due : (fuel : ℕ) → Timer → Run Timer
  unfolding pop finish
  handle_due zero t = out_of_fuel
  handle_due (suc fuel) t = if t.list.size == 0 then ok t else do
    top ← load t.list.memory t.list.first
    elim (leb top.value.time_point t.now) [
      | false ↦ ok t
      | true ↦ do
        (event, l) ← pop t.list
        t' ← finish event (call (record t { list = l }) event)
        handle_due fuel t'
    ]

  -- `if (_list.size() && (!scheduled || scheduled != _list.top())) _schedule_next();`
  unfoldable pub schedule_again : (fuel scheduled : ℕ) → Timer → Run Timer
  unfolding schedule_next
  schedule_again fuel scheduled t =
      if not (t.list.size == 0) && (scheduled == 0 || not (scheduled == t.list.first))
      then (schedule_next fuel t >>= λ (_, t'). ok t')
      else ok t

  unfoldable pub handle_once : (fuel : ℕ) → Timer → Run Timer
  unfolding schedule_next handle_due schedule_again
  handle_once fuel t = do
    (scheduled, t₁) ← schedule_next fuel t
    t₂ ← handle_due fuel t₁
    schedule_again fuel scheduled t₂

  unfoldable pub handle : (fuel : ℕ) → Timer → Run Timer
  unfolding tick handle_periodic handle_once
  handle fuel t = if t.list.size == 0 then ok t else do
    step ← tick t
    let t₁ = record t { now = add64 t.now step }
    if t.is_periodic then handle_periodic fuel t₁ else handle_once fuel t₁
