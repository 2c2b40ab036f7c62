-- ===== src/Tests/Timing.antt =====
-- A timer with one event in its list, and the time of day.
use reaveros_iteration.Common.{
  ℕ, ◌+◌, ◌-◌, ◌<◌, ◌≤◌, ◌≡◌, refl, true, false, ◌&&◌, ltb, [], ◌∷◌, ok, arith, ◌==◌, if◌then◌else◌,
}
use reaveros_iteration.Time.Real.{Clock, days_of, now}
use reaveros_iteration.Time.Real.Calendar.{is_leap, day_number, days_of-day_number}
use reaveros_iteration.Time.Real.Passing.{total, now-total}
use reaveros_iteration.Utils.Nodes.{fresh_node}
use reaveros_iteration.Utils.Nodes.Linked.{Cells}
use reaveros_iteration.Utils.Allocator.{Layout}
use reaveros_iteration.Utils.PriorityList.{PriorityList}
use reaveros_iteration.Utils.PriorityList.State.{IsList}
use reaveros_iteration.Utils.PriorityList.Insert.{place}
use reaveros_iteration.Utils.PriorityList.Order.{IsLeastFirst}
use reaveros_iteration.Time.Timer.{Description, Timer, dynamic, fire_once, earlier, one_shot}
use reaveros_iteration.Time.Timer.Handle.{handle_due}
use reaveros_iteration.Time.Timer.Arming.{InTime, event_of, one_shot-InTime}
use reaveros_iteration.Time.Timer.Handling.{take_due, drop_due, call_all, handle_due-calls}

abbrev event_at : ℕ → Description
event_at time = record {
  id = 3;
  handler = 1;
  handler_parameter = 0;
  periodic = false;
  time_point = time;
  period = 0;
}

abbrev layout : Layout Description
layout = record { size = 64; aligned = 0; blank = event_at 0 }

abbrev one_event : ℕ → PriorityList Description
one_event time = record {
  memory = λ p. fresh_node (if p == 8 then event_at time else event_at 0);
  pool = record { free_count = 1; free = 16; lowest = 0 };
  first = 8;
  last = 8;
  size = 1;
}

one_event-IsList :
    (time : ℕ) → IsList (one_event time) ((8, event_at time) ∷ []) ((16, event_at 0) ∷ [])
one_event-IsList time = record {
  chain = (refl, (λ e. omega arith), refl, tt, refl);
  spare = (refl, (λ e. omega arith), refl, tt, refl);
  apart = ((λ e. omega arith, tt), tt);
  ends = refl;
  counted = refl;
  filled = λ e. omega arith;
}

abbrev timer_with : ℕ → Timer
timer_with time = record {
  cap = dynamic;
  is_periodic = false;
  usage = 1;
  minimal_tick = 10;
  maximal_tick = 1000;
  now = 100;
  list = one_event time;
  next_id = 4;
  commands = [];
  called = [];
}

one_shot-InTime_example :
    (t' : Timer) × (ys : Cells Description) × (ticks : ℕ) × (one_shot layout 120 50 1 0
        (timer_with 200)
      ≡ ok (4, t'))
    × (ys ≡ place earlier 16 (event_of (timer_with 200) 120 50 1 0) ((8, event_at 200) ∷ []))
    × IsList t'.list ys []
    × IsLeastFirst earlier ys
    × (t'.commands ≡ fire_once ticks ∷ [])
    × (10 ≤ ticks)
    × (ticks ≤ 1000)
    × InTime 120 10 ticks ys
one_shot-InTime_example =
    one_shot-InTime layout (timer_with 200) 120 50 1 0 16 (event_at 0) ((8, event_at 200) ∷ []) []
      refl (omega arith) (one_event-IsList 200) (omega arith) tt (omega arith, omega arith)
      (omega arith)

handle_due-calls_example :
    (t' : Timer) × (fs' : Cells Description) × (handle_due layout 2 (timer_with 90) ≡ ok t')
    × (t'.called ≡ call_all (take_due 100 ((8, event_at 90) ∷ [])) [])
    × (t'.now ≡ 100)
    × IsList t'.list (drop_due 100 ((8, event_at 90) ∷ [])) fs'
handle_due-calls_example =
    handle_due-calls layout 2 (timer_with 90) ((8, event_at 90) ∷ []) 16 (event_at 0) []
      (one_event-IsList 90) (refl, tt) (omega arith) (omega arith) (omega arith)

-- the first of March 2024, and a quarter past three in the afternoon
days_of-day_number_example :
    day_number 2024 3 1 ≡ days_of 2024 3 1 + (if is_leap 2024 && ltb 2 3 then 1 else 0)
days_of-day_number_example =
    days_of-day_number 2024 3 1 (omega arith) (omega arith) (omega arith) (omega arith)
      (omega arith)

abbrev clock : Clock
clock = record {
  time = record { seconds = 5; nanoseconds = 999999999 };
  boot_time = record { seconds = 0; nanoseconds = 0 };
  hpet_last_ns = 100;
}

now-total_example :
    ((now true 102 clock).0 ≡ (now true 102 clock).1.time)
    × (total (now true 102 clock).0 ≡ total clock.time + (102 - 100))
    × ((now true 102 clock).0.nanoseconds < 1000000000)
    × ((now true 102 clock).1.hpet_last_ns ≡ 102)
now-total_example = now-total 102 clock (omega arith) (omega arith) (omega arith) (omega arith)
