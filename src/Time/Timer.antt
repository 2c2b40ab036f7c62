-- ===== src/Time/Timer.antt =====
-- `real_timer` of kernel/time/timer.{h,cpp}, over the list of kernel/utils/priority_list.h.
-- The commands that a timer gives to its device through `_one_shot` and `_periodic`, and the
-- handlers that it calls, are recorded, the last one first; a handler that calls the timer again
-- is not modelled. What `_update_now` reads from the device is the argument `read`.
pub mod Handle
pub mod Arming
pub mod Handling
use reaveros_iteration.Common.{
  ℕ, zero, suc, ◌+◌, ◌*◌, Bool, true, false, not, ◌&&◌, ◌||◌, some, none, List, ◌∷◌, Run, ok, panic,
  out_of_fuel, ◌>>=◌, ◌==◌, ltb, leb, if◌then◌else◌, add64, sub64,
}
use reaveros_iteration.Utils.Nodes.{load}
use reaveros_iteration.Utils.Allocator.{Layout}
use reaveros_iteration.Utils.PriorityList.{PriorityList, insert, remove, update, pop}

pub data Capabilities : Type 0 where
  periodic_capable : Capabilities
  one_shot_capable : Capabilities
  fixed_frequency : Capabilities
  dynamic : Capabilities

-- `timer_description`; `handler` stands for the function
pub record Description : Type 0 where
  pub id : ℕ
  pub handler : ℕ
  pub handler_parameter : ℕ
  pub periodic : Bool
  pub time_point : ℕ
  pub period : ℕ

-- `timer_description_comparator`
abbrev pub earlier : Description → Description → Bool
earlier lhs rhs = ltb lhs.time_point rhs.time_point

pub data Command : Type 0 where
  fire_once : ℕ → Command
  fire_every : ℕ → Command

-- `next_id` is the counter behind `allocate_timer_event_id`
pub record Timer : Type 0 where
  pub cap : Capabilities
  pub is_periodic : Bool
  pub usage : ℕ
  pub minimal_tick : ℕ
  pub maximal_tick : ℕ
  pub now : ℕ
  pub list : PriorityList Description
  pub next_id : ℕ
  pub commands : List Command
  pub called : List Description

-- `_one_shot(time)` and `_periodic(time)`
abbrev pub set_one_shot : Timer → ℕ → Timer
set_one_shot t time = record t { commands = fire_once time ∷ t.commands }

abbrev pub set_periodic : Timer → ℕ → Timer
set_periodic t time = record t { commands = fire_every time ∷ t.commands }

-- `_cap == dynamic || _cap == one_shot_capable`, and the same with `periodic_capable`
abbrev pub can_one_shot : Capabilities → Bool
can_one_shot dynamic = true
can_one_shot one_shot_capable = true
can_one_shot periodic_capable = false
can_one_shot fixed_frequency = false

abbrev pub can_periodic : Capabilities → Bool
can_periodic dynamic = true
can_periodic one_shot_capable = false
can_periodic periodic_capable = true
can_periodic fixed_frequency = false

-- `time = time > _minimal_tick ? time : _minimal_tick;`, and then the same with the largest
abbrev pub at_least : ℕ → ℕ → ℕ
at_least minimal time = if ltb minimal time then time else minimal

abbrev pub at_most : ℕ → ℕ → ℕ
at_most maximal time = if ltb time maximal then time else maximal

abbrev pub clamp : Timer → ℕ → ℕ
clamp t time = at_most t.maximal_tick (at_least t.minimal_tick time)

-- `_list.top()->time_point - _now`
abbrev pub time_to_top : Timer → Run ℕ
time_to_top t = load t.list.memory t.list.first >>= λ top. ok (sub64 top.value.time_point t.now)

module _ (layout : Layout Description) where
  -- the end of `one_shot`, once the event stands in the list
  unfoldable pub arm : Timer → Run Timer
  arm t = time_to_top t >>= λ time. ok (
      if can_one_shot t.cap
      then set_one_shot t (clamp t time)
      else if can_periodic t.cap
      then set_periodic t (clamp t time)
      else t)

  unfoldable pub one_shot : (read time handler context : ℕ) → Timer → Run (ℕ × Timer)
  unfolding insert arm
  one_shot read time handler context t =
      let event : Description = record {
        id = t.next_id;
        handler = handler;
        handler_parameter = context;
        periodic = false;
        time_point = add64 read time;
        period = 0;
      } in
      do
        l ← insert earlier layout t.list event
        t' ← arm (record t {
          now = read;
          next_id = add64 t.next_id 1;
          list = l;
          usage = add64 t.usage 1;
          is_periodic = false;
        })
        ok (event.id, t')

  -- A single event leaves `_is_periodic` as it is; the device gets a one-shot in any case.
  unfoldable pub periodic : (read period handler context : ℕ) → Timer → Run (ℕ × Timer)
  unfolding insert
  periodic read period handler context t =
      let event : Description = record {
        id = t.next_id;
        handler = handler;
        handler_parameter = context;
        periodic = true;
        time_point = add64 read period;
        period = period;
      } in
      do
        l ← insert earlier layout t.list event
        let t₁ = record t {
          now = read;
          next_id = add64 t.next_id 1;
          list = l;
          usage = add64 t.usage 100;
        }
        time ← time_to_top t₁
        let single = l.size == 1 && can_periodic t.cap
        let t₂ = record t₁ { is_periodic = if single then t.is_periodic else false }
        ok (event.id, set_one_shot t₂ (clamp t₂ time))

  -- `_stop()`
  abbrev pub stop : Timer → Timer
  stop t = if can_one_shot t.cap then set_one_shot t t.minimal_tick else t

  -- the end of `cancel`, once the event `gone` is out of a list that is not empty
  unfoldable pub arm_rest : Description → Timer → Run Timer
  arm_rest gone t = do
    top ← load t.list.memory t.list.first
    let time = at_least t.minimal_tick (sub64 top.value.time_point t.now)
    let alone = can_periodic t.cap && (t.list.size == 1 && top.value.periodic)
    let t₁ = if alone then set_periodic (record t { is_periodic = true }) time else t
    let again =
        not t₁.is_periodic
        && (can_one_shot t.cap
            && (not (t.list.size == 0) && ltb gone.time_point top.value.time_point))
    ok (if again then set_one_shot t₁ time else t₁)

  unfoldable pub cancel : (fuel read id : ℕ) → Timer → Run Timer
  unfolding remove arm_rest
  cancel fuel read id t = do
    (found, l) ← remove fuel (λ event. event.id == id) t.list
    elim found [
      | none ↦ panic
      | some gone ↦
          let t₁ = record t {
            list = l;
            usage = if gone.periodic then sub64 t.usage 100 else sub64 t.usage 1;
          } in
          if l.size == 0 then ok (stop t₁) else arm_rest gone (record t₁ { now = read })
    ]
