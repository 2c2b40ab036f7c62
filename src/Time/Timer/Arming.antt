-- ===== src/Time/Timer/Arming.antt =====
-- When the device fires after `one_shot` of kernel/time/timer.cpp.
use reaveros_iteration.Common.{
  ℕ, ◌+◌, ◌^◌, ◌≤◌, ◌<◌, ◌≡◌, ◌⊎◌, inl, inr, refl, sym, ap, subst, true, false, [], ◌∷◌, ◌++◌, ◌||◌,
  not, length, ok, arith, add64, sub64, Bool-cases,
}
use reaveros_iteration.Utils.Nodes.Linked.{Cells, Linked, last_value}
use reaveros_iteration.Utils.Allocator.{Layout}
use reaveros_iteration.Utils.PriorityList.State.{IsList}
use reaveros_iteration.Utils.PriorityList.Insert.{place, insert-IsList}
use reaveros_iteration.Utils.PriorityList.Order.{AllFrom, IsLeastFirst, place-IsLeastFirst}
use reaveros_iteration.Time.Timer.{
  Description, Timer, fire_once, earlier, can_one_shot, clamp, arm, one_shot,
}

-- the first event is not due before `read`
abbrev pub NotOverdue : ℕ → Cells Description → Type 0
NotOverdue read [] = Unit {0}
NotOverdue read ((_, event) ∷ xs) = (read ≤ event.time_point) × (event.time_point < 2 ^ 64)

-- a device that fires `ticks` after `read` fires by the time of each event, or after `minimal`
abbrev pub InTime : (read minimal ticks : ℕ) → Cells Description → Type 0
InTime read minimal ticks [] = Unit {0}
InTime read minimal ticks ((_, event) ∷ xs) =
    ((read + ticks ≤ event.time_point) ⊎ (ticks ≤ minimal)) × InTime read minimal ticks xs

-- the event that `one_shot` makes
abbrev pub event_of : Timer → (read time handler context : ℕ) → Description
event_of t read time handler context = record {
  id = t.next_id;
  handler = handler;
  handler_parameter = context;
  periodic = false;
  time_point = add64 read time;
  period = 0;
}

-- the first event stays first where the new one is not earlier
place-behind :
    (n : ℕ) (v : Description) (a : ℕ) (w : Description) (xs : Cells Description)
    → earlier v w ≡ false
    → (ys : Cells Description) × (place earlier n v ((a, w) ∷ xs) ≡ (a, w) ∷ ys)
unfolding place
place-behind n v a w xs later =
    elim (Bool-cases (earlier (last_value w xs) v || not (earlier v (last_value w xs)))) [
      | inl behind ↦ (xs ++ (n, v) ∷ [], ground (arith, later, behind))
      | inr second ↦ ((n, v) ∷ xs, ground (arith, later, second))
    ]

place-cons :
    (n : ℕ) (v : Description) (xs : Cells Description) (read : ℕ)
    → NotOverdue read ((n, v) ∷ [])
    → NotOverdue read xs
    → (a : ℕ) × (w : Description) × (ys : Cells Description) × (place earlier n v xs ≡ (a, w) ∷ ys)
      × NotOverdue read ((a, w) ∷ [])
unfolding place
place-cons n v [] read h hs = (n, v, [], refl, h)
place-cons n v ((a, w) ∷ xs) read h hs = elim (Bool-cases (earlier v w)) [
  | inl front ↦ (n, v, (a, w) ∷ xs, ground (arith, front), h)
  | inr later ↦ let (ys, e) = place-behind n v a w xs later in (a, w, ys, e, hs)
]

AllFrom-InTime :
    (read minimal ticks : ℕ) (w : Description) (xs : Cells Description)
    → (read + ticks ≤ w.time_point) ⊎ (ticks ≤ minimal)
    → AllFrom earlier w xs
    → InTime read minimal ticks xs
AllFrom-InTime read minimal ticks w [] h all = tt
AllFrom-InTime read minimal ticks w ((_, u) ∷ xs) h all =
    (ground (arith, all.0), AllFrom-InTime read minimal ticks w xs h all.1)

-- how long the device waits, within its limits
clamp-InTime :
    (t : Timer) (read : ℕ) (a : ℕ) (w : Description) (xs : Cells Description)
    → t.minimal_tick ≤ t.maximal_tick
    → NotOverdue read ((a, w) ∷ [])
    → AllFrom earlier w xs
    → (t.minimal_tick ≤ clamp t (sub64 w.time_point read))
      × (clamp t (sub64 w.time_point read) ≤ t.maximal_tick)
      × InTime read t.minimal_tick (clamp t (sub64 w.time_point read)) ((a, w) ∷ xs)
clamp-InTime t read a w xs limits due all =
    let ticks = clamp t (sub64 w.time_point read) in
    let here : (read + ticks ≤ w.time_point) ⊎ (ticks ≤ t.minimal_tick) = ground (arith, due) in
    (
      ground (arith, limits),
      ground (arith, limits),
      (here, AllFrom-InTime read t.minimal_tick ticks w xs here all),
    )

arm-once :
    (layout : Layout Description) (t : Timer) (a : ℕ) (w : Description) (xs : Cells Description)
    → can_one_shot t.cap ≡ true
    → Linked t.list.memory t.list.first ((a, w) ∷ xs)
    → arm layout t
      ≡ ok (record t { commands = fire_once (clamp t (sub64 w.time_point t.now)) ∷ t.commands })
unfolding arm
arm-once layout t a w xs can h = ground (arith, can, h)

earlier_trans : (a b c : Description) → earlier a b ≡ true → earlier b c ≡ true → earlier a c ≡ true
earlier_trans a b c h k = ground arith

earlier_irrefl : (a : Description) → earlier a a ≡ false
earlier_irrefl a = ground arith

-- real_timer::one_shot on a device that can fire once and whose shortest wait is not above its
-- longest, with a well-formed list that has a node to spare and whose first event is an earliest
-- one and not overdue, and for a time that does not wrap around, returns the new event's id; the
-- event is in the list, whose first event is again an earliest one, and the device is set to fire
-- once, within its limits, by the time of every event in the list or after its shortest wait.
pub one_shot-InTime :
    (layout : Layout Description) (t : Timer) (read time handler context : ℕ) (n : ℕ)
    (u : Description) (xs fs : Cells Description)
    → can_one_shot t.cap ≡ true
    → t.minimal_tick ≤ t.maximal_tick
    → IsList t.list xs ((n, u) ∷ fs)
    → length xs + 1 < 2 ^ 64
    → IsLeastFirst earlier xs
    → NotOverdue read xs
    → read + time < 2 ^ 64
    → (t' : Timer) × (ys : Cells Description) × (ticks : ℕ) × (one_shot layout read time handler
          context t
        ≡ ok (t.next_id, t'))
      × (ys ≡ place earlier n (event_of t read time handler context) xs)
      × IsList t'.list ys fs
      × IsLeastFirst earlier ys
      × (t'.commands ≡ fire_once ticks ∷ t.commands)
      × (t.minimal_tick ≤ ticks)
      × (ticks ≤ t.maximal_tick)
      × InTime read t.minimal_tick ticks ys
unfolding one_shot
one_shot-InTime layout t read time handler context n u xs fs can limits h room least due small =
    let event = event_of t read time handler context in
    let (l, run, w) = insert-IsList earlier layout t.list event n u xs fs h room in
    let first = place-IsLeastFirst earlier n event xs earlier_trans earlier_irrefl least in
    let (a, top, ys, e, due') = place-cons n event xs read (omega arith, omega arith) due in
    let t₁ : Timer = record t {
      now = read;
      next_id = add64 t.next_id 1;
      list = l;
      usage = add64 t.usage 1;
      is_periodic = false;
    } in
    let armed =
      arm-once layout t₁ a top ys can (subst (λ cs. Linked l.memory l.first cs) e w.chain) in
    let all : AllFrom earlier top ys = subst (λ cs. IsLeastFirst earlier cs) e first in
    let (low, high, in_time) = clamp-InTime t₁ read a top ys limits due' all in
    (
      record t₁ { commands = fire_once (clamp t₁ (sub64 top.time_point read)) ∷ t.commands },
      (a, top) ∷ ys,
      clamp t₁ (sub64 top.time_point read),
      rw (run, armed),
      sym e,
      subst (λ cs. IsList l cs fs) e w,
      all,
      refl,
      low,
      high,
      in_time,
    )

-- real_timer::one_shot, on a device that can fire once, while the first event of a well-formed list
-- with a node to spare is overdue, sets the device to its longest wait, since the time that is left
-- wraps around; the longest wait is not below the shortest, it is at most 2^64 less what the event
-- is overdue by, and the time of the new event does not wrap around.
pub one_shot-overdue :
    (layout : Layout Description) (t : Timer) (read time handler context : ℕ) (n : ℕ)
    (u : Description) (a : ℕ) (w : Description) (xs fs : Cells Description)
    → can_one_shot t.cap ≡ true
    → t.minimal_tick ≤ t.maximal_tick
    → IsList t.list ((a, w) ∷ xs) ((n, u) ∷ fs)
    → length xs + 2 < 2 ^ 64
    → w.time_point < read
    → read + time < 2 ^ 64
    → t.maximal_tick + read ≤ 2 ^ 64 + w.time_point
    → (t' : Timer) × (one_shot layout read time handler context t ≡ ok (t.next_id, t'))
      × (t'.commands ≡ fire_once t.maximal_tick ∷ t.commands)
unfolding one_shot
one_shot-overdue layout t read time handler context n u a w xs fs can limits h room overdue small
      far =
    let event = event_of t read time handler context in
    let (l, run, list) =
      insert-IsList earlier layout t.list event n u ((a, w) ∷ xs) fs h (omega (arith, room)) in
    let (ys, e) = place-behind n event a w xs (ground (arith, overdue, small)) in
    let t₁ : Timer = record t {
      now = read;
      next_id = add64 t.next_id 1;
      list = l;
      usage = add64 t.usage 1;
      is_periodic = false;
    } in
    let armed =
      arm-once layout t₁ a w ys can (subst (λ cs. Linked l.memory l.first cs) e list.chain) in
    let longest : clamp t₁ (sub64 w.time_point read) ≡ t.maximal_tick =
      ground (arith, limits, overdue, far) in
    (
      record t₁ { commands = fire_once (clamp t₁ (sub64 w.time_point read)) ∷ t.commands },
      rw (run, armed),
      ap (λ k. fire_once k ∷ t.commands) longest,
    )
