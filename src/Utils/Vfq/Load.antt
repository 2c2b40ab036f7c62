-- ===== src/Utils/Vfq/Load.antt =====
-- The operations of kernel/utils/vfq.h on well-formed queues, and their effect on the load.
use reaveros_iteration.Common.{
  ℕ, ◌+◌, ◌≡◌, ◌≢◌, ◌<◌, ◌^◌, refl, false, [], ◌∷◌, arith, ok, panic, ◌==◌, if◌then◌else◌, length,
  add64, >>=-eq-ok,
}
use reaveros_iteration.Utils.Nodes.{load}
use reaveros_iteration.Utils.Nodes.Linked.{Cells}
use reaveros_iteration.Utils.Allocator.{Layout}
use reaveros_iteration.Utils.PriorityList.{remove as remove_first, pop as pop_first}
use reaveros_iteration.Utils.PriorityList.State.{IsList}
use reaveros_iteration.Utils.PriorityList.Insert.{place, insert-IsList, length-place}
use reaveros_iteration.Utils.PriorityList.Pop.{pop-IsList}
use reaveros_iteration.Utils.PriorityList.Remove.{remove_head}
use reaveros_iteration.Utils.Vfq.{
  Element, earlier, Queue, no_element, put_back, postpone, pop, first_turn, push, remove,
}

-- the turn of the first element, 0 for none
abbrev pub turn_of : Cells Element → ℕ
turn_of [] = 0
turn_of ((_, e) ∷ xs) = e.vfq_internal_data

abbrev pub element : ℕ → ℕ → ℕ → Element
element priority turn value = record {
  vfq_priority = priority;
  vfq_internal_data = turn;
  value = value;
}

first_turn_lem :
    (q : Queue) (xs fs : Cells Element)
    → IsList q.list xs fs
    → length xs < 2 ^ 64
    → first_turn q ≡ ok (turn_of xs)
unfolding first_turn
first_turn_lem q [] fs h small = ground (arith, h.counted)
first_turn_lem q ((a, e) ∷ xs) fs h small = ground (arith, h.counted, h.chain, h.chain.2)

module _ (levels : ℕ) (layout : Layout Element) where
  -- `push` puts the element in with the turn of the first one, and adds its priority to the load.
  pub push-first_turn :
      (q : Queue) (priority value n : ℕ) (u : Element) (xs fs : Cells Element)
      → IsList q.list xs ((n, u) ∷ fs)
      → length xs + 1 < 2 ^ 64
      → q.total_load + priority < 2 ^ 64
      → (r : Queue) × (push levels layout q priority value ≡ ok r)
        × IsList r.list (place earlier n (element priority (turn_of xs) value) xs) fs
        × (r.total_load ≡ q.total_load + priority)
  unfolding push
  push-first_turn q priority value n u xs fs h room load =
      let (l, run, w) =
        insert-IsList earlier layout q.list (element priority (turn_of xs) value) n u xs fs h
          room in
      (
        record q { list = l; total_load = add64 q.total_load priority },
        ground (arith, first_turn_lem q xs ((n, u) ∷ fs) h, run),
        w,
        omega arith,
      )

  -- variable_frequency_queue::pop of a queue without a current element, with a load that is not 0,
  -- over a well-formed list that is not empty and has a free node beside it, where neither the
  -- length nor the count of free nodes overflows 64 bits, returns the value of the first element
  -- and puts the element back with its turn put off by the levels less its priority; the number of
  -- elements and the load stay.
  pub pop-postpone :
      (q : Queue) (a : ℕ) (e : Element) (xs : Cells Element) (f : ℕ) (u : Element)
      (fs : Cells Element)
      → IsList q.list ((a, e) ∷ xs) ((f, u) ∷ fs)
      → q.valid_current ≡ false
      → q.total_load ≢ 0
      → length xs + 1 < 2 ^ 64
      → q.list.pool.free_count + 1 < 2 ^ 64
      → (r : Queue) × (pop levels layout q ≡ ok (e.value, r))
        × IsList r.list (place earlier f (postpone levels e) xs) ((a, e) ∷ fs)
        × (r.list.size ≡ q.list.size)
        × (r.total_load ≡ q.total_load)
        × (r.valid_current ≡ false)
  unfolding pop put_back
  pop-postpone q a e xs f u fs h idle loaded small room =
      let (l, popped, w, _) = pop-IsList q.list a e xs f u fs h (omega arith) room in
      let (l', run, w') =
        insert-IsList earlier layout l (postpone levels e) f u xs ((a, e) ∷ fs) w small in
      (
        record q { list = l'; current = postpone levels e },
        ground (arith, popped, run),
        w',
        omega (arith, w'.counted, h.counted, length-place earlier f (postpone levels e) xs),
        refl,
        idle,
      )

-- `remove` leaves the load as it was.
remove-total_load :
    (fuel : ℕ) (q r : Queue) (value : ℕ) → remove fuel q value ≡ ok r → r.total_load ≡ q.total_load
unfolding remove
remove-total_load fuel q r value h =
    let (s, run, last) = >>=-eq-ok (remove_first fuel (λ rhs. rhs.value == value) q.list) _ h in
    ground arith

-- With no element in the list `pop` panics, whatever the load says.
pop_empty :
    (levels : ℕ) (layout : Layout Element) (q : Queue)
    → q.valid_current ≡ false
    → q.list.size ≡ 0
    → pop levels layout q ≡ panic
unfolding pop put_back pop_first
pop_empty levels layout q idle empty = ground arith

-- Taking the only element out leaves a load that is not 0, so the next `pop` passes its own check
-- for an empty queue and panics in the list below.
pub pop-remove :
    (levels : ℕ) (layout : Layout Element) (fuel : ℕ) (q : Queue) (a : ℕ) (e : Element) (f : ℕ)
    (u : Element) (fs : Cells Element)
    → IsList q.list ((a, e) ∷ []) ((f, u) ∷ fs)
    → (q.list.memory a).prev ≡ 0
    → q.valid_current ≡ false
    → q.total_load ≢ 0
    → 1 < fuel
    → q.list.pool.free_count + 1 < 2 ^ 64
    → (r : Queue) × (remove fuel q e.value ≡ ok r)
      × (r.list.size ≡ 0)
      × (r.total_load ≡ q.total_load)
      × (pop levels layout r ≡ panic)
unfolding remove
pop-remove levels layout fuel q a e f u fs h front idle loaded enough room =
    let (l, run, w) =
      remove_head (λ rhs. rhs.value == e.value) fuel q.list a e [] f u fs h (omega arith)
        (omega arith) room front (ground arith) in
    let q' : Queue =
      if q.current.value == e.value
      then record q { list = l; current = no_element; valid_current = false }
      else record q { list = l } in
    let still : pop levels layout q' ≡ panic =
      pop_empty levels layout q' (ground arith) (ground (arith, w.counted)) in
    (q', ground (arith, run), ground (arith, w.counted), ground arith, still)
