-- ===== src/Utils/Vfq.antt =====
-- kernel/utils/vfq.h: the queue in which a thread of priority `p` comes up every `Levels - p`
-- ticks. Elements are compared by address, so they are numbers here.
-- Locks are not modelled: each operation runs under its own lock.

pub mod Load
use reaveros_iteration.Common.{
  ℕ, ◌+◌, Bool, true, false, not, ◌&&◌, Option, none, some, Run, ok, panic, ◌>>=◌, ◌==◌, ltb,
  if◌then◌else◌, add64, sub64,
}
use reaveros_iteration.Utils.Nodes.{load}
use reaveros_iteration.Utils.Allocator.{Layout}
use reaveros_iteration.Utils.PriorityList.{
  PriorityList, top, insert, pop as pop_first, remove as remove_first,
}

-- `_detail::_vfq_element<T>`, without its links
pub record Element : Type 0 where
  pub vfq_priority : ℕ
  pub vfq_internal_data : ℕ
  pub value : ℕ

abbrev pub no_element : Element
no_element = record { vfq_priority = 0; vfq_internal_data = 0; value = 0 }

-- `_detail::_vfq_comparator<T>`
abbrev pub earlier : Element → Element → Bool
earlier lhs rhs = ltb lhs.vfq_internal_data rhs.vfq_internal_data

pub record Queue : Type 0 where
  pub list : PriorityList Element
  pub current : Element
  pub valid_current : Bool
  pub total_load : ℕ

-- `load()` and `size()`
abbrev pub load_of : Queue → ℕ
load_of q = q.total_load

abbrev pub size_of : Queue → ℕ
size_of q = q.list.size

-- the payload with its next turn
abbrev pub postpone : ℕ → Element → Element
postpone levels e = record e {
  vfq_internal_data = add64 e.vfq_internal_data (sub64 levels e.vfq_priority);
}

-- the turn of a new element: that of the first one, if there is one
unfoldable pub first_turn : Queue → Run ℕ
unfolding top
first_turn q =
    if q.list.size == 0
    then ok 0
    else do n ← load q.list.memory (top q.list); ok (n.value).vfq_internal_data

module _ (levels : ℕ) (layout : Layout Element) where
  -- `_list.insert(std::move(_current))`, if `_current` is valid
  unfoldable pub put_back : Queue → Run (PriorityList Element)
  put_back q = if q.valid_current then insert earlier layout q.list q.current else ok q.list

  unfoldable pub pop : Queue → Run (ℕ × Queue)
  unfolding put_back
  pop q = if q.total_load == 0 then panic else do
    l₁ ← put_back q
    (e, l₂) ← pop_first l₁
    let e' = postpone levels e
    l₃ ← insert earlier layout l₂ e'
    ok (e'.value, record q { list = l₃; current = e' })

  unfoldable pub push : Queue → ℕ → ℕ → Run Queue
  unfolding first_turn
  push q priority element = do
    turn ← first_turn q
    let e : Element = record { vfq_priority = priority; vfq_internal_data = turn; value = element }
    l ← insert earlier layout q.list e
    ok (record q { list = l; total_load = add64 q.total_load priority })

-- `remove(elem)`: `success` starts as false, and the list only ever sets it to false.
unfoldable pub remove : (fuel : ℕ) → Queue → ℕ → Run Queue
remove fuel q element = do
  (found, l) ← remove_first fuel (λ rhs. rhs.value == element) q.list
  let success : Bool = false
  ok (
      if not success && (q.current.value == element)
      then record q { list = l; current = no_element; valid_current = false }
      else record q { list = l })
