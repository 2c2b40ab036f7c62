-- ===== src/Scheduler/Dispatch.antt =====
-- `push` of kernel/scheduler/local.cpp, where it switches and where it does not.
use reaveros_iteration.Common.{ℕ, ◌+◌, ◌^◌, ◌≡◌, ◌≢◌, ◌<◌, ◌⊎◌, ◌∷◌, arith, ok, length}
use reaveros_iteration.Utils.Nodes.Linked.{Cells}
use reaveros_iteration.Utils.Allocator.{Layout}
use reaveros_iteration.Utils.PriorityList.State.{IsList}
use reaveros_iteration.Utils.PriorityList.Insert.{place}
use reaveros_iteration.Utils.Vfq.{
  Element, Queue, earlier, size_of, push as push_queue, pop as pop_queue,
}
use reaveros_iteration.Utils.Vfq.Load.{element, turn_of, push-first_turn}
use reaveros_iteration.Scheduler.{Policy, normal, top, background, idle, Thread, Local, push, pop}

-- the queues before that of the policy are empty
abbrev pub Leads : Local → Policy → Type 0
Leads s top = Unit {0}
Leads s normal = size_of s.top_queue ≡ 0
Leads s background = (size_of s.top_queue ≡ 0) × (size_of s.normal_queue ≡ 0)
Leads s idle = ⊥

-- the queue of a policy; an idle thread is in none
abbrev pub queue_at : Policy → Local → Queue
queue_at top s = s.top_queue
queue_at normal s = s.normal_queue
queue_at background s = s.background_queue
queue_at idle s = s.background_queue

abbrev pub with_queue : Policy → Queue → Local → Local
with_queue top q s = record s { top_queue = q }
with_queue normal q s = record s { normal_queue = q }
with_queue background q s = record s { background_queue = q }
with_queue idle q s = s

-- threads wait in a queue before that of the policy
abbrev pub Outranked : Local → Policy → Type 0
Outranked s normal = size_of s.top_queue ≢ 0
Outranked s top = ⊥
Outranked s background = (size_of s.top_queue ≢ 0) ⊎ (size_of s.normal_queue ≢ 0)
Outranked s idle = ⊥

waits_lem :
    (layout : Layout Element) (s : Local) (p : Policy) (address priority : ℕ) (q : Queue)
    → Outranked s p
    → push_queue 256 layout (queue_at p s) priority address ≡ ok q
    → push layout s (record { address = address; policy = p; priority = priority })
      ≡ ok (with_queue p q s)
unfolding push
waits_lem layout s top address priority q before put = absurd before
waits_lem layout s normal address priority q before put = ground (arith, before, put)
waits_lem layout s background address priority q before put = ground (arith, before, put)
waits_lem layout s idle address priority q before put = absurd before

-- local::push of a thread, while threads wait in a queue before that of its policy, returns and
-- only puts the thread into its queue, with the turn of the first element: the queue stays well
-- formed and its load is higher by the thread's priority, and the running thread, the timer, the
-- requests to other cores and the other queues stay. The queue's list is well formed with a free
-- node, and its load and length do not overflow.
pub push-waits :
    (layout : Layout Element) (s : Local) (t : Thread) (n : ℕ) (u : Element) (xs fs : Cells Element)
    → Outranked s t.policy
    → IsList (queue_at t.policy s).list xs ((n, u) ∷ fs)
    → length xs + 1 < 2 ^ 64
    → (queue_at t.policy s).total_load + t.priority < 2 ^ 64
    → (q : Queue) × (push layout s t ≡ ok (with_queue t.policy q s))
      × IsList q.list (place earlier n (element t.priority (turn_of xs) t.address) xs) fs
      × (q.total_load ≡ (queue_at t.policy s).total_load + t.priority)
push-waits layout s t n u xs fs before h small load =
    let (q, put, w, loaded) =
      push-first_turn 256 layout (queue_at t.policy s) t.priority t.address n u xs fs h small
        load in
    (q, waits_lem layout s t.policy t.address t.priority q before put, w, loaded)
