-- ===== src/Scheduler.antt =====
-- The scheduler of one core, `scheduler::local` of kernel/scheduler/local.cpp, over three queues of
-- kernel/utils/vfq.h. The lock is not modelled: each operation runs under its own.
pub mod Switching
pub mod Dispatch
use reaveros_iteration.Common.{
  ℕ, ◌+◌, ◌*◌, ◌^◌, ◌≡◌, ◌≢◌, ◌⊎◌, refl, ap, sym, ◌∙◌, Bool, true, false, not, ◌&&◌, ◌||◌, arith,
  Run, ok, ◌>>=◌, >>=-eq-ok, ◌==◌, ltb, if◌then◌else◌, add64,
}
use reaveros_iteration.Utils.Allocator.{Layout}
use reaveros_iteration.Utils.Vfq.{
  Queue, Element, load_of, size_of, pop as pop_queue, push as push_queue, remove as remove_queue,
}

-- `scheduling_policy` of kernel/scheduler/scheduler.h
pub data Policy : Type 0 where
  normal : Policy
  top : Policy
  background : Policy
  idle : Policy

-- the fields of `thread` that the scheduler reads, and its address
pub record Thread : Type 0 where
  pub address : ℕ
  pub policy : Policy
  pub priority : ℕ

-- `running` is `processor::current_thread()` of the core, `armed` whether `_timer` is, `requests`
-- how often another core has been asked to switch. `ready` is `scheduler::ready()`, and `handling`
-- whether the code runs on the core itself, in an interrupt handler.
pub record Local : Type 0 where
  pub top_queue : Queue
  pub normal_queue : Queue
  pub background_queue : Queue
  pub idle_thread : ℕ
  pub running : ℕ
  pub armed : Bool
  pub requests : ℕ
  pub ready : Bool
  pub handling : Bool

-- `4 * _top.load() + 2 * _normal.load() + _background.load()`
abbrev pub load : Local → ℕ
load s =
    add64 (add64 (4 * load_of s.top_queue) (2 * load_of s.normal_queue))
      (load_of s.background_queue)

-- more than one thread in the first queue that is not empty
abbrev pub contended : Local → Bool
contended s =
    let t = size_of s.top_queue in
    let n = size_of s.normal_queue in
    let b = size_of s.background_queue in
    ltb 1 t || (t == 0 && ltb 1 n || t == 0 && (n == 0 && ltb 1 b))

module _ (layout : Layout Element) where
  -- `_pop`
  unfoldable pub pop : Local → Run (ℕ × Local)
  pop s =
      if not (size_of s.top_queue == 0)
      then (pop_queue 256 layout s.top_queue >>= λ (t, q). ok (t, record s { top_queue = q }))
      else if not (size_of s.normal_queue == 0)
      then (pop_queue 256 layout s.normal_queue >>= λ (t, q). ok (t, record s { normal_queue = q }))
      else if not (size_of s.background_queue == 0)
      then (pop_queue 256 layout s.background_queue >>= λ (t, q).
          ok (t, record s { background_queue = q }))
      else ok (s.idle_thread, s)

  -- `_do_switch`
  unfoldable pub do_switch : Local → Run Local
  do_switch s =
      if not s.ready
      then ok s
      else if s.handling
      then (pop (record s { armed = contended s }) >>= λ (t, s'). ok (record s' { running = t }))
      else ok (record s { requests = s.requests + 1 })

  unfoldable pub push : Local → Thread → Run Local
  push s t = elim t.policy [
    | top ↦ push_queue 256 layout s.top_queue t.priority t.address >>= λ q.
        do_switch (record s { top_queue = q })
    | normal ↦ push_queue 256 layout s.normal_queue t.priority t.address >>= λ q.
        let s' = record s { normal_queue = q } in
        if size_of s.top_queue == 0 then do_switch s' else ok s'
    | background ↦ push_queue 256 layout s.background_queue t.priority t.address >>= λ q.
        let s' = record s { background_queue = q } in
        if size_of s.top_queue == 0 && size_of s.normal_queue == 0 then do_switch s' else ok s'
    | idle ↦ ok s
  ]

  -- The three queues return before the test for the running thread.
  unfoldable pub remove : (fuel : ℕ) → Local → Thread → Run Local
  remove fuel s t = elim t.policy [
    | top ↦ remove_queue fuel s.top_queue t.address >>= λ q. ok (record s { top_queue = q })
    | normal ↦
        remove_queue fuel s.normal_queue t.address >>= λ q. ok (record s { normal_queue = q })
    | background ↦ remove_queue fuel s.background_queue t.address >>= λ q.
        ok (record s { background_queue = q })
    | idle ↦ if t.address == s.running then do_switch s else ok s
  ]
