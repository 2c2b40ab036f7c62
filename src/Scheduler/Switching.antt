-- ===== src/Scheduler/Switching.antt =====
-- `remove` of kernel/scheduler/local.cpp and the running thread.
use reaveros_iteration.Common.{ℕ, ◌≡◌, ◌≢◌, refl, arith, ok, >>=-eq-ok}
use reaveros_iteration.Utils.Allocator.{Layout}
use reaveros_iteration.Utils.Vfq.{Element, remove as remove_queue}
use reaveros_iteration.Scheduler.{Policy, normal, top, background, idle, Thread, Local, remove}

-- nothing was switched, nor asked for
pub record Stays (s r : Local) : Type 0 where
  pub running : r.running ≡ s.running
  pub armed : r.armed ≡ s.armed
  pub requests : r.requests ≡ s.requests

-- a run that ends in `s'` with other queues
ok-Stays : (s s' r : Local) → Stays s s' → ok s' ≡ ok r → Stays s r
ok-Stays s s' r h e = record {
  running = ground (arith, h.running);
  armed = ground (arith, h.armed);
  requests = ground (arith, h.requests);
}

remove-policy :
    (layout : Layout Element) (fuel : ℕ) (s r : Local) (address priority : ℕ) (policy : Policy)
    → policy ≢ idle
    → remove layout fuel s (record { address = address; policy = policy; priority = priority })
      ≡ ok r
    → Stays s r
unfolding remove
remove-policy layout fuel s r a p normal ne run =
    let (q, _, last) = >>=-eq-ok (remove_queue fuel s.normal_queue a) _ run in
    ok-Stays s (record s { normal_queue = q }) r
      (record { running = refl; armed = refl; requests = refl }) last
remove-policy layout fuel s r a p top ne run =
    let (q, _, last) = >>=-eq-ok (remove_queue fuel s.top_queue a) _ run in
    ok-Stays s (record s { top_queue = q }) r
      (record { running = refl; armed = refl; requests = refl }) last
remove-policy layout fuel s r a p background ne run =
    let (q, _, last) = >>=-eq-ok (remove_queue fuel s.background_queue a) _ run in
    ok-Stays s (record s { background_queue = q }) r
      (record { running = refl; armed = refl; requests = refl }) last
remove-policy layout fuel s r a p idle ne run = absurd (ne refl)

-- `remove` of a thread of any policy but idle does not switch, be it the running thread or not.
pub remove-Stays :
    (layout : Layout Element) (fuel : ℕ) (s r : Local) (t : Thread)
    → t.policy ≢ idle
    → remove layout fuel s t ≡ ok r
    → Stays s r
remove-Stays layout fuel s r t = remove-policy layout fuel s r t.address t.priority t.policy
