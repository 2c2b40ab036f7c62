-- ===== src/Tests/Scheduling.antt =====
-- The scheduler of kernel/scheduler/local.cpp with one waiting thread.
use reaveros_iteration.Common.{
  ℕ, ◌+◌, ◌≡◌, inl, refl, true, false, [], ◌∷◌, arith, ok, ◌==◌, if◌then◌else◌,
}
use reaveros_iteration.Utils.Nodes.{Memory}
use reaveros_iteration.Utils.Allocator.{Layout}
use reaveros_iteration.Utils.PriorityList.{remove as remove_first}
use reaveros_iteration.Utils.PriorityList.State.{IsList}
use reaveros_iteration.Utils.PriorityList.Insert.{place}
use reaveros_iteration.Utils.Vfq.{Element, Queue, no_element, earlier, remove as remove_queue}
use reaveros_iteration.Utils.Vfq.Load.{element}
use reaveros_iteration.Scheduler.{top, background, Thread, Local, push, remove}
use reaveros_iteration.Scheduler.Dispatch.{with_queue, push-waits}

abbrev layout : Layout Element
layout = record { size = 64; aligned = 64; blank = no_element }

abbrev free_nodes : Memory Element
free_nodes a =
    if a == 16
    then record { value = no_element; next = 24; prev = 0 }
    else record { value = no_element; next = 0; prev = 16 }

-- no thread in the list, and a given number of threads counted
abbrev queue_of : ℕ → Queue
queue_of size = record {
  list = record {
    memory = free_nodes;
    pool = record { free_count = 2; free = 16; lowest = 0xFFFF_FFFF_0000_0000 };
    first = 0;
    last = 0;
    size = size;
  };
  current = element 2 6 100;
  valid_current = false;
  total_load = 2;
}

empty-IsList : IsList (queue_of 0).list [] ((16, no_element) ∷ (24, no_element) ∷ [])
empty-IsList = record {
  chain = refl;
  spare = (refl, ground arith, refl, ground arith, (refl, ground arith, refl, tt, refl));
  apart = tt;
  ends = refl;
  counted = refl;
  filled = ground arith;
}

-- the thread 100 in its list
abbrev one_thread : Queue
one_thread = record (queue_of 0) {
  list = record {
    memory = λ a.
        if a == 16
        then record { value = element 2 6 100; next = 0; prev = 0 }
        else record { value = no_element; next = 0; prev = 0 };
    pool = record { free_count = 2; free = 24; lowest = 0xFFFF_FFFF_0000_0000 };
    first = 16;
    last = 16;
    size = 1;
  };
}

one_thread-IsList : IsList one_thread.list ((16, element 2 6 100) ∷ []) ((24, no_element) ∷ [])
one_thread-IsList = record {
  chain = (refl, ground arith, refl, tt, refl);
  spare = (refl, ground arith, refl, tt, refl);
  apart = ((ground arith, tt), tt);
  ends = refl;
  counted = refl;
  filled = ground arith;
}

-- a thread in the first queue, which is running
abbrev busy : Local
busy = record {
  top_queue = one_thread;
  normal_queue = queue_of 0;
  background_queue = queue_of 0;
  idle_thread = 4;
  running = 100;
  armed = false;
  requests = 0;
  ready = true;
  handling = true;
}

abbrev new_thread : Thread
new_thread = record { address = 200; policy = background; priority = 3 }

push-waits_example :
    (q : Queue) × (push layout busy new_thread ≡ ok (with_queue background q busy))
    × IsList q.list (place earlier 16 (element 3 0 200) []) ((24, no_element) ∷ [])
    × (q.total_load ≡ 2 + 3)
push-waits_example =
    push-waits layout busy new_thread 16 no_element [] ((24, no_element) ∷ []) (inl (omega arith))
      empty-IsList (omega arith) (omega arith)

-- no thread waits
abbrev calm : Local
calm = record busy { top_queue = queue_of 0 }

-- the running thread, as the last one of its queue
abbrev alone : Local
alone = record busy { top_queue = queue_of 0 }

abbrev after : Local
after = record alone { top_queue = record (queue_of 0) { current = no_element } }

abbrev running_thread : Thread
running_thread = record { address = 100; policy = top; priority = 2 }

removed : remove layout 4 alone running_thread ≡ ok after
unfolding remove remove_queue remove_first
removed = refl
