-- ===== src/Tests/Queues.antt =====
-- The queue of kernel/utils/vfq.h with two threads, and an initial ram disk of kernel/utils/raf.h.
use reaveros_iteration.Common.{
  ℕ, ◌+◌, ◌≡◌, ◌≢◌, ◌↔◌, ◌<◌, refl, true, false, [], ◌∷◌, arith, ok, ◌==◌, if◌then◌else◌,
}
use reaveros_iteration.Utils.Nodes.{Memory}
use reaveros_iteration.Utils.Nodes.Linked.{Cells}
use reaveros_iteration.Utils.Allocator.{Layout}
use reaveros_iteration.Utils.PriorityList.State.{IsList}
use reaveros_iteration.Utils.PriorityList.Insert.{place}
use reaveros_iteration.Utils.Vfq.{Element, Queue, no_element, earlier, postpone, pop}
use reaveros_iteration.Utils.Vfq.Load.{element, pop-postpone}
use reaveros_iteration.Utils.Raf.{Bytes, compare, compare-prefix}

abbrev thread : Element
thread = element 2 6 100

-- one thread, and two free nodes
abbrev nodes : Memory Element
nodes a =
    if a == 8
    then record { value = thread; next = 0; prev = 0 }
    else if a == 16
    then record { value = no_element; next = 24; prev = 0 }
    else record { value = no_element; next = 0; prev = 16 }

abbrev one_thread : Queue
one_thread = record {
  list = record {
    memory = nodes;
    pool = record { free_count = 2; free = 16; lowest = 0xFFFF_FFFF_0000_0000 };
    first = 8;
    last = 8;
    size = 1;
  };
  current = no_element;
  valid_current = false;
  total_load = 2;
}

abbrev spare_nodes : Cells Element
spare_nodes = (24, no_element) ∷ []

abbrev element_layout : Layout Element
element_layout = record { size = 64; aligned = 64; blank = no_element }

one_thread-IsList : IsList (one_thread.list) ((8, thread) ∷ []) ((16, no_element) ∷ spare_nodes)
one_thread-IsList = record {
  chain = (refl, ground arith, refl, tt, refl);
  spare = (refl, ground arith, refl, ground arith, (refl, ground arith, refl, tt, refl));
  apart = ground arith;
  ends = refl;
  counted = refl;
  filled = ground arith;
}

pop-postpone_example :
    (r : Queue) × (pop 8 element_layout one_thread ≡ ok (100, r))
    × IsList r.list (place earlier 16 (postpone 8 thread) []) ((8, thread) ∷ spare_nodes)
    × (r.list.size ≡ 1)
    × (r.total_load ≡ 2)
    × (r.valid_current ≡ false)
pop-postpone_example =
    pop-postpone 8 element_layout one_thread 8 thread [] 16 no_element spare_nodes one_thread-IsList
      refl (ground arith) (omega arith) (omega arith)

-- "ab" and an end at 0, "abc" at 8
abbrev names : Bytes
names a =
    if a == 0
    then 97
    else if a == 1
    then 98
    else if a == 8
    then 97
    else if a == 9
    then 98
    else if a == 10
    then 99
    else 0

compare_prefix : compare names 8 0 2 ≡ true
unfolding compare
compare_prefix = refl

compare-prefix_example :
    (compare names 8 0 2 ≡ true)
    ↔ ((i : ℕ) → i < 2 → (names (8 + i) ≢ 0) × (names (8 + i) ≡ names (0 + i)))
compare-prefix_example = compare-prefix names 8 0 2
