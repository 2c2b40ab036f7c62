-- ===== src/Tests/Lists.antt =====
-- Priority lists, their allocator and hash maps of kernel/utils, at three nodes.
use reaveros_iteration.Common.{
  ℕ, ◌+◌, ◌*◌, ◌%◌, ◌≡◌, ◌≢◌, refl, true, false, [], ◌∷◌, map, arith, ok, fault, ◌>>=◌, ◌==◌, ltb,
  if◌then◌else◌,
}
use reaveros_iteration.Utils.Nodes.{Memory, fresh_node}
use reaveros_iteration.Utils.Nodes.Linked.{Cells, Linked}
use reaveros_iteration.Utils.Allocator.{Allocator, Layout, allocate_address_range, new_node, free}
use reaveros_iteration.Utils.Allocator.Exhaustion.{
  allocate_times, page_cells, allocate_times-exhausts,
}
use reaveros_iteration.Utils.PriorityList.{PriorityList, insert, pop}
use reaveros_iteration.Utils.PriorityList.State.{IsList}
use reaveros_iteration.Utils.PriorityList.Insert.{place, insert-IsList}
use reaveros_iteration.Utils.PriorityList.Pop.{pop-IsList}
use reaveros_iteration.Utils.PriorityList.Order.{IsLeastFirst, insert-IsLeastFirst}
use reaveros_iteration.Utils.HashMap.{
  Element, HashMap, dumb_int_hash, insert as insert_key, contains,
}
use reaveros_iteration.Utils.HashMap.Bucket.{contains-insert}

-- 5, 7 and 9, the second node with a given `prev` pointer, and two free nodes
abbrev cells : ℕ → Memory ℕ
cells p a =
    if a == 8
    then record { value = 5; next = 16; prev = 0 }
    else if a == 16
    then record { value = 7; next = 24; prev = p }
    else if a == 24
    then record { value = 9; next = 0; prev = 16 }
    else if a == 32
    then record { value = 0; next = 40; prev = 0 }
    else record { value = 0; next = 0; prev = 32 }

abbrev three : ℕ → PriorityList ℕ
three p = record {
  memory = cells p;
  pool = record { free_count = 2; free = 32; lowest = 0xFFFF_FFFF_0000_0000 };
  first = 8;
  last = 24;
  size = 3;
}

abbrev tail_cells : Cells ℕ
tail_cells = (24, 9) ∷ []

abbrev three_cells : Cells ℕ
three_cells = (8, 5) ∷ (16, 7) ∷ tail_cells

abbrev spare_cells : Cells ℕ
spare_cells = (32, 0) ∷ (40, 0) ∷ []

abbrev layout : Layout ℕ
layout = record { size = 32; aligned = 32; blank = 0 }

three-IsList : (p : ℕ) → IsList (three p) three_cells spare_cells
three-IsList p = record {
  chain = ground arith;
  spare = ground arith;
  apart = ground arith;
  ends = refl;
  counted = refl;
  filled = ground arith;
}

insert-IsList_example :
    (r : PriorityList ℕ) × (insert ltb layout (three 8) 3 ≡ ok r)
    × IsList r (place ltb 32 3 three_cells) ((40, 0) ∷ [])
insert-IsList_example =
    insert-IsList ltb layout (three 8) 3 32 0 three_cells ((40, 0) ∷ []) (three-IsList 8)
      (omega arith)

-- the new payload stands behind the first one
insert_runs :
    (insert ltb layout (three 8) 8 >>= λ r.
    pop r >>= λ (v, r'). pop r' >>= λ (w, _). ok (v * 10 + w))
    ≡ ok 58
unfolding insert pop new_node free
insert_runs = refl

pop-IsList_example :
    (r : PriorityList ℕ) × (pop (three 8) ≡ ok (5, r))
    × IsList r ((16, 7) ∷ tail_cells) ((32, 0) ∷ (8, 5) ∷ (40, 0) ∷ [])
    × (r.pool.free_count ≡ 3)
pop-IsList_example =
    pop-IsList (three 8) 8 5 ((16, 7) ∷ tail_cells) 32 0 ((40, 0) ∷ []) (three-IsList 8)
      (omega arith) (omega arith)

ltb_trans : (a b c : ℕ) → ltb a b ≡ true → ltb b c ≡ true → ltb a c ≡ true
ltb_trans a b c h k = ground arith

ltb_irrefl : (a : ℕ) → ltb a a ≡ false
ltb_irrefl a = ground arith

insert-IsLeastFirst_example :
    (r : PriorityList ℕ) × (ys : Cells ℕ) × (insert ltb layout (three 8) 3 ≡ ok r)
    × IsList r ys ((40, 0) ∷ [])
    × IsLeastFirst ltb ys
insert-IsLeastFirst_example =
    insert-IsLeastFirst ltb layout (three 8) 3 32 0 three_cells ((40, 0) ∷ []) ltb_trans ltb_irrefl
      (three-IsList 8) (omega arith) (refl, (refl, tt))

abbrev new_pool : Allocator
new_pool = record { free_count = 0; free = 0; lowest = 0xFFFF_FFFF_0000_0000 }

abbrev blank_memory : Memory ℕ
blank_memory a = fresh_node 0

page : allocate_address_range 0xFFFF_FFFF_0000_0000 4096 ≡ ok 0xFFFF_FFFE_FFFF_F000
unfolding allocate_address_range
page = refl

allocate_times-exhausts_example :
    ((r : Memory ℕ × Allocator) × (allocate_times layout 128 blank_memory new_pool
        ≡ ok (map (λ c. c.0) (page_cells layout 128 0xFFFF_FFFE_FFFF_F000 0), r.0, r.1)))
    × (allocate_times layout 129 blank_memory new_pool ≡ fault)
allocate_times-exhausts_example =
    allocate_times-exhausts layout blank_memory new_pool 0xFFFF_FFFE_FFFF_F000 127 refl page
      (omega arith) (omega arith) refl (omega arith)

-- a map with the keys 1 and 8193 in one bucket
abbrev elements : Memory (Element ℕ)
elements a =
    if a == 8
    then record { value = record { key = 1; value = 10 }; next = 16; prev = 0 }
    else if a == 16
    then record { value = record { key = 8193; value = 20 }; next = 0; prev = 8 }
    else record { value = record { key = 0; value = 0 }; next = 0; prev = 0 }

abbrev two_keys : HashMap ℕ
two_keys = record {
  memory = elements;
  table = λ i. if i == 1 then 8 else 0;
  size = 2;
  pool = record { free_count = 1; free = 24; lowest = 0xFFFF_FFFF_0000_0000 };
  default_pool = record { free_count = 0; free = 0; lowest = 0xFFFF_FFFF_0000_0000 };
}

abbrev bucket : Cells (Element ℕ)
bucket = (8, record { key = 1; value = 10 }) ∷ (16, record { key = 8193; value = 20 }) ∷ []

abbrev element_layout : Layout (Element ℕ)
element_layout = record { size = 64; aligned = 64; blank = record { key = 0; value = 0 } }

bucket-Linked : Linked elements 8 bucket
bucket-Linked = (refl, ground arith, refl, ground arith, (refl, ground arith, refl, tt, refl))

contains-insert_example :
    (r : HashMap ℕ) × (insert_key dumb_int_hash element_layout 4 two_keys 16385 30 ≡ ok r)
    × (contains dumb_int_hash 4 r 16385 ≡ ok true)
    × ((j : ℕ)
        → dumb_int_hash j % 8192 ≡ 1
        → j ≢ 16385
        → contains dumb_int_hash 4 r j ≡ contains dumb_int_hash 4 two_keys j)
contains-insert_example =
    contains-insert dumb_int_hash element_layout 4 two_keys 16385 30 bucket
      (record {
        chain = bucket-Linked;
        filled = ground arith;
        real = ground arith;
        away = ground arith;
      })
      (omega arith) refl
