-- ===== src/Utils/Allocator.antt =====
-- kernel/utils/allocator.h, with `allocate_chained` of kernel/inc.h for types below a page and
-- `memory::vm::allocate_address_range` of kernel/memory/vm.cpp, which hands out the pages.
-- Locks are not modelled: each operation runs under its own lock.

pub mod Free
pub mod Exhaustion
use reaveros_iteration.Common.{
  ℕ, zero, suc, ◌+◌, ◌-◌, ◌*◌, ◌/◌, ◌%◌, ◌^◌, Run, ok, panic, fault, ◌>>=◌, ltb, ◌==◌,
  if◌then◌else◌, add64, sub64, page_up,
}
use reaveros_iteration.Utils.Nodes.{Node, Memory, fresh_node, write, load, set_next, set_prev}

-- `fetch_sub` on `_lowest`, the lowest address handed out so far; the new value is the range
unfoldable pub allocate_address_range : ℕ → ℕ → Run ℕ
allocate_address_range lowest size =
    let ret = sub64 lowest (page_up size) in if ltb ret 0xFFFF_8000_0000_0000 then panic else ok ret

-- `sizeof(T)`, `sizeof(utils::aligner<T>::type)` and the payload of `T{}`
pub record Layout (V : Type 0) : Type 0 where
  pub size : ℕ
  pub aligned : ℕ
  pub blank : V

-- `_free_count` and `_free`, with `_lowest` of the address space
pub record Allocator : Type 0 where
  pub free_count : ℕ
  pub free : ℕ
  pub lowest : ℕ

module _ {V : Type 0} (layout : Layout V) where
  -- the `i`-th node of a fresh page: the test for the last one uses `sizeof(T)`
  unfoldable pub chunk_node : ℕ → ℕ → Node V
  chunk_node address i = record {
    value = layout.blank;
    prev = if i == 0 then 0 else address + i * layout.aligned - layout.aligned;
    next = if i == 4096 / layout.size - 1 then 0 else address + i * layout.aligned + layout.aligned;
  }

  -- the loop, with the rounds that are left
  unfoldable pub lay_chunk : ℕ → ℕ → ℕ → Memory V → Memory V
  lay_chunk zero address i m = m
  lay_chunk (suc k) address i m =
      lay_chunk k address (suc i) (write m (address + i * layout.aligned) (chunk_node address i))

  -- `allocate_chained<T>()`: the page and the memory with its nodes laid out
  unfoldable pub allocate_chained : Memory V → ℕ → Run (ℕ × Memory V)
  unfolding lay_chunk chunk_node
  allocate_chained m lowest = do
    address ← allocate_address_range lowest 4096
    ok (address, lay_chunk (4096 / layout.aligned) address 0 m)

  -- `if (!_free_count) { ... }`
  unfoldable pub refill : Memory V → Allocator → Run (Memory V × Allocator)
  unfolding allocate_chained
  refill m a =
      if a.free_count == 0
      then (do
        (address, m') ← allocate_chained m a.lowest
        ok (
          m',
          record {
            free_count = if ltb layout.size 4096 then 4096 / layout.size else 1;
            free = address;
            lowest = address;
          },
        ))
      else ok (m, a)

  unfoldable pub allocate : Memory V → Allocator → Run (ℕ × Memory V × Allocator)
  unfolding refill
  allocate m a = do
    (m', a') ← refill m a
    n ← load m' a'.free
    ok (a'.free, m', record a' { free = n.next })

  -- `new (_allocator) T{}`
  unfoldable pub new_node : Memory V → Allocator → Run (ℕ × Memory V × Allocator)
  unfolding allocate
  new_node m a = do (p, m', a') ← allocate m a; ok (p, write m' p (fresh_node layout.blank), a')

-- `_free->next->prev = ptr`, if there is such a node
unfoldable pub link_back : {V : Type 0} → Memory V → ℕ → ℕ → Run (Memory V)
link_back m second ptr = if second == 0 then ok m else set_prev m second ptr

unfoldable pub free : {V : Type 0} → Memory V → Allocator → ℕ → Run (Memory V × Allocator)
unfolding link_back
free m a ptr =
    let count = add64 a.free_count 1 in
    if count == 0 then ok (m, record a { free_count = count; free = ptr }) else do
      head ← load m a.free
      m₁ ← set_next m ptr head.next
      m₂ ← set_prev m₁ ptr a.free
      m₃ ← link_back m₂ head.next ptr
      m₄ ← set_next m₃ a.free ptr
      ok (m₄, record a { free_count = count })
