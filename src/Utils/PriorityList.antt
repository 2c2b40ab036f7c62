-- ===== src/Utils/PriorityList.antt =====
-- kernel/utils/priority_list.h. Payloads are compared by `less`, the `Comparator`.
-- Every caller inserts a value whose links are null, so an initializer sets the payload alone.
-- Locks are not modelled: each operation runs under its own lock.
pub mod State
pub mod Insert
pub mod Pop
pub mod Order
pub mod Remove
use reaveros_iteration.Common.{
  ℕ, zero, suc, ◌+◌, ◌^◌, Bool, true, false, not, ◌||◌, Option, none, some, Run, ok, panic, fault,
  out_of_fuel, ◌>>=◌, ◌>>◌, panic_if, ◌==◌, leb, if◌then◌else◌, add64, sub64,
}
use reaveros_iteration.Utils.Nodes.{
  Node, Memory, fresh_node, write, load, store, set_next, set_prev,
}
use reaveros_iteration.Utils.Allocator.{Allocator, Layout, new_node, free as free_node}

pub record PriorityList (V : Type 0) : Type 0 where
  pub memory : Memory V
  pub pool : Allocator
  pub first : ℕ
  pub last : ℕ
  pub size : ℕ

module _ {V : Type 0} where
  -- the branches of `insert`, for the node `n`
  unfoldable pub insert_only : PriorityList V → ℕ → Run (PriorityList V)
  insert_only l n = ok (record l { first = n; last = n })

  unfoldable pub insert_front : PriorityList V → ℕ → Run (PriorityList V)
  insert_front l n = do m ← set_next l.memory n l.first; ok (record l { memory = m; first = n })

  unfoldable pub insert_back : PriorityList V → ℕ → Run (PriorityList V)
  insert_back l n = do
    m₁ ← set_next l.memory l.last n
    m₂ ← set_prev m₁ n l.last
    ok (record l { memory = m₂; last = n })

  -- `while (_comp(*n, *current)) current = current->next;`
  unfoldable pub advance : (V → V → Bool) → Memory V → ℕ → V → ℕ → Run ℕ
  advance less m zero v current = out_of_fuel
  advance less m (suc fuel) v current = load m current >>= λ c. elim (less v c.value) [
    | true ↦ advance less m fuel v c.next
    | false ↦ ok current
  ]

  unfoldable pub insert_after : PriorityList V → ℕ → ℕ → Run (PriorityList V)
  insert_after l current n = do
    m₁ ← set_prev l.memory n current
    c ← load m₁ current
    m₂ ← set_next m₁ n c.next
    m₃ ← set_prev m₂ c.next n
    m₄ ← set_next m₃ current n
    ok (record l { memory = m₄ })

  -- the chain of tests of `insert`, once the node stands in memory
  unfoldable pub link : (V → V → Bool) → PriorityList V → ℕ → V → Run (PriorityList V)
  unfolding insert_only insert_front insert_back insert_after advance
  link less l n v = if l.first == 0 then insert_only l n else do
    first ← load l.memory l.first
    if less v first.value then insert_front l n else do
      last ← load l.memory l.last
      if less last.value v || not (less v last.value)
          then insert_back l n
          else do current ← advance less l.memory (l.size + 1) v l.first; insert_after l current n

  unfoldable pub insert : (V → V → Bool) → Layout V → PriorityList V → V → Run (PriorityList V)
  unfolding link
  insert less layout l v = do
    (n, m, pool) ← new_node layout l.memory l.pool
    let m' = write m n (record (m n) { value = v })
    link less (record l { memory = m'; pool = pool; size = add64 l.size 1 }) n v

  -- `while (current && !c(*current)) current = current->next;`
  unfoldable pub seek : (V → Bool) → Memory V → ℕ → ℕ → Run ℕ
  seek c m zero current = out_of_fuel
  seek c m (suc fuel) current =
      if current == 0
      then ok 0
      else elim (c (m current).value) [ true ↦ ok current | false ↦ seek c m fuel (m current).next ]

  -- the two pointer updates of `remove`
  unfoldable pub unlink_prev : PriorityList V → Node V → Run (PriorityList V)
  unlink_prev l n =
      if n.prev == 0
      then ok (record l { first = n.next })
      else do m ← set_next l.memory n.prev n.next; ok (record l { memory = m })

  unfoldable pub unlink_next : PriorityList V → Node V → Run (PriorityList V)
  unlink_next l n =
      if n.next == 0
      then ok (record l { last = n.prev })
      else do m ← set_prev l.memory n.next n.prev; ok (record l { memory = m })

  -- the end of `remove`, once the links before `current` are set
  unfoldable pub release : PriorityList V → ℕ → Run (V × PriorityList V)
  unfolding unlink_next
  release l current = do
    n₁ ← load l.memory current
    l₂ ← unlink_next l n₁
    n₂ ← load l₂.memory current
    let m = write l₂.memory current (fresh_node n₂.value)
    (m', pool) ← free_node m l₂.pool current
    ok (n₂.value, record l₂ { memory = m'; pool = pool })

  unfoldable pub unlink : PriorityList V → ℕ → Run (V × PriorityList V)
  unfolding unlink_prev release
  unlink l current = do n ← load l.memory current; l₁ ← unlink_prev l n; release l₁ current

  -- `remove(c, success)`: `none` where `success` is set to false. The size falls all the same.
  unfoldable pub remove :
      (fuel : ℕ) (c : V → Bool) → PriorityList V → Run (Option V × PriorityList V)
  unfolding seek unlink
  remove fuel c l = if l.size == 0 then ok (none, l) else do
    let l₁ = record l { size = sub64 l.size 1 }
    current ← seek c l₁.memory fuel l₁.first
    if current == 0 then ok (none, l₁) else do (v, l₂) ← unlink l₁ current; ok (some v, l₂)

  -- `update(c, u)`: nothing happens to a payload that is not found, but the size
  unfoldable pub update :
      (V → V → Bool)
      → Layout V
      → (fuel : ℕ) (c : V → Bool) (u : V → V) → PriorityList V
      → Run (PriorityList V)
  unfolding remove insert
  update less layout fuel c u l = do
    (found, l₁) ← remove fuel c l
    elim found [ none ↦ ok l₁ | some v ↦ insert less layout l₁ (u v) ]

  -- `remove(c)`, which panics where nothing is found
  unfoldable pub remove_existing :
      (fuel : ℕ) (c : V → Bool) → PriorityList V → Run (V × PriorityList V)
  unfolding remove
  remove_existing fuel c l = do
    (found, l₁) ← remove fuel c l
    elim found [ none ↦ panic | some v ↦ ok (v, l₁) ]

  -- The node that `find(c)` returns a pointer to, 0 for null.
  unfoldable pub find : (fuel : ℕ) (c : V → Bool) → PriorityList V → Run ℕ
  unfolding seek
  find fuel c l = if l.size == 0 then ok 0 else do
    first ← load l.memory l.first
    if c first.value then ok l.first else do
      last ← load l.memory l.last
      if c last.value
          then ok l.last
          else if leb l.size 1
          then ok 0
          else seek c l.memory fuel first.next

  -- `top()`, the address of the first node
  unfoldable pub top : PriorityList V → ℕ
  top l = l.first

  -- `if (_size) { _first->prev = nullptr; }` and `if (!_size) { _last = nullptr; }`
  unfoldable pub reset_ends : PriorityList V → Run (PriorityList V)
  reset_ends l =
      if l.size == 0
      then ok (record l { last = 0 })
      else do m ← set_prev l.memory l.first 0; ok (record l { memory = m })

  unfoldable pub pop : PriorityList V → Run (V × PriorityList V)
  unfolding reset_ends
  pop l = if l.size == 0 then panic else do
    first ← load l.memory l.first
    l₁ ← reset_ends (record l { size = sub64 l.size 1; first = first.next })
    first' ← load l₁.memory l.first
    let m = write l₁.memory l.first (fresh_node first'.value)
    (m', pool) ← free_node m l₁.pool l.first
    ok (first'.value, record l₁ { memory = m'; pool = pool })
