-- ===== src/Utils/Nodes.antt =====
-- The links of `utils::chained<T>` (kernel/utils/allocator.h) and the memory that holds nodes.
-- A pointer is an address, null is 0. An access through null is a fault; any other address holds
-- a node, since a read through a stale pointer does not trap.
pub mod Linked
use reaveros_iteration.Common.{ℕ, Bool, ◌==◌, if◌then◌else◌, Run, ok, fault, ◌>>=◌}

pub record Node (V : Type 0) : Type 0 where
  pub value : V
  pub next : ℕ
  pub prev : ℕ

abbrev pub Memory : Type 0 → Type 0
Memory V = ℕ → Node V

module _ {V : Type 0} where
  -- `T{}` with the given payload: both links are null
  abbrev pub fresh_node : V → Node V
  fresh_node v = record { value = v; next = 0; prev = 0 }

  abbrev pub write : Memory V → ℕ → Node V → Memory V
  write m p n q = if p == q then n else m q

  -- `*p`
  abbrev pub load : Memory V → ℕ → Run (Node V)
  load m p = if p == 0 then fault else ok (m p)

  abbrev pub store : Memory V → ℕ → Node V → Run (Memory V)
  store m p n = if p == 0 then fault else ok (write m p n)

  -- `p->next = q` and `p->prev = q`
  abbrev pub set_next : Memory V → ℕ → ℕ → Run (Memory V)
  set_next m p q = if p == 0 then fault else ok (write m p (record (m p) { next = q }))

  abbrev pub set_prev : Memory V → ℕ → ℕ → Run (Memory V)
  set_prev m p q = if p == 0 then fault else ok (write m p (record (m p) { prev = q }))
