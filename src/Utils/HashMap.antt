-- ===== src/Utils/HashMap.antt =====
-- kernel/utils/hash_map.h. Keys are numbers, as in every use of the class; the hash function is
-- the template parameter, and `dumb_int_hash` its default. Locks are not modelled: each operation
-- runs under the lock of the map.
pub mod Bucket
use reaveros_iteration.Common.{
  ℕ, zero, suc, ◌+◌, ◌%◌, ◌^◌, ◌≡◌, Bool, true, false, not, Run, ok, fault, out_of_fuel, ◌>>=◌,
  ◌==◌, if◌then◌else◌, add64, sub64,
}
use reaveros_iteration.Utils.Nodes.{Node, Memory, fresh_node, write, load, set_next, set_prev}
use reaveros_iteration.Utils.Allocator.{Allocator, Layout, new_node, free as free_node}

-- the payload of `_element`
pub record Element (V : Type 0) : Type 0 where
  pub key : ℕ
  pub value : V

-- `default_pool` is the allocator that `delete elem` gives the node to
pub record HashMap (V : Type 0) : Type 0 where
  pub memory : Memory (Element V)
  pub table : ℕ → ℕ
  pub size : ℕ
  pub pool : Allocator
  pub default_pool : Allocator

abbrev pub dumb_int_hash : ℕ → ℕ
dumb_int_hash t = t

abbrev pub slot_of : (ℕ → ℕ) → ℕ → ℕ
slot_of hasher k = hasher k % 8192

-- `_hash_table[hash] = p`
abbrev pub set_slot : (ℕ → ℕ) → ℕ → ℕ → ℕ → ℕ
set_slot table h p i = if h == i then p else table i

module _ {V : Type 0} where
  -- `for (auto current = ...; current; current = current->next)`, 0 where no key matches
  unfoldable pub find_from : Memory (Element V) → ℕ → ℕ → ℕ → Run ℕ
  find_from m zero k current = out_of_fuel
  find_from m (suc fuel) k current =
      if current == 0 then ok 0 else elim ((m current).value.key == k) [
        | true ↦ ok current
        | false ↦ find_from m fuel k (m current).next
      ]

  -- `new (_allocator) _element{ k, v, this }`
  unfoldable pub new_element : Layout (Element V) → HashMap V → ℕ → V → Run (ℕ × HashMap V)
  unfolding new_node
  new_element layout t k v = do
    (n, m, pool) ← new_node layout t.memory t.pool
    let m' = write m n (fresh_node (record { key = k; value = v }))
    ok (n, record t { memory = m'; pool = pool; size = add64 t.size 1 })

  -- `delete elem`, which does nothing on null
  unfoldable pub dispose : HashMap V → ℕ → Run (HashMap V)
  unfolding free_node
  dispose t elem =
      if elem == 0
      then ok t
      else (free_node t.memory t.default_pool elem >>= λ (m, pool).
          ok (record t { memory = m; default_pool = pool }))

  module _ (hasher : ℕ → ℕ) where
    unfoldable pub find : ℕ → HashMap V → ℕ → Run ℕ
    find fuel t k = find_from t.memory fuel k (t.table (slot_of hasher k))

    unfoldable pub contains : ℕ → HashMap V → ℕ → Run Bool
    contains fuel t k = do elem ← find fuel t k; ok (not (elem == 0))

    module _ (layout : Layout (Element V)) where
      -- the first element of a bucket
      unfoldable pub insert_only : HashMap V → ℕ → V → Run (HashMap V)
      insert_only t k v = do
        (n, t₁) ← new_element layout t k v
        ok (record t₁ { table = set_slot t₁.table (slot_of hasher k) n })

      -- an element before the others of a bucket
      unfoldable pub insert_front : HashMap V → ℕ → V → Run (HashMap V)
      insert_front t k v = do
        (n, t₁) ← new_element layout t k v
        m₁ ← set_next t₁.memory n (t₁.table (slot_of hasher k))
        m₂ ← set_prev m₁ (t₁.table (slot_of hasher k)) n
        ok (record t₁ { memory = m₂; table = set_slot t₁.table (slot_of hasher k) n })

      -- `current->value = v`
      abbrev pub assign_value : HashMap V → ℕ → V → HashMap V
      assign_value t p v = record t {
        memory =
            write t.memory p
              (record (t.memory p) { value = record ((t.memory p).value) { value = v } });
      }

      unfoldable pub insert : ℕ → HashMap V → ℕ → V → Run (HashMap V)
      insert fuel t k v =
          if t.table (slot_of hasher k) == 0
          then insert_only t k v
          else (find fuel t k >>= λ current.
              if current == 0 then insert_front t k v else ok (assign_value t current v))

      -- `operator[]`, which returns the address of the element
      unfoldable pub find_or_insert : ℕ → HashMap V → ℕ → V → Run (ℕ × HashMap V)
      find_or_insert fuel t k blank = find fuel t k >>= λ elem.
          if elem == 0
          then (insert fuel t k blank >>= λ t₁.
              find fuel t₁ k >>= λ elem'. if elem' == 0 then fault else ok (elem', t₁))
          else ok (elem, t)

    -- the three cases of the links; the head of a bucket leaves `next->prev` as it is
    unfoldable pub unlink : HashMap V → ℕ → ℕ → Run (HashMap V)
    unlink t k elem = do
      e ← load t.memory elem
      if e.prev == 0
          then ok (record t { table = set_slot t.table (slot_of hasher k) e.next })
          else (set_next t.memory e.prev e.next >>= λ m₁.
              (if e.next == 0 then ok m₁ else set_prev m₁ e.next e.prev) >>= λ m₂.
              ok (record t { memory = m₂ }))

    unfoldable pub remove : ℕ → HashMap V → ℕ → Run (HashMap V)
    remove fuel t k = do
      elem ← find fuel t k
      t₁ ← (if elem == 0 then ok t else unlink t k elem)
      dispose (record t₁ { size = sub64 t₁.size 1 }) elem
