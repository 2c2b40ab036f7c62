-- ===== src/Utils/HashMap/Bucket.antt =====
-- What the operations of kernel/utils/hash_map.h do to the chain of one bucket.
use reaveros_iteration.Common.{
  ℕ, zero, suc, ◌+◌, ◌≡◌, ◌≢◌, ◌<◌, refl, sym, subst, ap, ◌∙◌, true, [], ◌∷◌, arith, ok, fault,
  ◌==◌, if◌then◌else◌, add64, sub64, length, ℕ_discrete,
}
use reaveros_iteration.Utils.Nodes.{Memory, write, fresh_node}
use reaveros_iteration.Utils.Nodes.Linked.{Cells, IsAway, Linked, Linked-write, Linked-prev}
use reaveros_iteration.Utils.Allocator.{Layout, allocate, refill, free as free_node}
use reaveros_iteration.Utils.HashMap.{
  Element, HashMap, find_from, slot_of, find, contains, set_slot, new_element, insert_only,
  insert_front, insert, unlink, dispose, remove,
}

module _ {V : Type 0} where
  -- the first node with the key, 0 for none
  abbrev pub address_of : ℕ → Cells (Element V) → ℕ
  address_of k [] = 0
  address_of k ((a, e) ∷ xs) = if e.key == k then a else address_of k xs

  -- The search of a bucket ends at the first node that has the key, and with null where none has.
  pub find_from-address_of :
      (m : Memory (Element V)) (fuel k p : ℕ) (xs : Cells (Element V))
      → Linked m p xs
      → length xs < fuel
      → find_from m fuel k p ≡ ok (address_of k xs)
  unfolding find_from
  find_from-address_of m zero k p xs h l = absurd (omega (arith, l))
  find_from-address_of m (suc fuel) k p [] h l = ground arith
  find_from-address_of m (suc fuel) k p ((a, e) ∷ xs) h l =
      let rest = find_from-address_of m fuel k (m a).next xs h.4 (omega (arith, l)) in
      ground (arith, rest)

  -- the map with a fresh node for the key, which is in no bucket yet
  abbrev created : Layout (Element V) → HashMap V → ℕ → V → HashMap V
  created layout t k v =
      let n = t.pool.free in
      record t {
        memory =
            write (write t.memory n (fresh_node layout.blank)) n
              (fresh_node (record { key = k; value = v }));
        pool = record (t.pool) { free = (t.memory n).next };
        size = add64 t.size 1;
      }

  new_element-created :
      (layout : Layout (Element V)) (t : HashMap V) (k : ℕ) (v : V)
      → t.pool.free_count ≢ 0
      → t.pool.free ≢ 0
      → new_element layout t k v ≡ ok (t.pool.free, created layout t k v)
  unfolding new_element allocate refill
  new_element-created layout t k v filled real = ground arith

  -- `xs` is the bucket of `k`, and the allocator has a node that is not in it
  pub record Ready (hasher : ℕ → ℕ) (t : HashMap V) (k : ℕ) (xs : Cells (Element V)) : Type 0 where
    pub chain : Linked t.memory (t.table (slot_of hasher k)) xs
    pub filled : t.pool.free_count ≢ 0
    pub real : t.pool.free ≢ 0
    pub away : IsAway t.pool.free xs

  -- the new node stands before the others of its bucket, and no other bucket has changed
  pub record Puts (hasher : ℕ → ℕ) (t : HashMap V) (k : ℕ) (v : V) (xs : Cells (Element V))
      (r : HashMap V) : Type 0 where
    pub chain :
        Linked r.memory
          (r.table (slot_of hasher k))
          ((t.pool.free, record { key = k; value = v }) ∷ xs)
    pub size : r.size ≡ add64 t.size 1
    pub others : (i : ℕ) → i ≢ slot_of hasher k → r.table i ≡ t.table i

  insert_only-Puts :
      (hasher : ℕ → ℕ) (layout : Layout (Element V)) (t : HashMap V) (k : ℕ) (v : V)
      → Ready hasher t k []
      → (r : HashMap V) × (insert_only hasher layout t k v ≡ ok r) × Puts hasher t k v [] r
  unfolding insert_only
  insert_only-Puts hasher layout t k v h =
      let s = created layout t k v in
      let run = new_element-created layout t k v h.filled h.real in
      let table = set_slot s.table (slot_of hasher k) t.pool.free in
      (
        record s { table = table },
        ground (arith, run),
        record {
          chain = (ground arith, h.real, ground arith, tt, ground arith);
          size = refl;
          others = λ i ne. ground arith;
        },
      )

  insert_front-Puts :
      (hasher : ℕ → ℕ) (layout : Layout (Element V)) (t : HashMap V) (k : ℕ) (v : V)
      (xs : Cells (Element V))
      → t.table (slot_of hasher k) ≢ 0
      → Ready hasher t k xs
      → (r : HashMap V) × (insert_front hasher layout t k v ≡ ok r) × Puts hasher t k v xs r
  unfolding insert_front
  insert_front-Puts hasher layout t k v xs some h =
      let s = created layout t k v in
      let run = new_element-created layout t k v h.filled h.real in
      let n = t.pool.free in
      let p = t.table (slot_of hasher k) in
      let m₁ = write s.memory n (record (s.memory n) { next = p }) in
      let m₂ = write m₁ p (record (m₁ p) { prev = n }) in
      let c₀ = Linked-write t.memory n (fresh_node layout.blank) p xs h.away h.chain in
      let c₁ =
        Linked-write (write t.memory n (fresh_node layout.blank)) n
          (fresh_node (record { key = k; value = v })) p xs h.away c₀ in
      let c₂ = Linked-write s.memory n (record (s.memory n) { next = p }) p xs h.away c₁ in
      let c₃ = Linked-prev m₁ p n p xs c₂ in
      let next : (m₂ n).next ≡ p = ground arith in
      (
        record s { memory = m₂; table = set_slot s.table (slot_of hasher k) n },
        ground (arith, run),
        record {
          chain = (
            ground arith,
            h.real,
            ground arith,
            h.away,
            subst (λ q. Linked m₂ q xs) (sym next) c₃,
          );
          size = refl;
          others = λ i ne. ground arith;
        },
      )

  -- a bucket with nodes has a first one
  head-not-zero :
      (m : Memory (Element V)) (p k : ℕ) (xs : Cells (Element V)) → Linked m p xs → p ≡ 0 → xs ≡ []
  head-not-zero m p k [] h e = refl
  head-not-zero m p k ((a, u) ∷ xs) h e = absurd (h.1 (sym h.0 ∙ e))

  -- Where no node of its bucket has the key, `insert` puts a fresh node with the key and the value
  -- at the head of the bucket, counts it, and spares the other buckets.
  pub insert-Puts :
      (hasher : ℕ → ℕ) (layout : Layout (Element V)) (fuel : ℕ) (t : HashMap V) (k : ℕ) (v : V)
      (xs : Cells (Element V))
      → Ready hasher t k xs
      → length xs < fuel
      → address_of k xs ≡ 0
      → (r : HashMap V) × (insert hasher layout fuel t k v ≡ ok r) × Puts hasher t k v xs r
  unfolding insert find
  insert-Puts hasher layout fuel t k v xs h l absent =
      elim (ℕ_discrete (t.table (slot_of hasher k)) 0) [
        | yes e ↦
            let none = head-not-zero t.memory (t.table (slot_of hasher k)) k xs h.chain e in
            let (r, run, puts) =
              insert_only-Puts hasher layout t k v (subst (Ready hasher t k) none h) in
            (r, ground (arith, run), subst (λ ys. Puts hasher t k v ys r) (sym none) puts)
        | no ne ↦
            let (r, run, puts) = insert_front-Puts hasher layout t k v xs ne h in
            let found =
              find_from-address_of t.memory fuel k (t.table (slot_of hasher k)) xs h.chain l in
            (r, ground (arith, run, found, absent), puts)
      ]

  -- hash_map::insert of a key that its bucket, a chain of nodes, does not hold, while the allocator
  -- has a node in its free list that is not in the bucket and a count of free nodes other than 0,
  -- and with more fuel than the bucket will have nodes, returns; after it the key is found, and
  -- every other key of the bucket is found exactly when it was before.
  pub contains-insert :
      (hasher : ℕ → ℕ) (layout : Layout (Element V)) (fuel : ℕ) (t : HashMap V) (k : ℕ) (v : V)
      (xs : Cells (Element V))
      → Ready hasher t k xs
      → length xs + 1 < fuel
      → address_of k xs ≡ 0
      → (r : HashMap V) × (insert hasher layout fuel t k v ≡ ok r)
        × (contains hasher fuel r k ≡ ok true)
        × ((j : ℕ)
            → slot_of hasher j ≡ slot_of hasher k
            → j ≢ k
            → contains hasher fuel r j ≡ contains hasher fuel t j)
  unfolding contains find
  contains-insert hasher layout fuel t k v xs h l absent =
      let (r, run, puts) = insert-Puts hasher layout fuel t k v xs h (omega arith) absent in
      let ys : Cells (Element V) = (t.pool.free, record { key = k; value = v }) ∷ xs in
      let search : (j : ℕ)
          → find_from r.memory fuel j (r.table (slot_of hasher k)) ≡ ok (address_of j ys) =
        λ j.
          find_from-address_of r.memory fuel j (r.table (slot_of hasher k)) ys puts.chain
            (omega arith) in
      let before : (j : ℕ)
          → find_from t.memory fuel j (t.table (slot_of hasher k)) ≡ ok (address_of j xs) =
        λ j.
          find_from-address_of t.memory fuel j (t.table (slot_of hasher k)) xs h.chain
            (omega arith) in
      (
        r,
        run,
        ground (arith, search k, h.real),
        λ j same ne. ground (arith, search j, before j, same, ne),
      )

  unlink-ok :
      (hasher : ℕ → ℕ) (t : HashMap V) (k elem : ℕ)
      → elem ≢ 0
      → (r : HashMap V) × (unlink hasher t k elem ≡ ok r) × (r.default_pool ≡ t.default_pool)
  unfolding unlink
  unlink-ok hasher t k elem real =
      let e = t.memory elem in
      elim (ℕ_discrete e.prev 0) [
        | yes head ↦
            (record t { table = set_slot t.table (slot_of hasher k) e.next }, ground arith, refl)
        | no behind ↦
            let m₁ = write t.memory e.prev (record (t.memory e.prev) { next = e.next }) in
            let m₂ = write m₁ e.next (record (m₁ e.next) { prev = e.prev }) in
            elim (ℕ_discrete e.next 0) [
              | yes last ↦ (record t { memory = m₁ }, ground arith, refl)
              | no between ↦ (record t { memory = m₂ }, ground arith, refl)
            ]
      ]

  dispose_fault :
      (t : HashMap V) (elem : ℕ)
      → elem ≢ 0
      → t.default_pool.free ≡ 0
      → t.default_pool.free_count ≡ 0
      → dispose t elem ≡ fault
  unfolding dispose free_node
  dispose_fault t elem real none empty = ground arith

  -- Nothing puts a node into the allocator that `delete` gives nodes to, and that writes through
  -- its null head: while it is empty, a key that is found cannot be removed.
  pub remove_found :
      (hasher : ℕ → ℕ) (fuel : ℕ) (t : HashMap V) (k : ℕ) (xs : Cells (Element V))
      → Linked t.memory (t.table (slot_of hasher k)) xs
      → length xs < fuel
      → address_of k xs ≢ 0
      → t.default_pool.free ≡ 0
      → t.default_pool.free_count ≡ 0
      → remove hasher fuel t k ≡ fault
  unfolding remove find
  remove_found hasher fuel t k xs h l some none empty =
      let found = find_from-address_of t.memory fuel k (t.table (slot_of hasher k)) xs h l in
      let elem = address_of k xs in
      let (r, run, same) = unlink-ok hasher t k elem some in
      let stuck =
        dispose_fault (record r { size = sub64 r.size 1 }) elem some (ap (λ a. a.free) same ∙ none)
          (ap (λ a. a.free_count) same ∙ empty) in
      ground (arith, found, some, run, stuck)

  -- A key that is not found is counted as removed: the size falls, and wraps around from 0.
  pub remove_absent :
      (hasher : ℕ → ℕ) (fuel : ℕ) (t : HashMap V) (k : ℕ) (xs : Cells (Element V))
      → Linked t.memory (t.table (slot_of hasher k)) xs
      → length xs < fuel
      → address_of k xs ≡ 0
      → remove hasher fuel t k ≡ ok (record t { size = sub64 t.size 1 })
  unfolding remove find dispose
  remove_absent hasher fuel t k xs h l absent =
      let found = find_from-address_of t.memory fuel k (t.table (slot_of hasher k)) xs h l in
      ground (arith, found, absent)
