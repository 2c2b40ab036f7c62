-- ===== src/Utils/PriorityList/Pop.antt =====
-- `pop` of kernel/utils/priority_list.h.
use reaveros_iteration.Common.{
  ℕ, ◌+◌, ◌≡◌, ◌≢◌, ◌<◌, ◌^◌, refl, subst, [], ◌∷◌, arith, ok, length, sub64,
}
use reaveros_iteration.Utils.Nodes.{Memory, write, fresh_node}
use reaveros_iteration.Utils.Nodes.Linked.{
  Cells, IsAway, Linked, Linked-frame, Linked-prev, last_address, ne_of_near,
}
use reaveros_iteration.Utils.Allocator.{Allocator, free}
use reaveros_iteration.Utils.Allocator.Free.{Frees, free-Frees}
use reaveros_iteration.Utils.PriorityList.{PriorityList, reset_ends, pop}
use reaveros_iteration.Utils.PriorityList.State.{Apart-IsAway, Apart-near, Apart-insert, IsList}

module _ {V : Type 0} where
  -- the memory with the popped node cut off and cleared
  record Cut (l : PriorityList V) (a : ℕ) (v : V) (xs : Cells V) (r : PriorityList V) : Type 0 where
    chain : Linked r.memory r.first xs
    ends : r.last ≡ last_address r.last xs
    here : (r.memory a).value ≡ v
    pool : r.pool ≡ l.pool
    size : r.size ≡ length xs
    same : (b : ℕ) → b ≢ a → IsAway b xs → r.memory b ≡ l.memory b

  reset_ends-Cut :
      (l : PriorityList V) (a : ℕ) (v : V) (xs : Cells V)
      → (l.memory a).value ≡ v
      → Linked l.memory l.first xs
      → IsAway a xs
      → l.last ≡ last_address a xs
      → l.size ≡ length xs
      → (r : PriorityList V) × (reset_ends l ≡ ok r) × Cut l a v xs r
  unfolding reset_ends
  reset_ends-Cut l a v [] here h away ends counted = (
    record l { last = 0 },
    ground arith,
    record {
      chain = h;
      ends = refl;
      here = here;
      pool = refl;
      size = counted;
      same = λ b ne out. refl;
    },
  )
  reset_ends-Cut l a v ((b, u) ∷ ys) here h away ends counted =
      let m = write l.memory l.first (record (l.memory l.first) { prev = 0 }) in
      (
        record l { memory = m },
        ground (arith, h),
        record {
          chain = Linked-prev l.memory l.first 0 l.first ((b, u) ∷ ys) h;
          ends = ends;
          here = ground (arith, h.0, away.0);
          pool = refl;
          size = counted;
          same = λ c ne out. ground (arith, h.0, out.0);
        },
      )

  -- `l` once its first node, the node `a`, is not counted and no longer first
  abbrev headless : PriorityList V → ℕ → PriorityList V
  headless l a = record l { size = sub64 l.size 1; first = (l.memory a).next }

  -- the cleared node leaves the free list as it was
  Cut-spare :
      (l r : PriorityList V) (a : ℕ) (v : V) (xs : Cells V) (f : ℕ) (u : V) (fs : Cells V)
      → IsList l ((a, v) ∷ xs) ((f, u) ∷ fs)
      → Cut (headless l a) a v xs r
      → Linked (write r.memory a (fresh_node v)) r.pool.free ((f, u) ∷ fs)
  Cut-spare l r a v xs f u fs h c =
      let m = write r.memory a (fresh_node v) in
      subst (λ q. Linked m q ((f, u) ∷ fs)) (ground (arith, c.pool))
        (Linked-frame l.memory m l.pool.free ((f, u) ∷ fs)
          (λ b near.
            let b≢a = ne_of_near a b ((f, u) ∷ fs) h.apart.0 near in
            let kept = c.same b b≢a (Apart-IsAway b ((a, v) ∷ xs) ((f, u) ∷ fs) h.apart near).1 in
            (ground (arith, kept), ground (arith, kept)))
          h.spare)

  pop_run :
      (l r : PriorityList V) (a : ℕ) (v : V) (s : Memory V × Allocator)
      → l.size ≢ 0
      → l.first ≡ a
      → a ≢ 0
      → reset_ends (headless l a) ≡ ok r
      → (r.memory a).value ≡ v
      → free (write r.memory a (fresh_node v)) r.pool a ≡ ok s
      → pop l ≡ ok (v, record r { memory = s.0; pool = s.1 })
  unfolding pop
  pop_run l r a v s some first real run here freed = ground arith

  -- the list without its first node, which is free now
  Cut-IsList :
      (l r : PriorityList V) (a : ℕ) (v : V) (xs : Cells V) (f : ℕ) (u : V) (fs : Cells V)
      (s : Memory V × Allocator)
      → IsList l ((a, v) ∷ xs) ((f, u) ∷ fs)
      → Cut (headless l a) a v xs r
      → Frees (write r.memory a (fresh_node v)) r.pool ((f, u) ∷ (a, v) ∷ fs) s
      → IsList (record r { memory = s.0; pool = s.1 }) xs ((f, u) ∷ (a, v) ∷ fs)
  Cut-IsList l r a v xs f u fs s h c w = record {
    chain =
        Linked-frame r.memory s.0 r.first xs
          (λ b near.
            let b≢a = ne_of_near a b xs h.chain.3 near in
            let (b≢f, b_out) = Apart-near b xs ((f, u) ∷ fs) h.apart.1 near in
            let kept = w.same b (b≢f, (b≢a, b_out)) in (ground (arith, kept), ground (arith, kept)))
          c.chain;
    spare = w.chain;
    apart = Apart-insert f u a v xs fs h.apart.1 h.chain.3;
    ends = c.ends;
    counted = c.size;
    filled = omega (arith, w.count);
  }

  -- priority_list::pop on a well-formed list that is not empty, while the allocator has a node in
  -- its free list and neither the length nor the count of free nodes overflows 64 bits, returns the
  -- payload of the first node, keeps the list well formed without it, and gives the node back to
  -- the allocator behind the head of the free list, which counts it.
  pub pop-IsList :
      (l : PriorityList V) (a : ℕ) (v : V) (xs : Cells V) (f : ℕ) (u : V) (fs : Cells V)
      → IsList l ((a, v) ∷ xs) ((f, u) ∷ fs)
      → length xs < 2 ^ 64
      → l.pool.free_count + 1 < 2 ^ 64
      → (r : PriorityList V) × (pop l ≡ ok (v, r))
        × IsList r xs ((f, u) ∷ (a, v) ∷ fs)
        × (r.pool.free_count ≡ l.pool.free_count + 1)
  pop-IsList l a v xs f u fs h small room =
      let (r, run, c) =
        reset_ends-Cut (headless l a) a v xs h.chain.2 h.chain.4 h.chain.3 h.ends
          (ground (arith, h.counted)) in
      let (s, freed, w) =
        free-Frees (write r.memory a (fresh_node v)) r.pool a v f u fs
          (Cut-spare l r a v xs f u fs h c) h.chain.1 h.apart.0 (ground arith)
          (ground (arith, c.pool)) in
      (
        record r { memory = s.0; pool = s.1 },
        pop_run l r a v s (omega (arith, h.counted)) h.chain.0 h.chain.1 run c.here freed,
        Cut-IsList l r a v xs f u fs s h c w,
        ground (arith, w.count, c.pool),
      )
