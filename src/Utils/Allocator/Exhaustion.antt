-- ===== src/Utils/Allocator/Exhaustion.antt =====
-- How long `allocate` can be called.
use reaveros_iteration.Common.{
  ℕ, zero, suc, ◌+◌, ◌*◌, ◌/◌, ◌<◌, ◌≡◌, ◌≢◌, refl, ◌∙◌, subst, List, [], ◌∷◌, map, arith, Run, ok,
  fault, ◌>>=◌, length,
}
use reaveros_iteration.Utils.Nodes.{Memory, write}
use reaveros_iteration.Utils.Nodes.Linked.{Cells, IsAway, Linked}
use reaveros_iteration.Utils.Allocator.{
  Allocator, Layout, allocate, refill, lay_chunk, chunk_node, allocate_chained,
  allocate_address_range,
}

module _ {V : Type 0} (layout : Layout V) where
  -- `k` calls of `allocate` in a row, with no `free` between them
  unfoldable pub allocate_times : ℕ → Memory V → Allocator → Run (List ℕ × Memory V × Allocator)
  allocate_times zero m a = ok ([], m, a)
  allocate_times (suc k) m a = do
    (p, m₁, a₁) ← allocate layout m a
    (ps, m₂, a₂) ← allocate_times k m₁ a₁
    ok (p ∷ ps, m₂, a₂)

  -- A free list with a count that is not 0 gives out its nodes in order and then faults: the count
  -- does not fall, so no page is added.
  pub allocate_times-Linked :
      (m : Memory V) (a : Allocator) (fs : Cells V)
      → Linked m a.free fs
      → a.free_count ≢ 0
      → (allocate_times (length fs) m a ≡ ok (map (λ c. c.0) fs, m, record a { free = 0 }))
        × (allocate_times (suc (length fs)) m a ≡ fault)
  unfolding allocate_times allocate refill
  allocate_times-Linked m a [] h some_left = (ground arith, ground arith)
  allocate_times-Linked m a ((f, u) ∷ fs) h some_left =
      let rest = allocate_times-Linked m (record a { free = (m f).next }) fs h.4 some_left in
      (ground (arith, h.0, h.1, rest.0), ground (arith, h.0, h.1, rest.1))

  -- the nodes of a page from the `i`-th on
  abbrev pub page_cells : ℕ → ℕ → ℕ → Cells V
  page_cells zero address i = []
  page_cells (suc k) address i =
      (address + i * layout.aligned, layout.blank) ∷ page_cells k address (suc i)

  lay_chunk-below :
      (k address i q : ℕ) (m : Memory V)
      → q < address + i * layout.aligned
      → lay_chunk layout k address i m q ≡ m q
  unfolding lay_chunk
  lay_chunk-below zero address i q m h = refl
  lay_chunk-below (suc k) address i q m h =
      let rest =
        lay_chunk-below k address (suc i) q
          (write m (address + i * layout.aligned) (chunk_node layout address i)) (omega arith) in
      ground (arith, rest)

  page_cells-IsAway :
      (k address i q : ℕ) → q < address + i * layout.aligned → IsAway q (page_cells k address i)
  page_cells-IsAway zero address i q h = tt
  page_cells-IsAway (suc k) address i q h =
      (omega arith, page_cells-IsAway k address (suc i) q (omega arith))

  -- where the size needs no padding, the nodes of a fresh page form one chain
  lay_chunk-Linked :
      (k address i : ℕ) (m : Memory V)
      → 0 < address
      → 0 < layout.aligned
      → layout.size ≡ layout.aligned
      → i + suc k ≡ 4096 / layout.size
      → Linked
          (lay_chunk layout (suc k) address i m)
          (address + i * layout.aligned)
          (page_cells (suc k) address i)
  unfolding lay_chunk chunk_node
  lay_chunk-Linked zero address i m real pos same total =
      (refl, omega arith, ground arith, tt, ground (arith, total))
  lay_chunk-Linked (suc k) address i m real pos same total =
      let p = address + i * layout.aligned in
      let m' = write m p (chunk_node layout address i) in
      let kept = lay_chunk-below (suc k) address (suc i) p m' (omega arith) in
      (
        refl,
        omega arith,
        ground (arith, kept),
        page_cells-IsAway (suc k) address (suc i) p (omega arith),
        subst
            (λ q.
              Linked (lay_chunk layout (suc k) address (suc i) m') q
                (page_cells (suc k) address (suc i)))
            (ground (arith, kept))
            (lay_chunk-Linked k address (suc i) m' real pos same (omega (arith, total))),
      )

  allocate_times-refill :
      (k : ℕ) (m m' : Memory V) (a a' : Allocator)
      → refill layout m a ≡ ok (m', a')
      → a'.free_count ≢ 0
      → allocate_times (suc k) m a ≡ allocate_times (suc k) m' a'
  unfolding allocate_times allocate
  allocate_times-refill k m m' a a' run some_left =
      let again : refill layout m' a' ≡ ok (m', a') = unfold refill in ground arith in
      rw (run, again)

  address-pos : (lowest address : ℕ) → allocate_address_range lowest 4096 ≡ ok address → 0 < address
  unfolding allocate_address_range
  address-pos lowest address h = ground arith

  length-page_cells : (k address i : ℕ) → length (page_cells k address i) ≡ k
  length-page_cells zero address i = refl
  length-page_cells (suc k) address i = omega (arith, length-page_cells k address (suc i))

  -- An empty allocator for a type that needs no padding gives out exactly the nodes of one page, in
  -- address order; the call after those faults.
  pub allocate_times-exhausts :
      (m : Memory V) (a : Allocator) (address k : ℕ)
      → a.free_count ≡ 0
      → allocate_address_range a.lowest 4096 ≡ ok address
      → 0 < layout.size
      → layout.size < 4096
      → layout.size ≡ layout.aligned
      → suc k ≡ 4096 / layout.size
      → ((r : Memory V × Allocator) × (allocate_times (suc k) m a
            ≡ ok (map (λ c. c.0) (page_cells (suc k) address 0), r.0, r.1)))
        × (allocate_times (suc (suc k)) m a ≡ fault)
  unfolding refill allocate_chained
  allocate_times-exhausts m a address k empty range pos small same count =
      let m' = lay_chunk layout (suc k) address 0 m in
      let a' : Allocator = record { free_count = suc k; free = address; lowest = address } in
      let start : refill layout m a ≡ ok (m', a') = ground (arith, range, count) in
      let some_left : a'.free_count ≢ 0 = omega arith in
      let laid =
        lay_chunk-Linked k address 0 m (address-pos a.lowest address range) (omega (arith, same))
          same (omega (arith, count)) in
      let fs = page_cells (suc k) address 0 in
      let laid' =
        subst (λ q. Linked m' q fs)
          (let e : address + 0 * layout.aligned ≡ address = omega arith in e) laid in
      let drained = allocate_times-Linked m' a' fs laid' some_left in
      let size = length-page_cells (suc k) address 0 in
      let first = allocate_times-refill k m m' a a' start some_left in
      let past = allocate_times-refill (suc k) m m' a a' start some_left in
      (
        (
          (m', record a' { free = 0 }),
          first
              ∙ subst
                  (λ n. allocate_times n m' a' ≡ ok (map (λ c. c.0) fs, m', record a' { free = 0 }))
                  size drained.0,
        ),
        past ∙ subst (λ n. allocate_times (suc n) m' a' ≡ fault) size drained.1,
      )
