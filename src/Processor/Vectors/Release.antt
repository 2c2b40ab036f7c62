-- ===== src/Processor/Vectors/Release.antt =====
-- `free_isr` of kernel/processor/handlers.cpp behind `allocate_isr`.
use reaveros_iteration.Common.{
  ℕ, subst, ◌+◌, ◌-◌, ◌*◌, ◌≡◌, ◌≢◌, ◌≤◌, ◌<◌, inl, inr, false, Option, none, ok, arith,
}
use reaveros_iteration.Processor.Vectors.{
  Interrupts, Given, store, is_allocated, allocate_isr, free_isr,
}
use reaveros_iteration.Processor.Vectors.Allocation.{Gives, Gives-IsOne, allocate_isr-Gives}

-- the tables after a vector has been taken and given back
pub record IsReturned (vector : ℕ) (v v' : Interrupts) : Type 0 where
  pub same_allocated : (i : ℕ) → v'.allocated i ≡ v.allocated i
  pub same_owners : (i : ℕ) → i + 32 ≢ vector → v'.owners i ≡ v.owners i
  pub same_handlers : v'.handlers ≡ v.handlers
  pub same_contexts : v'.contexts ≡ v.contexts

free-Gives :
    (owner : Option ℕ) (v : Interrupts) (g : Given)
    → Gives 0 owner v g
    → (v' : Interrupts) × (free_isr g.vector g.interrupts ≡ ok v') × IsReturned g.vector v v'
unfolding free_isr is_allocated
free-Gives owner v g gives =
    let placed : g.vector ≡ 32 + 1 * gives.block = gives.placed in
    let alone = Gives-IsOne owner v g gives in
    let run : free_isr g.vector g.interrupts
        ≡ ok (record g.interrupts {
          allocated = store g.interrupts.allocated (g.vector - 32) false;
          owners = store g.interrupts.owners (g.vector - 32) none;
        }) =
      ground (arith, alone.above, alone.below, alone.now_taken) in
    (
      _,
      run,
      record {
        same_allocated = λ i. ground (arith, gives.taking.marked i, alone.was_free, placed);
        same_owners = λ i ne. ground (arith, gives.taking.owned i, placed);
        same_handlers = gives.taking.same_handlers;
        same_contexts = gives.taking.same_contexts;
      },
    )

-- free_isr of the one vector that allocate_isr has given out, at a priority up to 13, returns: the
-- same vectors are taken as before both, and all handlers and the owners of all other vectors are
-- as before.
pub free_isr-allocate_isr :
    (calls fuel priority : ℕ) (owner : Option ℕ) (v : Interrupts) (g : Given)
    → priority ≤ 13
    → 0 < calls
    → 224 < fuel
    → allocate_isr calls fuel priority 1 owner false v ≡ ok g
    → (v' : Interrupts) × (free_isr g.vector g.interrupts ≡ ok v') × IsReturned g.vector v v'
free_isr-allocate_isr calls fuel priority owner v g p c f run =
    elim (allocate_isr-Gives 0 calls fuel priority owner v (omega arith) (omega arith) c f) [
      | inl (g', ran, gives) ↦
          let same : g' ≡ g = cc in free-Gives owner v g (subst (Gives 0 owner v) same gives)
      | inr (inl (zero_left, stuck, all)) ↦ cc
      | inr (inr (more, stuck, all)) ↦ absurd (omega arith)
    ]
