-- ===== src/Processor/Vectors/Taking.antt =====
-- The vectors that `allocate_isr` of kernel/processor/handlers.cpp marks.
use reaveros_iteration.Common.{
  ℕ, zero, suc, ◌+◌, ◌≡◌, refl, Bool, true, ◌&&◌, Option, ltb, leb, if◌then◌else◌, arith,
}
use reaveros_iteration.Processor.Vectors.{Interrupts, store, take_vectors}

-- whether `i` is one of `count` vectors from `at` on
abbrev pub within : (at count i : ℕ) → Bool
within at count i = leb at i && ltb i (at + count)

-- `v'` is `v` with `count` vectors from `at` on taken for `owner`.
pub record IsTaking (at count : ℕ) (owner : Option ℕ) (v v' : Interrupts) : Type 0 where
  pub marked : (i : ℕ) → v'.allocated i ≡ (if within at count i then true else v.allocated i)
  pub owned : (i : ℕ) → v'.owners i ≡ (if within at count i then owner else v.owners i)
  pub same_handlers : v'.handlers ≡ v.handlers
  pub same_contexts : v'.contexts ≡ v.contexts

pub take_vectors-IsTaking :
    (k at : ℕ) (owner : Option ℕ) (v : Interrupts)
    → IsTaking at k owner v (take_vectors k owner at v)
unfolding take_vectors
take_vectors-IsTaking zero at owner v = record {
  marked = λ i. ground arith;
  owned = λ i. ground arith;
  same_handlers = refl;
  same_contexts = refl;
}
take_vectors-IsTaking (suc k) at owner v =
    let v₁ : Interrupts = record v {
      allocated = store v.allocated at true;
      owners = store v.owners at owner;
    } in
    let rest : IsTaking (at + 1) k owner v₁ (take_vectors k owner (at + 1) v₁) =
      take_vectors-IsTaking k (at + 1) owner v₁ in
    record {
      marked = λ i. ground (arith, rest.marked i);
      owned = λ i. ground (arith, rest.owned i);
      same_handlers = rest.same_handlers;
      same_contexts = rest.same_contexts;
    }
