-- ===== src/Processor/Vectors/Allocation.antt =====
-- What `allocate_isr` of kernel/processor/handlers.cpp gives out.
use native.Mathlib.Nat.{pow-suc, one-le-pow, div-le_self}
use reaveros_iteration.Common.{
  ℕ, zero, suc, ◌+◌, ◌-◌, ◌*◌, ◌/◌, ◌%◌, ◌^◌, ◌≡◌, ◌≤◌, ◌<◌, ◌⊎◌, inl, inr, refl, subst, Bool, true,
  false, Option, none, some, Run, ok, panic, out_of_fuel, ◌==◌, arith,
}
use reaveros_iteration.Processor.Vectors.{
  Interrupts, Given, take_vectors, search_vectors, take_lock, allocate_isr,
}
use reaveros_iteration.Utils.Locks.{exchange}
use reaveros_iteration.Processor.Vectors.Search.{
  IsFree, IsTaken, Found, block_fits, search_vectors-Found,
}
use reaveros_iteration.Processor.Vectors.Taking.{IsTaking, take_vectors-IsTaking}
use reaveros_iteration.Processor.Vectors.Start.{first_block, first_vector-block}

-- `g` holds a block of `2 ^ k` vectors that is free, begins at a multiple of its size, and is taken
-- for the owner.
pub record Gives (k : ℕ) (owner : Option ℕ) (v : Interrupts) (g : Given) : Type 0 where
  pub block : ℕ
  pub counted : g.count ≡ 2 ^ k
  pub placed : g.vector ≡ 32 + 2 ^ k * block
  pub inside : 2 ^ k * block + 2 ^ k ≤ 224
  pub free : IsFree v.allocated (2 ^ k) (2 ^ k * block)
  pub taking : IsTaking (2 ^ k * block) (2 ^ k) owner v g.interrupts

-- no block of `2 ^ k` vectors is free
abbrev pub IsFull : ℕ → Interrupts → Type 0
IsFull k v = (b : ℕ) → b < 224 / 2 ^ k → IsTaken v.allocated (2 ^ k) (2 ^ k * b)

abbrev pub Ends : ℕ → Option ℕ → Interrupts → Run Given → Type 0
Ends k owner v r =
    ((g : Given) × (r ≡ ok g) × Gives k owner v g)
    ⊎ (((k ≡ 0) × (r ≡ panic) × ((i : ℕ) → i < 224 → v.allocated i ≡ true))
        ⊎ ((0 < k) × (r ≡ out_of_fuel) × IsFull k v))

-- A free lock is taken at once; one that is held is waited for in every round.
take_lock-free : (fuel : ℕ) → 0 < fuel → take_lock fuel false ≡ ok true
unfolding take_lock exchange
take_lock-free zero pos = absurd (omega arith)
take_lock-free (suc fuel) pos = refl

take_lock-held : (fuel : ℕ) → take_lock fuel true ≡ out_of_fuel
unfolding take_lock exchange
take_lock-held zero = refl
take_lock-held (suc fuel) = take_lock-held fuel

pub search_vectors-block :
    (k fuel priority : ℕ) (a : ℕ → Bool)
    → k ≤ 5
    → 16 * priority + 2 ^ k ≤ 224
    → 224 < fuel
    → Found (2 ^ k) (224 / 2 ^ k) a (λ b. Unit {0}) (search_vectors fuel priority (2 ^ k) a)
search_vectors-block k fuel priority a small fits enough =
    let (starts, lt, whole) = first_vector-block k priority small fits in
    search_vectors-Found (2 ^ k) (224 / 2 ^ k) (one-le-pow k 2 (omega arith)) whole a priority fuel
      (first_block k priority) starts lt (omega (arith, div-le_self 224 (2 ^ k)))

block_inside :
    (k priority b : ℕ)
    → k ≤ 5
    → 16 * priority + 2 ^ k ≤ 224
    → b < 224 / 2 ^ k
    → 2 ^ k * b + 2 ^ k ≤ 224
block_inside k priority b small fits lt =
    let (starts, first, whole) = first_vector-block k priority small fits in
    block_fits (2 ^ k) (224 / 2 ^ k) (one-le-pow k 2 (omega arith)) whole b lt

module _ (calls fuel priority : ℕ) (v : Interrupts) (some_fuel : 0 < fuel) where
  -- a search that has found a block
  gives_block :
      (k b : ℕ) (owner : Option ℕ)
      → k ≤ 5
      → b < 224 / 2 ^ k
      → 2 ^ k * b + 2 ^ k ≤ 224
      → search_vectors fuel priority (2 ^ k) v.allocated ≡ ok (some (2 ^ k * b))
      → IsFree v.allocated (2 ^ k) (2 ^ k * b)
      → Ends k owner v (allocate_isr (suc calls) fuel priority (2 ^ k) owner false v)
  unfolding allocate_isr
  gives_block k b owner small lt fits run free =
      let pos = one-le-pow k 2 (omega arith) in
      let test : (2 ^ k == 0) ≡ false = ground (arith, pos) in
      let g : Given = record {
        vector = (2 ^ k * b + 32) % 256;
        count = 2 ^ k;
        interrupts = take_vectors (2 ^ k) owner (2 ^ k * b) v;
      } in
      inl (
        g,
        rw (test, take_lock-free fuel some_fuel, run) refl,
        record {
          block = b;
          counted = refl;
          placed = omega arith;
          inside = fits;
          free = free;
          taking = take_vectors-IsTaking (2 ^ k) (2 ^ k * b) owner v;
        },
      )

  -- a search for one vector that has found none
  gives_none :
      (owner : Option ℕ)
      → search_vectors fuel priority 1 v.allocated ≡ ok none
      → IsFull 0 v
      → Ends 0 owner v (allocate_isr (suc calls) fuel priority 1 owner false v)
  unfolding allocate_isr
  gives_none owner run all = inr (
      inl (
        refl,
        rw (take_lock-free fuel some_fuel, run) refl,
        λ i lt.
            let (j, one, taken) = all i lt in
            let same : i ≡ 1 * i + j = omega arith in rw same taken,
      ))

  -- a call with the lock held
  waits_forever :
      (k : ℕ) (owner : Option ℕ)
      → allocate_isr calls fuel priority (2 ^ k) owner true v ≡ out_of_fuel
  unfolding allocate_isr
  waits_forever k owner = by_calls calls
    where
      by_calls : (n : ℕ) → allocate_isr n fuel priority (2 ^ k) owner true v ≡ out_of_fuel
      by_calls zero = refl
      by_calls (suc n) =
          let pos = one-le-pow k 2 (omega arith) in
          let test : (2 ^ k == 0) ≡ false = ground (arith, pos) in
          rw (test, take_lock-held fuel) refl

  -- a search that has found nothing for twice as many vectors
  gives_half :
      (k : ℕ) (owner : Option ℕ)
      → search_vectors fuel priority (2 ^ suc k) v.allocated ≡ ok none
      → allocate_isr (suc calls) fuel priority (2 ^ suc k) owner false v ≡ out_of_fuel
  unfolding allocate_isr
  gives_half k owner run =
      let pos = one-le-pow k 2 (omega arith) in
      let twice : 2 ^ suc k ≡ 2 * 2 ^ k = omega (arith, pow-suc 2 k) in
      let half : 2 ^ suc k / 2 ≡ 2 ^ k = omega (arith, twice) in
      let test : (2 ^ suc k == 0) ≡ false = ground (arith, pos, twice) in
      let more : (2 ^ suc k == 1) ≡ false = ground (arith, pos, twice) in
      rw (test, take_lock-free fuel some_fuel, run, more, half) (waits_forever k none)

-- allocate_isr of 2^k vectors for an owner, called with its lock free, with k at most 5 and a
-- priority that leaves room for so many below vector 224, ends in one of three ways. It returns,
-- and the block that it gives out has all 2^k vectors, was free and begins at a multiple of its
-- size; its vectors are taken for the owner, and all other vectors and all handlers are as before.
-- Or one vector was asked for and it panics, and then all 224 vectors are taken. Or more than one
-- was asked for, and no such block is free: then it calls itself with the lock held, and waits for
-- its own lock however many rounds it is given. Each search has more than 224 rounds.
pub allocate_isr-Gives :
    (k calls fuel priority : ℕ) (owner : Option ℕ) (v : Interrupts)
    → k ≤ 5
    → 16 * priority + 2 ^ k ≤ 224
    → 0 < calls
    → 224 < fuel
    → Ends k owner v (allocate_isr calls fuel priority (2 ^ k) owner false v)
allocate_isr-Gives k zero fuel priority owner v small fits deep enough = absurd (omega arith)
allocate_isr-Gives zero (suc calls) fuel priority owner v small fits deep enough =
    elim (search_vectors-block 0 fuel priority v.allocated small fits enough) [
      | inl (b, lt, run, free) ↦
          gives_block calls fuel priority v (omega arith) 0 b owner small lt
            (block_inside 0 priority b small fits lt) run free
      | inr (run, all) ↦
          gives_none calls fuel priority v (omega arith) owner run (λ b lt. all b lt tt)
    ]
allocate_isr-Gives (suc k) (suc calls) fuel priority owner v small fits deep enough =
    elim (search_vectors-block (suc k) fuel priority v.allocated small fits enough) [
      | inl (b, lt, run, free) ↦
          gives_block calls fuel priority v (omega arith) (suc k) b owner small lt
            (block_inside (suc k) priority b small fits lt) run free
      | inr (run, all) ↦ inr (
          inr (
            omega arith,
            gives_half calls fuel priority v (omega arith) k owner run,
            λ b lt. all b lt tt,
          ))
    ]

-- the place of a vector that is given out alone
pub record IsOne (v : Interrupts) (g : Given) : Type 0 where
  pub above : 32 ≤ g.vector
  pub below : g.vector < 256
  pub was_free : v.allocated (g.vector - 32) ≡ false
  pub now_taken : g.interrupts.allocated (g.vector - 32) ≡ true

pub Gives-IsOne : (owner : Option ℕ) (v : Interrupts) (g : Given) → Gives 0 owner v g → IsOne v g
Gives-IsOne owner v g gives =
    let placed : g.vector ≡ 32 + 1 * gives.block = gives.placed in
    let inside : 1 * gives.block + 1 ≤ 224 = gives.inside in
    let here : 1 * gives.block ≡ g.vector - 32 = omega (arith, placed) in
    let same : 1 * gives.block + 0 ≡ g.vector - 32 = omega (arith, placed) in
    let taken : g.interrupts.allocated (1 * gives.block) ≡ true =
      ground (arith, gives.taking.marked (1 * gives.block)) in
    record {
      above = omega (arith, placed);
      below = omega (arith, placed, inside);
      was_free = subst (λ (n : ℕ). v.allocated n ≡ false) same (gives.free 0 (omega arith));
      now_taken = subst (λ (n : ℕ). g.interrupts.allocated n ≡ true) here taken;
    }
