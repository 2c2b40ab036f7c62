-- ===== src/Processor/Vectors.antt =====
-- The interrupt vectors and handlers of kernel/processor/handlers.cpp. A device, and a handler, is
-- a number; a null pointer is `none`. Both loops of `allocate_isr` count in a `uint8_t`.
pub mod Start
pub mod Taking
pub mod Search
pub mod Release
pub mod Allocation
use Prim.Native.Nat.{bit_and}
use reaveros_iteration.Common.{
  ℕ, zero, suc, ◌+◌, ◌-◌, ◌*◌, ◌/◌, ◌%◌, ◌^◌, Bool, true, false, Option, none, some, Run, ok, panic,
  fault, out_of_fuel, ◌>>=◌, ◌==◌, ltb, leb, ◌&&◌, if◌then◌else◌,
}
use reaveros_iteration.Utils.Locks.{exchange}

-- `_handlers`, `_contexts`, `_vector_allocated` and `_owners`
pub record Interrupts : Type 0 where
  pub handlers : ℕ → Option ℕ
  pub contexts : ℕ → ℕ
  pub allocated : ℕ → Bool
  pub owners : ℕ → Option ℕ

abbrev pub store {ℓ} : {A : Type ℓ} → (ℕ → A) → ℕ → A → ℕ → A
store f at x i = if i == at then x else f i

-- `_vector_allocated` has 224 entries.
unfoldable pub is_allocated : (ℕ → Bool) → ℕ → Run Bool
is_allocated a at = if ltb at 224 then ok (a at) else fault

-- the loop that computes `good`, by rounds left
unfoldable pub is_good : ℕ → (ℕ → Bool) → ℕ → Run Bool
unfolding is_allocated
is_good zero a at = ok true
is_good (suc k) a at =
    let rest = is_good k a (at + 1) in is_allocated a at >>= λ one. if one then ok false else rest

-- the loop that marks the vectors, by rounds left
unfoldable pub take_vectors : ℕ → Option ℕ → ℕ → Interrupts → Interrupts
take_vectors zero owner at v = v
take_vectors (suc k) owner at v =
    take_vectors k owner (at + 1)
      (record v { allocated = store v.allocated at true; owners = store v.owners at owner })

-- `(priority * 16 + count - 1) & ~(count - 1)`, kept in a `uint8_t`
unfoldable pub first_vector : ℕ → ℕ → ℕ
first_vector priority count = bit_and (priority * 16 + count - 1) (2 ^ 32 - count) % 256

-- The two searches, which return the first good `ret`.
unfoldable pub search_down : (fuel count : ℕ) → (ℕ → Bool) → ℕ → Run (Option ℕ)
unfolding is_good
search_down zero count a ret = out_of_fuel
search_down (suc fuel) count a ret =
    let rest = search_down fuel count a ((ret + 256 - count) % 256) in
    is_good count a ret >>= λ good.
    if good then ok (some ret) else (if ret == 0 then ok none else rest)

unfoldable pub search_up : (fuel count : ℕ) → (ℕ → Bool) → ℕ → Run (Option ℕ)
unfolding is_good
search_up zero count a ret = out_of_fuel
search_up (suc fuel) count a ret =
    let rest = search_up fuel count a ((ret + count) % 256) in
    if ltb ret 224
    then (is_good count a ret >>= λ good. if good then ok (some ret) else rest)
    else ok none

-- The search up runs only where the one down has found nothing.
unfoldable pub search_vectors : (fuel priority count : ℕ) → (ℕ → Bool) → Run (Option ℕ)
unfolding search_down search_up first_vector
search_vectors fuel priority count a =
    search_down fuel count a (first_vector priority count) >>= λ found. elim found [
      | some ret ↦ ok (some ret)
      | none ↦ search_up fuel count a (first_vector priority count)
    ]

-- The vector, the number of vectors that `count` is left at, and the new tables.
pub record Given : Type 0 where
  pub vector : ℕ
  pub count : ℕ
  pub interrupts : Interrupts

-- `lock` of `_lock`, a `spinlock`, by rounds left. The code runs alone: only itself can free the lock.
unfoldable pub take_lock : (fuel : ℕ) → (locked : Bool) → Run Bool
unfolding exchange
take_lock zero locked = out_of_fuel
take_lock (suc fuel) locked =
    let rest = take_lock fuel (exchange locked).1 in
    if (exchange locked).0 then rest else ok (exchange locked).1

-- `allocate_isr`, with `_lock` as it is at the call. It calls itself for half of the vectors, without
-- the owner, and with the lock that it has taken, which it gives back only when it returns.
unfoldable pub allocate_isr :
    (calls fuel priority count : ℕ) → Option ℕ → (locked : Bool) → Interrupts → Run Given
unfolding search_vectors take_vectors take_lock
allocate_isr zero fuel priority count owner locked v = out_of_fuel
allocate_isr (suc calls) fuel priority count owner locked v =
    if count == 0
    then panic
    else (take_lock fuel locked >>= λ taken.
        search_vectors fuel priority count v.allocated >>= λ found. elim found [
          | some ret ↦ ok (record {
            vector = (ret + 32) % 256;
            count = count;
            interrupts = take_vectors count owner ret v;
          })
          | none ↦
              if count == 1
              then panic
              else allocate_isr calls fuel priority (count / 2) none taken v
        ])

-- the vectors of the CPU's exceptions lie before the start of both arrays
unfoldable pub free_isr : ℕ → Interrupts → Run Interrupts
unfolding is_allocated
free_isr number v =
    if ltb number 32
    then fault
    else (is_allocated v.allocated (number - 32) >>= λ one.
        if one
        then ok (record v {
          allocated = store v.allocated (number - 32) false;
          owners = store v.owners (number - 32) none;
        })
        else panic)

unfoldable pub register_handler : (number handler context : ℕ) → Interrupts → Run Interrupts
register_handler number handler context v = elim (v.handlers number) [
  | some other ↦ panic
  | none ↦ ok (record v {
    handlers = store v.handlers number (some handler);
    contexts = store v.contexts number context;
  })
]

unfoldable pub unregister_handler : (number : ℕ) → Interrupts → Run Interrupts
unregister_handler number v = elim (v.handlers number) [
  | some handler ↦
      ok
        (record v { handlers = store v.handlers number none; contexts = store v.contexts number 0 })
  | none ↦ panic
]
