-- ===== src/Common/Results.antt =====
-- What a call of kernel code ends in.
-- `PANIC(...)` of kernel/inc.h stops the machine; a fault is an access through a null pointer or
-- an index far out of its array; a run that spends its fuel is one that was cut off.
use mathlib.Core.Path.{◌≡◌, refl}
use mathlib.Core.Bool.{Bool, true, false}

pub data Run {ℓ} (A : Type ℓ) : Type ℓ where
  ok : A → Run A
  panic : Run A
  fault : Run A
  out_of_fuel : Run A

infixl 5 ◌>>=◌ ◌>>◌
abbrev pub ◌>>=◌ {i j} : {X : Type i} {Y : Type j} → Run X → (X → Run Y) → Run Y
ok x >>= next = next x
panic >>= next = panic
fault >>= next = fault
out_of_fuel >>= next = out_of_fuel

abbrev pub ◌>>◌ {i} : {Y : Type i} → Run (Unit {0}) → Run Y → Run Y
first >> second = first >>= λ _. second

-- `if (bad) PANIC(...)`
abbrev pub panic_if : Bool → Run (Unit {0})
panic_if true = panic
panic_if false = ok tt

-- A run that returns has a first part that returned.
pub >>=-eq-ok {i j} :
    {X : Type i} {Y : Type j} (first : Run X) (next : X → Run Y) {y : Y}
    → (first >>= next) ≡ ok y
    → (x : X) × (first ≡ ok x) × (next x ≡ ok y)
>>=-eq-ok (ok x) next done = (x, refl, done)
>>=-eq-ok panic next done = cc
>>=-eq-ok fault next done = cc
>>=-eq-ok out_of_fuel next done = cc
