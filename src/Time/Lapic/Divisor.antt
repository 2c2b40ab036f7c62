-- ===== src/Time/Lapic/Divisor.antt =====
-- The divisors and the counts of the timer of the local APIC, kernel/processor/xapic.cpp,
-- kernel/processor/x2apic.cpp and kernel/time/lapic.cpp.
use native.Mathlib.Nat.{mul-le-mul_right, div-add-mod, mod-lt}
use reaveros_iteration.Common.{
  ℕ, zero, suc, ◌+◌, ◌-◌, ◌*◌, ◌/◌, ◌^◌, ◌≡◌, ◌≤◌, ◌<◌, refl, ◌==◌, if◌then◌else◌, arith,
}
use reaveros_iteration.Time.Lapic.{
  xapic, x2apic, divide_register, xapic_divisor, x2apic_divisor, divisor, configuration_for,
  saturate,
}

-- What the timer divides its clock by, by the bits 0, 1 and 3 of the divide configuration register.
abbrev pub divides_by : ℕ → ℕ
divides_by r =
    if r == 0b0000
    then 2
    else if r == 0b0001
    then 4
    else if r == 0b0010
    then 8
    else if r == 0b0011
    then 16
    else if r == 0b1000
    then 32
    else if r == 0b1001
    then 64
    else if r == 0b1010
    then 128
    else 1

-- After `divisor(div)` the timer divides by `div`, but by 32 for 16.
pub divides_by-configuration_for :
    (n : ℕ) → n ≤ 7 → divides_by (configuration_for (2 ^ n)) ≡ (if n == 4 then 32 else 2 ^ n)
unfolding configuration_for
divides_by-configuration_for zero h = refl
divides_by-configuration_for (suc zero) h = refl
divides_by-configuration_for (suc (suc zero)) h = refl
divides_by-configuration_for (suc (suc (suc zero))) h = refl
divides_by-configuration_for (suc (suc (suc (suc zero)))) h = refl
divides_by-configuration_for (suc (suc (suc (suc (suc zero))))) h = refl
divides_by-configuration_for (suc (suc (suc (suc (suc (suc zero)))))) h = refl
divides_by-configuration_for (suc (suc (suc (suc (suc (suc (suc zero))))))) h = refl
divides_by-configuration_for (suc (suc (suc (suc (suc (suc (suc (suc n)))))))) h =
    absurd (omega arith)

-- What `divisor` reads after `divisor(div)` has written, for the eight divisors there are. On an
-- x2APIC that is `div`, but 32 for 16; on an xAPIC it is 0 for 1, and 1 for all others.
pub divisor-configuration_for :
    (n : ℕ)
    → n ≤ 7
    → (divisor x2apic (configuration_for (2 ^ n)) ≡ (if n == 4 then 32 else 2 ^ n))
      × (divisor xapic (configuration_for (2 ^ n)) ≡ (if n == 0 then 0 else 1))
unfolding divisor xapic_divisor x2apic_divisor divide_register configuration_for
divisor-configuration_for zero h = (refl, refl)
divisor-configuration_for (suc zero) h = (refl, refl)
divisor-configuration_for (suc (suc zero)) h = (refl, refl)
divisor-configuration_for (suc (suc (suc zero))) h = (refl, refl)
divisor-configuration_for (suc (suc (suc (suc zero)))) h = (refl, refl)
divisor-configuration_for (suc (suc (suc (suc (suc zero))))) h = (refl, refl)
divisor-configuration_for (suc (suc (suc (suc (suc (suc zero)))))) h = (refl, refl)
divisor-configuration_for (suc (suc (suc (suc (suc (suc (suc zero))))))) h = (refl, refl)
divisor-configuration_for (suc (suc (suc (suc (suc (suc (suc (suc n)))))))) h = absurd (omega arith)

pub two_pow_le : (n : ℕ) → n ≤ 7 → (1 ≤ 2 ^ n) × (2 ^ n ≤ 128) × (2 ^ n ≡ 128 → n ≡ 7)
two_pow_le zero h = (omega arith, omega arith, λ e. omega arith)
two_pow_le (suc zero) h = (omega arith, omega arith, λ e. omega arith)
two_pow_le (suc (suc zero)) h = (omega arith, omega arith, λ e. omega arith)
two_pow_le (suc (suc (suc zero))) h = (omega arith, omega arith, λ e. omega arith)
two_pow_le (suc (suc (suc (suc zero)))) h = (omega arith, omega arith, λ e. omega arith)
two_pow_le (suc (suc (suc (suc (suc zero))))) h = (omega arith, omega arith, λ e. omega arith)
two_pow_le (suc (suc (suc (suc (suc (suc zero)))))) h = (omega arith, omega arith, λ e. omega arith)
two_pow_le (suc (suc (suc (suc (suc (suc (suc zero))))))) h =
    (omega arith, omega arith, λ e. omega arith)
two_pow_le (suc (suc (suc (suc (suc (suc (suc (suc n)))))))) h = absurd (omega arith)

-- the count that a quotient of at least or at most 32 bits is stored as
pub saturate-fits : (n : ℕ) → n < 2 ^ 32 → saturate n ≡ n
saturate-fits n h = ground arith

pub saturate-full : (n : ℕ) → 2 ^ 32 ≤ n → saturate n ≡ 2 ^ 32 - 1
saturate-full n h = ground arith

pub saturate-le : (n : ℕ) → saturate n ≤ n
saturate-le n = ground arith

pub saturate-lt : (n : ℕ) → saturate n < 2 ^ 32
saturate-lt n = ground arith

-- A quotient times its divisor is at most what was divided, and one more is above it.
pub quotient_bounds :
    (a u : ℕ)
    → 0 < u
    → (saturate (a / u) * u ≤ a) × (a / u < 2 ^ 32 → a < (saturate (a / u) + 1) * u)
quotient_bounds a u pos =
    let parts = div-add-mod a u in
    let rest = mod-lt a pos in
    (
      omega (arith, parts, mul-le-mul_right u (saturate-le (a / u))),
      λ h. rw (saturate-fits (a / u) h) (omega (arith, parts, rest)),
    )
