-- ===== src/Time/Lapic.antt =====
-- The timer of the local APIC: kernel/time/lapic.cpp, and the divisor and the counts of
-- kernel/processor/xapic.cpp and kernel/processor/x2apic.cpp, which differ in one line.
pub mod Divisor
pub mod Ticks
use Prim.Native.Nat.{bit_and, bit_or}
use reaveros_iteration.Common.{
  ℕ, zero, suc, ◌+◌, ◌-◌, ◌*◌, ◌/◌, ◌%◌, ◌^◌, Bool, true, false, not, ◌&&◌, Run, ok, fault,
  out_of_fuel, ◌>>=◌, ◌==◌, ltb, if◌then◌else◌, add64, sub64,
}

pub data Apic : Type 0 where
  xapic : Apic
  x2apic : Apic

-- the three registers that the timer uses
pub record Registers : Type 0 where
  pub divide_configuration : ℕ
  pub initial_count : ℕ
  pub periodic : Bool

-- `1 << (((r & 0b11) | ((r & 0b1000) >> 1)) + 1)`, of the register's bits `0xb`
unfoldable pub divide_register : ℕ → ℕ
divide_register configuration =
    let r = bit_and configuration 0xb in 2 ^ (bit_or (bit_and r 0b11) (bit_and r 0b1000 / 2) + 1)

-- `divisor()` of each, which returns a `uint8_t`
unfoldable pub xapic_divisor : ℕ → ℕ
unfolding divide_register
xapic_divisor configuration =
    let d = divide_register configuration in (if d == 256 then d else 1) % 256

unfoldable pub x2apic_divisor : ℕ → ℕ
unfolding divide_register
x2apic_divisor configuration =
    let d = divide_register configuration in (if d == 256 then 1 else d) % 256

unfoldable pub divisor : Apic → ℕ → ℕ
unfolding xapic_divisor x2apic_divisor
divisor xapic configuration = xapic_divisor configuration
divisor x2apic configuration = x2apic_divisor configuration

-- `divisor(div)`, which is the same in both files
unfoldable pub configuration_for : ℕ → ℕ
configuration_for div =
    if div == 1
    then 0b1011
    else if div == 16
    then 0b1000
    else if div == 32
    then 0b1000
    else bit_or (div / 2 ^ (2 + div / 64)) (div / 64)

abbrev mul64 : ℕ → ℕ → ℕ
mul64 a b = a * b % 2 ^ 64

-- `(time * 1000000) / (divisor * _period)`, which faults where the divisor is zero
unfoldable pub ticks : (period time divisor : ℕ) → Run ℕ
ticks period time divisor =
    if mul64 divisor period == 0 then fault else ok (mul64 time 1_000_000 / mul64 divisor period)

-- `while (ticks > ~0u && divisor != 128) divisor *= 2;`
unfoldable pub choose_divisor : (fuel period time divisor : ℕ) → Run ℕ
unfolding ticks
choose_divisor zero period time divisor = out_of_fuel
choose_divisor (suc fuel) period time divisor =
    let rest = choose_divisor fuel period time (divisor * 2 % 256) in
    ticks period time divisor >>= λ n.
    if ltb (2 ^ 32 - 1) n && not (divisor == 128) then rest else ok divisor

-- `if (time > ~0u) time = ~0u;`
abbrev pub saturate : ℕ → ℕ
saturate n = if ltb (2 ^ 32 - 1) n then 2 ^ 32 - 1 else n

-- `_one_shot(time)` and `_periodic(period)`
unfoldable pub start : (periodic : Bool) → (fuel period time : ℕ) → Run Registers
unfolding choose_divisor ticks configuration_for
start periodic fuel period time = do
  d ← choose_divisor fuel period time 1
  n ← ticks period time d
  ok (record {
    divide_configuration = configuration_for d;
    initial_count = saturate n;
    periodic = periodic;
  })

-- `_update_now()` of a timer whose first event is at `time_point`; the new `_now`. The counts are
-- those of a `uint64_t`, and wrap around.
unfoldable pub update_now : Apic → (period time_point current_count now : ℕ) → Registers → Run ℕ
unfolding ticks divisor
update_now apic period time_point current_count now r =
    let d = divisor apic r.divide_configuration in
    ticks period (sub64 time_point now) d >>= λ n.
    ok (add64 now (mul64 (mul64 (sub64 (saturate n) current_count) d) period / 1_000_000))
