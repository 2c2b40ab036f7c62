-- ===== src/Tests/Devices.antt =====
-- The timers of an HPET and of a local APIC.
use reaveros_iteration.Common.{
  ℕ, ◌≡◌, refl, Bool, true, false, none, some, ok, fault, arith, ◌==◌, if◌then◌else◌, ◌&&◌, [], ◌∷◌,
}
use reaveros_iteration.Processor.Vectors.{take_vectors}
use reaveros_iteration.Time.Lapic.{
  Registers, xapic, start, update_now, configuration_for, choose_divisor, ticks,
}
use reaveros_iteration.Time.Lapic.Ticks.{Waits, start-Waits, update_now-faults}
use reaveros_iteration.Time.Timer.{dynamic}
use reaveros_iteration.Time.Hpet.{Comparator, Wiring, wired_at}

-- a period of 10 ns, and a time of 1 ms
start-Waits_example :
    (r : Registers) × (start false 8 10_000_000 1_000_000 ≡ ok r)
    × (r.periodic ≡ false)
    × Waits 10_000_000 1_000_000 r
start-Waits_example =
    start-Waits 10_000_000 1_000_000 (omega arith) (omega arith) (omega arith) false 8 (omega arith)

abbrev short_wait : Registers
short_wait = record {
  divide_configuration = configuration_for 1;
  initial_count = 100_000;
  periodic = false;
}

starts_short : start false 8 10_000_000 1_000_000 ≡ ok short_wait
unfolding start choose_divisor ticks
starts_short = refl

update_now-faults_example :
    update_now xapic 10_000_000 2_000_000 50_000 1_000_000 short_wait ≡ fault
update_now-faults_example =
    update_now-faults 10_000_000 1_000_000 (omega arith) (omega arith) (omega arith) false 8
      short_wait 2_000_000 50_000 1_000_000 (omega arith) (omega arith) starts_short

abbrev nothing_used : Wiring
nothing_used = record {
  used = λ i. i == 2;
  interrupts = record {
    handlers = λ i. none;
    contexts = λ i. 0;
    allocated = λ i. false;
    owners = λ i. none;
  };
  sources = λ i. if i == 20 then some (record { global_vector = 22; flags = 13 }) else none;
  ioapics = record { apic_id = 1; base_vector_number = 0; size = 24; global_nmi = none } ∷ [];
  routed = λ i n. none;
}

-- Inputs 2 and 20 are possible, and input 2 is used; an override gives 20 the input 22.
abbrev two_routes : ℕ → Bool
two_routes i = if i == 2 then true else i == 20

abbrev third : Comparator
third = wired_at dynamic 2 32 20

abbrev third_used : Wiring
third_used = record {
  used = λ i. if i == 20 then true else i == 2;
  interrupts = record (take_vectors 1 none 0 nothing_used.interrupts) {
    handlers = λ i. if i == 32 then some 5 else none;
    contexts = λ i. if i == 32 then 6 else 0;
  };
  sources = nothing_used.sources;
  ioapics = nothing_used.ioapics;
  routed = λ i n.
      if i == 0 && n == 22 then some (record { vector = 32; low = false; level = true }) else none;
}
