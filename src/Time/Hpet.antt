-- ===== src/Time/Hpet.antt =====
-- The HPET of kernel/time/hpet.{h,cpp}: its comparators and the choice between them. The registers
-- are a function of their offset; the bits of a 32-bit word that stands for a set are a function too.
pub mod Wire
pub mod Choice
pub mod Route
use reaveros_iteration.Common.{
  ℕ, zero, suc, ◌+◌, ◌-◌, ◌*◌, ◌/◌, ◌%◌, ◌^◌, Bool, true, false, not, ◌&&◌, ◌||◌, Option, none,
  some, List, Run, ok, ◌>>=◌, ◌==◌, ltb, if◌then◌else◌, add64,
}
use reaveros_iteration.Processor.Vectors.{Interrupts, Given, store, allocate_isr, register_handler}
use reaveros_iteration.Acpi.Madt.{Ioapic, Source}
use reaveros_iteration.Processor.Routing.{Redirections, set_isa_irq_int_vector}
use reaveros_iteration.Time.Timer.{Capabilities, dynamic, one_shot_capable}

abbrev pub mul64 : ℕ → ℕ → ℕ
mul64 a b = a * b % 2 ^ 64

-- `_timer_configuration(i)`, `_timer_comparator(i)` and `_main_counter`
abbrev pub configuration : ℕ → ℕ
configuration i = 0x100 + 0x20 * i

abbrev pub comparator_of : ℕ → ℕ
comparator_of i = 0x108 + 0x20 * i

abbrev pub main_counter : ℕ
main_counter = 0xf0

-- the fields of `comparator` and of its base; `valid` is whether `_parent` is not null
pub record Comparator : Type 0 where
  pub valid : Bool
  pub usage : ℕ
  pub cap : Capabilities
  pub index : ℕ
  pub int_vector : ℕ
  pub input : ℕ

-- `for (i = 1; i < _comparator_count; ++i)` of `one_shot` and `periodic`, by rounds left
unfoldable pub choose : (rounds i min min_idx : ℕ) → (ℕ → Comparator) → ℕ
choose zero i min min_idx comparators = min_idx
choose (suc k) i min min_idx comparators =
    let better = (comparators i).valid && ltb (comparators i).usage min in
    choose k (i + 1) (if better then (comparators i).usage else min) (if better then i else min_idx)
      comparators

unfoldable pub choose_comparator : (comparator_count : ℕ) → (ℕ → Comparator) → ℕ
unfolding choose
choose_comparator comparator_count comparators =
    choose (comparator_count - 1) 1 (comparators 0).usage 0 comparators

-- `_one_shot(time)` and `_periodic(period)`, with the timer's `_period` first
unfoldable pub one_shot : (period now time : ℕ) → Comparator → (ℕ → ℕ) → ℕ → ℕ
one_shot period now time c registers =
    store (store registers (configuration c.index) (c.input % 32 * 2 ^ 9 + 2 ^ 2))
      (comparator_of c.index) (mul64 (add64 now time) 1_000_000 / period)

unfoldable pub periodic : (period now time : ℕ) → Comparator → (ℕ → ℕ) → ℕ → ℕ
periodic period now time c registers =
    store
      (store
        (store registers (configuration c.index) (c.input % 32 * 2 ^ 9 + 2 ^ 6 + 2 ^ 3 + 2 ^ 2))
        (comparator_of c.index) (mul64 (add64 now time) 1_000_000 / period))
      (comparator_of c.index) (mul64 time 1_000_000 / period)

-- `_update_now()`, and `now()` of the timer
unfoldable pub now_of : (period : ℕ) → (ℕ → ℕ) → ℕ
now_of period registers = mul64 (registers main_counter) period / 1_000_000

-- `_stop()`, which clears one bit
unfoldable pub stop : Comparator → (ℕ → ℕ) → ℕ → ℕ
stop c registers =
    let r = registers (configuration c.index) in
    store registers (configuration c.index) (if r / 2 ^ 2 % 2 == 1 then r - 2 ^ 2 else r)

-- the loop of the constructor that looks for an input, by rounds left
unfoldable pub find_input : (rounds i max_ioapic_input : ℕ) → (routes used : ℕ → Bool) → Option ℕ
find_input zero i max_ioapic_input routes used = none
find_input (suc k) i max_ioapic_input routes used =
    let rest = find_input k (i + 1) max_ioapic_input routes used in
    if ltb i max_ioapic_input then (if routes i && not (used i) then some i else rest) else none

-- What the constructor of a comparator changes: `_used_interrupts`, the vectors, and the redirection
-- entries of the I/O APICs; with the sources and the I/O APICs of `processor`, which it reads.
pub record Wiring : Type 0 where
  pub used : ℕ → Bool
  pub interrupts : Interrupts
  pub sources : ℕ → Option Source
  pub ioapics : List Ioapic
  pub routed : Redirections

-- `allocate_isr(0)`, `register_handler` and `set_isa_irq_int_vector`; `handler` and `context` stand
-- for the function and the comparator's address
unfoldable pub wire : (handler context input : ℕ) → Wiring → Run (ℕ × Wiring)
unfolding allocate_isr register_handler set_isa_irq_int_vector
wire handler context input w = do
  g ← allocate_isr 8 256 0 1 none false w.interrupts
  v ← register_handler g.vector handler context g.interrupts
  r ← set_isa_irq_int_vector w.sources w.ioapics input g.vector w.routed
  ok (g.vector, record w { interrupts = v; routed = r })

-- a comparator with its input and vector, and one whose parent has been set to null
abbrev pub wired_at : Capabilities → (index vector input : ℕ) → Comparator
wired_at cap index vector input = record {
  valid = true;
  usage = 0;
  cap = cap;
  index = index;
  int_vector = vector;
  input = input;
}

abbrev pub disabled : Capabilities → (index : ℕ) → Comparator
disabled cap index = record {
  valid = false;
  usage = 0;
  cap = cap;
  index = index;
  int_vector = 0;
  input = 0;
}

-- the body of that loop, once it has found the input `i`
unfoldable pub use_input :
    (handler context index : ℕ) → Capabilities → ℕ → Wiring → Run (Comparator × Wiring)
unfolding wire
use_input handler context index cap i w = wire handler context i w >>= λ (vector, w').
    ok (wired_at cap index vector i, record w' { used = store w'.used i true })

-- `possible_routes != ~0u` stands in the condition of the loop.
unfoldable pub search_input :
    (max_ioapic_input : ℕ) → (routes used : ℕ → Bool) → (all_routes : Bool) → Option ℕ
unfolding find_input
search_input max_ioapic_input routes used all_routes =
    if all_routes then none else find_input 32 0 max_ioapic_input routes used

-- `comparator(parent, index)`, where `periodic` is bit 4 of its configuration, and `routes` the
-- possible inputs
unfoldable pub new_comparator :
    (handler context max_ioapic_input index : ℕ) (periodic : Bool) (routes : ℕ → Bool)
    → (all_routes : Bool) → Wiring
    → Run (Comparator × Wiring)
unfolding wire search_input use_input
new_comparator handler context max_ioapic_input index periodic routes all_routes w =
    let cap = if periodic then dynamic else one_shot_capable in
    if ltb index 2
    then (wire handler context (index * 8) w >>= λ (vector, w').
        ok (wired_at cap index vector 0, w'))
    else elim (search_input max_ioapic_input routes w.used all_routes) [
      | none ↦ ok (disabled cap index, w)
      | some i ↦ use_input handler context index cap i w
    ]
