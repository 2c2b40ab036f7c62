-- ===== src/Processor/Routing.antt =====
-- How an interrupt of the ISA is routed: `translate_isa` and `get_ioapic` of
-- kernel/processor/processor.cpp, `set_isa_irq_int_vector` of kernel/processor/handlers.cpp and
-- `route_interrupt` of kernel/processor/ioapic.h. An I/O APIC is its place in `_ioapics`. Of a
-- redirection entry the vector, the polarity and the trigger are kept, not the target.
use reaveros_iteration.Common.{
  ℕ, suc, ◌+◌, ◌/◌, ◌%◌, ◌^◌, ◌≡◌, ◌≤◌, ◌<◌, inl, inr, refl, subst, Bool, true, false, not, ◌&&◌,
  Option, none, some, List, [], ◌∷◌, Run, ok, fault, ◌==◌, ltb, leb, if◌then◌else◌, get_elem?,
  arith, Bool-cases, Option-cases,
}
use reaveros_iteration.Acpi.Madt.{Ioapic, Source}

-- `_sources` has 128 entries, more than any input that is asked for; the result is a `uint8_t`.
unfoldable pub translate_isa : (ℕ → Option Source) → ℕ → ℕ
translate_isa sources irq = elim (sources irq) [ some s ↦ s.global_vector % 256 | none ↦ irq ]

-- `input >= begin() && input < end()`
unfoldable pub covers : Ioapic → ℕ → Bool
covers a input =
    leb a.base_vector_number input && ltb input ((a.base_vector_number + a.size) % 2 ^ 32)

-- The place of the first I/O APIC with the input, where `i` of them have been passed.
unfoldable pub get_ioapic : (i : ℕ) → List Ioapic → ℕ → Option ℕ
unfolding covers
get_ioapic i [] input = none
get_ioapic i (a ∷ rest) input =
    let later = get_ioapic (suc i) rest input in if covers a input then some i else later

pub record Redirection : Type 0 where
  pub vector : ℕ
  pub low : Bool
  pub level : Bool

-- `ioreg` of `route_interrupt(input, vector)`
unfoldable pub redirection : (ℕ → Option Source) → (input vector : ℕ) → Redirection
redirection sources input vector = elim (sources input) [
  | none ↦ record { vector = vector; low = false; level = false }
  | some s ↦ record {
    vector = vector;
    low = not (s.flags % 4 == 0) && s.flags % 4 == 3;
    level = not (s.flags / 4 % 4 == 0) && s.flags / 4 % 4 == 3;
  }
]

-- the entries that have been written, by I/O APIC and by the number behind the register `0x10`
abbrev pub Redirections : Type 0
Redirections = ℕ → ℕ → Option Redirection

-- `set_isa_irq_int_vector`: it goes on with a null pointer where no I/O APIC has the input.
unfoldable pub set_isa_irq_int_vector :
    (ℕ → Option Source) → List Ioapic → (isa vector : ℕ) → Redirections → Run Redirections
unfolding translate_isa get_ioapic redirection
set_isa_irq_int_vector sources ioapics isa vector written =
    elim (get_ioapic 0 ioapics (translate_isa sources isa)) [
      | none ↦ fault
      | some k ↦ ok (λ i n.
          if i == k && n == translate_isa sources isa
          then some (redirection sources isa vector)
          else written i n)
    ]

-- The entry of the translated input is written, in an I/O APIC that has this input, and no other.
pub record IsRouted (sources : ℕ → Option Source) (ioapics : List Ioapic) (isa vector : ℕ)
    (before after : Redirections) : Type 0 where
  pub ioapic : Ioapic
  pub place : ℕ
  pub at_place : get_elem? ioapics place ≡ some ioapic
  pub from : ioapic.base_vector_number ≤ translate_isa sources isa
  pub up_to : translate_isa sources isa < (ioapic.base_vector_number + ioapic.size) % 2 ^ 32
  pub written : after place (translate_isa sources isa) ≡ some (redirection sources isa vector)
  pub others :
      (i n : ℕ) → (i == place && n == translate_isa sources isa) ≡ false → after i n ≡ before i n

get_ioapic-covers :
    (i : ℕ) (apics : List Ioapic) (input k : ℕ)
    → get_ioapic i apics input ≡ some k
    → (a : Ioapic) × (j : ℕ) × (k ≡ i + j) × (get_elem? apics j ≡ some a) × (covers a input ≡ true)
unfolding get_ioapic
get_ioapic-covers i [] input k e = cc
get_ioapic-covers i (a ∷ rest) input k e = elim (Bool-cases (covers a input)) [
  | inl y ↦ let here : i ≡ k = ground (arith, y, e) in (a, 0, omega (arith, here), refl, y)
  | inr n ↦
      let (b, j, at, found, y) = get_ioapic-covers (suc i) rest input k (ground (arith, n, e)) in
      (b, suc j, omega (arith, at), found, y)
]

pub set_isa_irq_int_vector-IsRouted :
    (sources : ℕ → Option Source) (ioapics : List Ioapic) (isa vector : ℕ)
    (before after : Redirections)
    → set_isa_irq_int_vector sources ioapics isa vector before ≡ ok after
    → IsRouted sources ioapics isa vector before after
unfolding set_isa_irq_int_vector covers
set_isa_irq_int_vector-IsRouted sources ioapics isa vector before after run =
    let input : ℕ = translate_isa sources isa in
    elim (Option-cases (get_ioapic 0 ioapics input)) [
      | inl none_found ↦
          let stopped : set_isa_irq_int_vector sources ioapics isa vector before ≡ fault =
            rw (set_isa_irq_int_vector, none_found) refl in
          cc
      | inr (k, e) ↦
          let next : Redirections = λ i n.
            if i == k && n == input then some (redirection sources isa vector) else before i n in
          let returned : set_isa_irq_int_vector sources ioapics isa vector before ≡ ok next =
            rw (set_isa_irq_int_vector, e) refl in
          let same : next ≡ after = cc in
          let (a, j, at, found, y) = get_ioapic-covers 0 ioapics input k e in
          let here : j ≡ k = omega (arith, at) in
          subst (IsRouted sources ioapics isa vector before) same (record {
            ioapic = a;
            place = k;
            at_place = subst (λ (n : ℕ). get_elem? ioapics n ≡ some a) here found;
            from = ground (arith, y);
            up_to = ground (arith, y);
            written = ground arith;
            others = λ i n ne. ground (arith, ne);
          })
    ]
