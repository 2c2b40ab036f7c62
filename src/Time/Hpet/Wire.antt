-- ===== src/Time/Hpet/Wire.antt =====
-- The vector and the handler that a comparator of kernel/time/hpet.cpp gets.
use reaveros_iteration.Common.{
  ℕ, ◌-◌, ◌≡◌, inl, inr, refl, ap, ◌∙◌, Bool, true, false, none, some, ok, panic, subst, arith,
  Option-cases, >>=-eq-ok,
}
use reaveros_iteration.Processor.Vectors.{Interrupts, Given, store, allocate_isr, register_handler}
use reaveros_iteration.Processor.Vectors.Allocation.{Gives, Gives-IsOne, allocate_isr-Gives}
use reaveros_iteration.Processor.Routing.{
  Redirections, set_isa_irq_int_vector, IsRouted, set_isa_irq_int_vector-IsRouted,
}
use reaveros_iteration.Time.Hpet.{Wiring, wire}

-- a handler that has been registered
pub record IsRegistered (number handler context : ℕ) (v v' : Interrupts) : Type 0 where
  pub handles : v'.handlers number ≡ some handler
  pub gets : v'.contexts number ≡ context
  pub same_allocated : v'.allocated ≡ v.allocated

pub register_handler-IsRegistered :
    (number handler context : ℕ) (v v' : Interrupts)
    → register_handler number handler context v ≡ ok v'
    → IsRegistered number handler context v v'
register_handler-IsRegistered number handler context v v' run =
    elim (Option-cases (v.handlers number)) [
      | inl free ↦
          let v₁ : Interrupts = record v {
            handlers = store v.handlers number (some handler);
            contexts = store v.contexts number context;
          } in
          let returned : register_handler number handler context v ≡ ok v₁ =
            unfold register_handler in ground (arith, free) in
          let same : v₁ ≡ v' = cc in
          subst (IsRegistered number handler context v) same
            (record { handles = ground arith; gets = ground arith; same_allocated = refl })
      | inr (h, e) ↦
          let stopped : register_handler number handler context v ≡ panic =
            unfold register_handler in ground (arith, e) in
          cc
    ]

-- A vector that was free is taken for the handler, and the redirection entry of the translated input
-- leads to it.
pub record IsWired (handler context input vector : ℕ) (w w' : Wiring) : Type 0 where
  pub was_free : w.interrupts.allocated (vector - 32) ≡ false
  pub now_taken : w'.interrupts.allocated (vector - 32) ≡ true
  pub handled : w'.interrupts.handlers vector ≡ some handler
  pub given : w'.interrupts.contexts vector ≡ context
  pub routed : IsRouted w.sources w.ioapics input vector w.routed w'.routed
  pub same_used : w'.used ≡ w.used

pub wired_lem :
    (handler context input vector : ℕ) (w w' : Wiring) (g : Given) (v : Interrupts)
    (r : Redirections)
    → allocate_isr 8 256 0 1 none false w.interrupts ≡ ok g
    → register_handler g.vector handler context g.interrupts ≡ ok v
    → set_isa_irq_int_vector w.sources w.ioapics input g.vector w.routed ≡ ok r
    → g.vector ≡ vector
    → record w { interrupts = v; routed = r } ≡ w'
    → IsWired handler context input vector w w'
wired_lem handler context input vector w w' g v r given registered route number all =
    elim (allocate_isr-Gives 0 8 256 0 none w.interrupts (omega arith) (omega arith) (omega arith)
      (omega arith)) [
        | inl (g', ran, gives) ↦
            let same : g' ≡ g = cc in
            let one =
              Gives-IsOne none w.interrupts g (subst (Gives 0 none w.interrupts) same gives) in
            let is =
              register_handler-IsRegistered g.vector handler context g.interrupts v registered in
            subst (λ (n : ℕ). IsWired handler context input n w w') number
              (subst (IsWired handler context input g.vector w) all (record {
                was_free = one.was_free;
                now_taken =
                    ap (λ (a : ℕ → Bool). a (g.vector - 32)) is.same_allocated ∙ one.now_taken;
                handled = is.handles;
                given = is.gets;
                routed =
                    set_isa_irq_int_vector-IsRouted w.sources w.ioapics input g.vector w.routed r
                      route;
                same_used = refl;
              }))
        | inr (inl (zero_left, stuck, taken)) ↦ cc
        | inr (inr (more, stuck, taken)) ↦ cc
      ]

pub wire-IsWired :
    (handler context input vector : ℕ) (w w' : Wiring)
    → wire handler context input w ≡ ok (vector, w')
    → IsWired handler context input vector w w'
unfolding wire
wire-IsWired handler context input vector w w' run =
    let (g, given, rest) = >>=-eq-ok (allocate_isr 8 256 0 1 none false w.interrupts) _ run in
    let (v, registered, onward) =
      >>=-eq-ok (register_handler g.vector handler context g.interrupts) _ rest in
    let (r, route, done) =
      >>=-eq-ok (set_isa_irq_int_vector w.sources w.ioapics input g.vector w.routed) _ onward in
    let pair : (g.vector, record w { interrupts = v; routed = r }) ≡ (vector, w') = cc in
    wired_lem handler context input vector w w' g v r given registered route
      (ap (λ (p : ℕ × Wiring). p.0) pair) (ap (λ (p : ℕ × Wiring). p.1) pair)
