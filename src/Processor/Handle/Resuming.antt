-- ===== src/Processor/Handle/Resuming.antt =====
-- Two interrupts handled by `processor::handle`: the first takes a thread off its core, the second
-- gives the core back to it.
use reaveros_iteration.Common.{
  ℕ, ◌%◌, ◌≡◌, ◌≢◌, ◌≤◌, refl, sym, ap, ◌∙◌, Bool, true, false, none, some, Run, ok, ◌==◌,
  if◌then◌else◌, arith,
}
use reaveros_iteration.Processor.Context.{IsrContext, Context, save, load, load-save}
use reaveros_iteration.Processor.Handle.{
  Machine, tell, swap, handle_from, save_thread, valid, load_thread, switch, handle, call_handler,
  acknowledge,
}

-- the switch of the threads, on a machine that runs `to`
switch_lem :
    (tid from to : ℕ) (x : IsrContext) (y : Context) (m : Machine)
    → from ≢ to
    → tid ≢ 0
    → m.current ≡ to
    → (m.threads to).id ≢ tid
    → valid m from ≡ true
    → (m.threads to).context ≡ some y
    → switch tid from x m ≡ ok (load y x, save_thread from x m)
unfolding switch load_thread valid
switch_lem tid from to x y m apart numbered runs other live saved =
    ground (arith, numbered, runs, other, live, saved, apart)

module _ (run : ℕ → IsrContext → ℕ → Machine → Run (IsrContext × Machine)) where
  -- A device interrupts the thread `from`; its handler, which is `h`, leaves the frame as it is and
  -- chooses the thread `to`, which has the context `y`.
  pub record IsSwitch (from to : ℕ) (x : IsrContext) (y : Context) (m m₁ : Machine) : Type 0 where
    pub h : ℕ
    pub ready : m.scheduling ≡ true
    pub was : m.current ≡ from
    pub numbered : (m.threads from).id ≢ 0
    pub by_device : 32 ≤ x.number
    pub registered : m.interrupts.handlers x.number ≡ some h
    pub returns :
        run h x
          (m.interrupts.contexts x.number)
          (record (swap (x.cs % 4 == 3) m) { is_in_interrupt = true })
        ≡ ok (x, m₁)
    pub chosen : m₁.current ≡ to
    pub other : (m₁.threads to).id ≢ (m.threads from).id
    pub live : valid m₁ from ≡ true
    pub saved : (m₁.threads to).context ≡ some y

  -- what the interrupt leaves behind
  abbrev pub after_switch : ℕ → IsrContext → Machine → Machine
  after_switch from x m₁ =
      swap (x.cs % 4 == 3)
        (record (save_thread from x (tell x.number m₁)) { is_in_interrupt = false })

  call_handler-some :
      (x : IsrContext) (m : Machine) (h : ℕ)
      → m.interrupts.handlers x.number ≡ some h
      → call_handler run x m ≡ run h x (m.interrupts.contexts x.number) m
  unfolding call_handler
  call_handler-some x m h e = ground (arith, e)

  handle_from-switch :
      (from to : ℕ) (x : IsrContext) (y : Context) (m m₁ : Machine) (has_handler : Bool)
      → from ≢ to
      → IsSwitch from to x y m m₁
      → handle_from run
          (m.threads from).id
          from
          has_handler
          x
          (record (swap (x.cs % 4 == 3) m) { is_in_interrupt = true })
        ≡ ok (load y x, record (save_thread from x (tell x.number m₁)) { is_in_interrupt = false })
  unfolding handle_from
  handle_from-switch from to x y m m₁ has_handler apart s =
      let found : call_handler run x (record (swap (x.cs % 4 == 3) m) { is_in_interrupt = true })
          ≡ ok (x, m₁) =
        call_handler-some x _ s.h s.registered ∙ s.returns in
      let told : acknowledge run has_handler x m₁ ≡ ok (tell x.number m₁) =
        unfold acknowledge in ground (arith, s.by_device) in
      let turned : switch (m.threads from).id from x (tell x.number m₁)
          ≡ ok (load y x, save_thread from x (tell x.number m₁)) =
        switch_lem (m.threads from).id from to x y (tell x.number m₁) apart s.numbered s.chosen
          s.other s.live s.saved in
      rw (found, told, turned) refl

  pub handle-switch :
      (from to : ℕ) (x : IsrContext) (y : Context) (m m₁ : Machine)
      → from ≢ to
      → IsSwitch from to x y m m₁
      → handle run x m ≡ ok (load y x, after_switch from x m₁)
  unfolding handle
  handle-switch from to x y m m₁ apart s =
      let tid : (if m.scheduling then (m.threads m.current).id else 0) ≡ (m.threads from).id =
        rw s.ready (ap (λ (t : ℕ). (m.threads t).id) s.was) in
      let interrupted : (if m.scheduling then m.current else 0) ≡ from = rw s.ready s.was in
      let has_handler : Bool = elim (m.interrupts.handlers x.number) [
        | some h ↦ true
        | none ↦ false
      ] in
      rw (tid, interrupted, handle_from-switch from to x y m m₁ has_handler apart s) refl

  some-inj : {c d : Context} → some c ≡ some d → c ≡ d
  some-inj e = cc e

  -- processor::handle, for the interrupt of a device whose handler leaves the frame alone and
  -- chooses another thread with a context, loads the registers of that thread, saves those of the
  -- live thread that it has interrupted, and tells the owner of the vector and the local APIC. A
  -- later such interrupt that chooses the first thread, whose context is the one that was saved,
  -- puts all registers in place as they were, but for the number and the error code of the
  -- interrupt.
  pub handle-resumes :
      (from to to' : ℕ) (x z : IsrContext) (y c : Context) (m m₁ m₂ m₃ : Machine)
      → from ≢ to
      → IsSwitch from to x y m m₁
      → to' ≢ from
      → IsSwitch to' from z c m₂ m₃
      → (m₃.threads from).context ≡ ((after_switch from x m₁).threads from).context
      → (handle run x m ≡ ok (load y x, after_switch from x m₁))
        × (handle run z m₂
            ≡ ok (record x { number = z.number; error = z.error }, after_switch to' z m₃))
  handle-resumes from to to' x z y c m m₁ m₂ m₃ apart s apart' s' kept =
      let left : ((after_switch from x m₁).threads from).context ≡ some (save x) = ground arith in
      let same : c ≡ save x = some-inj (sym s'.saved ∙ kept ∙ left) in
      let loaded : load c z ≡ record x { number = z.number; error = z.error } =
        ap (λ (d : Context). load d z) same ∙ load-save x z in
      (
        handle-switch from to x y m m₁ apart s,
        handle-switch to' from z c m₂ m₃ apart' s'
            ∙ ap (λ (w : IsrContext). ok (w, after_switch to' z m₃)) loaded,
      )
