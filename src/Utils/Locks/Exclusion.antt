-- ===== src/Utils/Locks/Exclusion.antt =====
-- Cores that lock and unlock, step by step: any lock with an atomic test-and-set excludes, and is
-- never stuck.
use reaveros_iteration.Common.{
  ℕ, suc, ◌≤◌, ◌≡◌, ◌≢◌, refl, sym, ap, ◌∙◌, true, false, ok, arith, ℕ_discrete, Bool-cases, ◌==◌,
  if◌then◌else◌, inl, inr,
}
use reaveros_iteration.Utils.Locks.{TestAndSet}

-- where a core is: it does not want the lock, it is in the loop of `lock`, or it holds the lock
pub data Phase : Type 0 where
  outside : Phase
  spinning : Phase
  inside : Phase

pub record Cores (M : Type 0) : Type 0 where
  pub memory : M
  pub phase : ℕ → Phase

module _ {M : Type 0} where
  abbrev pub go : Cores M → ℕ → Phase → M → Cores M
  go s c p m = record { memory = m; phase = λ d. if d == c then p else s.phase d }

  -- One core takes one step; the cores take turns in any order.
  pub data Step (lock : TestAndSet M) : Cores M → Cores M → Type 0 where
    begin : {s : Cores M} (c : ℕ) → s.phase c ≡ outside → Step lock s (go s c spinning s.memory)
    spin :
        {s : Cores M} (c : ℕ)
        → s.phase c ≡ spinning
        → (lock.acquire s.memory).0 ≡ true
        → Step lock s (go s c spinning (lock.acquire s.memory).1)
    enter :
        {s : Cores M} (c : ℕ)
        → s.phase c ≡ spinning
        → (lock.acquire s.memory).0 ≡ false
        → Step lock s (go s c inside (lock.acquire s.memory).1)
    leave :
        {s : Cores M} (c : ℕ) (m : M)
        → s.phase c ≡ inside
        → lock.release s.memory ≡ ok m
        → Step lock s (go s c outside m)

  -- the runs from a state where the lock is free and no core wants it
  pub data Reach (lock : TestAndSet M) : Cores M → Type 0 where
    start :
        {s : Cores M} → lock.held s.memory ≡ false → ((c : ℕ) → s.phase c ≡ outside) → Reach lock s
    more : {s t : Cores M} → Reach lock s → Step lock s t → Reach lock t

  ok-inj : {x y : M} → ok x ≡ ok y → x ≡ y
  ok-inj e = cc e

  -- at most one core is inside, and the lock is held exactly while one is
  record Inv (lock : TestAndSet M) (s : Cores M) : Type 0 where
    one : (c d : ℕ) → s.phase c ≡ inside → s.phase d ≡ inside → c ≡ d
    taken : (c : ℕ) → s.phase c ≡ inside → lock.held s.memory ≡ true
    holder : lock.held s.memory ≡ true → (c : ℕ) × (s.phase c ≡ inside)

  phase_go : (s : Cores M) (c d : ℕ) (p : Phase) (m : M) → d ≢ c → (go s c p m).phase d ≡ s.phase d
  phase_go s c d p m ne = ground arith

  phase_here : (s : Cores M) (c : ℕ) (p : Phase) (m : M) → (go s c p m).phase c ≡ p
  phase_here s c p m = ground arith

  -- a core that is inside after the step of another that is not
  inside_before :
      (s : Cores M) (c d : ℕ) (p : Phase) (m : M)
      → p ≢ inside
      → (go s c p m).phase d ≡ inside
      → (d ≢ c) × (s.phase d ≡ inside)
  inside_before s c d p m out h = elim (ℕ_discrete d c) [
    | yes e ↦ absurd (out (sym (phase_here s c p m) ∙ ap (go s c p m).phase (sym e) ∙ h))
    | no ne ↦ (ne, sym (phase_go s c d p m ne) ∙ h)
  ]

  -- a step of a core outside that leaves the lock as held as it was
  quiet :
      (lock : TestAndSet M) (s : Cores M) (c : ℕ) (p : Phase) (m : M)
      → Inv lock s
      → s.phase c ≢ inside
      → p ≢ inside
      → lock.held m ≡ lock.held s.memory
      → Inv lock (go s c p m)
  quiet lock s c p m inv before after same = record {
    one = λ d e hd he.
        inv.one d e (inside_before s c d p m after hd).1 (inside_before s c e p m after he).1;
    taken = λ d hd. same ∙ inv.taken d (inside_before s c d p m after hd).1;
    holder = λ h.
        let (d, hd) = inv.holder (sym same ∙ h) in
        (d, phase_go s c d p m (λ e. before (ap s.phase (sym e) ∙ hd)) ∙ hd);
  }

  Step-Inv : {lock : TestAndSet M} {s t : Cores M} → Inv lock s → Step lock s t → Inv lock t
  Step-Inv {lock} inv (begin {s} c at) =
      quiet lock s c spinning s.memory inv (λ e. cc (sym at ∙ e)) (λ e. cc e) refl
  Step-Inv {lock} inv (spin {s} c at busy) =
      quiet lock s c spinning (lock.acquire s.memory).1 inv (λ e. cc (sym at ∙ e)) (λ e. cc e)
        (lock.acquire-held s.memory ∙ sym busy ∙ lock.acquire-old s.memory)
  Step-Inv {lock} inv (enter {s} c at free) =
      let m = (lock.acquire s.memory).1 in
      let empty : (d : ℕ) → s.phase d ≢ inside =
        λ d hd. cc (sym (inv.taken d hd) ∙ sym (lock.acquire-old s.memory) ∙ free) in
      let only : (d : ℕ) → (go s c inside m).phase d ≡ inside → d ≡ c = λ d hd.
        elim (ℕ_discrete d c) [
          | yes e ↦ e
          | no ne ↦ absurd (empty d (sym (phase_go s c d inside m ne) ∙ hd))
        ] in
      record {
        one = λ d e hd he. only d hd ∙ sym (only e he);
        taken = λ d hd. lock.acquire-held s.memory;
        holder = λ h. (c, phase_here s c inside m);
      }
  Step-Inv {lock} inv (leave {s} c m at done) =
      let (m', run, free) = lock.release-free s.memory (inv.taken c at) in
      let same : m ≡ m' = ok-inj (sym done ∙ run) in
      let free' : lock.held m ≡ false = ap lock.held same ∙ free in
      let gone : (d : ℕ) → (go s c outside m).phase d ≢ inside = λ d hd.
        let (ne, h) = inside_before s c d outside m (λ e. cc e) hd in ne (inv.one d c h at) in
      record {
        one = λ d e hd he. absurd (gone d hd);
        taken = λ d hd. absurd (gone d hd);
        holder = λ h. cc (sym free' ∙ h);
      }

  Reach-Inv : {lock : TestAndSet M} {s : Cores M} → Reach lock s → Inv lock s
  Reach-Inv (start free out) = record {
    one = λ c d hc hd. cc (sym (out c) ∙ hc);
    taken = λ c hc. cc (sym (out c) ∙ hc);
    holder = λ h. cc (sym free ∙ h);
  }
  Reach-Inv (more r step) = Step-Inv (Reach-Inv r) step

  -- Any number of cores that lock and unlock in any order of steps, over a lock with an atomic
  -- test-and-set such as spinlock or bit_lock: two cores are never inside together, and unlock by
  -- the core inside returns without a panic and frees the lock.
  pub Reach-exclusive :
      (lock : TestAndSet M) (s : Cores M)
      → Reach lock s
      → ((c d : ℕ) → s.phase c ≡ inside → s.phase d ≡ inside → c ≡ d)
        × ((c : ℕ)
            → s.phase c ≡ inside
            → (m : M) × (lock.release s.memory ≡ ok m) × (lock.held m ≡ false))
  Reach-exclusive lock s r =
      let inv = Reach-Inv r in (inv.one, λ c hc. lock.release-free s.memory (inv.taken c hc))

  -- the runs of so many steps
  pub data Steps (lock : TestAndSet M) : ℕ → Cores M → Cores M → Type 0 where
    stop : {s : Cores M} → Steps lock 0 s s
    move : {n : ℕ} {s t u : Cores M} → Step lock s t → Steps lock n t u → Steps lock (suc n) s u

  -- In every reachable state a core that spins for the lock can get inside within two steps: its
  -- own next test-and-set, after the unlock of the core inside, if there is one.
  pub spinning-enters :
      (lock : TestAndSet M) (s : Cores M) (c : ℕ)
      → Reach lock s
      → s.phase c ≡ spinning
      → (t : Cores M) × (n : ℕ) × (n ≤ 2) × Steps lock n s t × (t.phase c ≡ inside)
  spinning-enters lock s c r at =
      let inv = Reach-Inv r in
      elim (Bool-cases (lock.held s.memory)) [
        | inr free ↦ (
          go s c inside (lock.acquire s.memory).1,
          1,
          omega arith,
          move (enter c at (lock.acquire-old s.memory ∙ free)) stop,
          phase_here s c inside (lock.acquire s.memory).1,
        )
        | inl held ↦
            let (d, hd) = inv.holder held in
            let (m, run, free) = lock.release-free s.memory held in
            let s₁ = go s d outside m in
            let ne : c ≢ d = λ e. cc (sym at ∙ ap s.phase e ∙ hd) in
            (
              go s₁ c inside (lock.acquire m).1,
              2,
              omega arith,
              move (leave d m hd run) (
                  move (enter c (phase_go s d c outside m ne ∙ at) (lock.acquire-old m ∙ free))
                    stop),
              phase_here s₁ c inside (lock.acquire m).1,
            )
      ]
