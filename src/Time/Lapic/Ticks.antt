-- ===== src/Time/Lapic/Ticks.antt =====
-- What the timer of the local APIC waits for.
use native.Mathlib.Nat.{mul-le-mul_left, mul-le-mul_right, pow-suc, div-add-mod}
use reaveros_iteration.Common.{
  ℕ, zero, suc, ◌+◌, ◌-◌, ◌*◌, ◌/◌, ◌%◌, ◌^◌, ◌≡◌, ◌≤◌, ◌<◌, ◌⊎◌, inl, inr, refl, sym, ap, subst,
  ◌∙◌, Bool, false, Run, ok, fault, ◌==◌, if◌then◌else◌, arith, dec_lt, ℕ_discrete,
}
use reaveros_iteration.Time.Lapic.{
  xapic, Registers, divisor, configuration_for, ticks, choose_divisor, saturate, start, update_now,
}
use reaveros_iteration.Time.Lapic.Divisor.{
  divides_by, divides_by-configuration_for, divisor-configuration_for, two_pow_le, saturate-full,
  saturate-lt, quotient_bounds,
}

-- The registers `r` for a wait of `time`, given in nanoseconds and `period` in femtoseconds: the count
-- at the divisor `2 ^ n` is no longer, and less than one tick shorter unless it is full at the
-- largest divisor, which is the smallest at which the count is not full. The timer divides by
-- `2 ^ n`, but by 32 where that is 16.
pub record Waits (period time : ℕ) (r : Registers) : Type 0 where
  pub n : ℕ
  pub at_most : n ≤ 7
  pub configured : r.divide_configuration ≡ configuration_for (2 ^ n)
  pub divides : divides_by r.divide_configuration ≡ (if n == 4 then 32 else 2 ^ n)
  pub fits : r.initial_count < 2 ^ 32
  pub not_longer : r.initial_count * (2 ^ n * period) ≤ time * 1_000_000
  pub not_shorter :
      (time * 1_000_000 < (r.initial_count + 1) * (2 ^ n * period))
      ⊎ ((n ≡ 7) × (r.initial_count ≡ 2 ^ 32 - 1))
  pub finest : (m : ℕ) → m < n → 2 ^ 32 * (2 ^ m * period) ≤ time * 1_000_000

module _ (period time : ℕ) (pos : 0 < period) (small : 128 * period < 2 ^ 64)
    (soon : time * 1_000_000 < 2 ^ 64) where
  abbrev unit : ℕ → ℕ
  unit n = 2 ^ n * period

  unit_bounds : (n : ℕ) → n ≤ 7 → (0 < unit n) × (unit n < 2 ^ 64)
  unit_bounds n h =
      let (low, high, last) = two_pow_le n h in
      (omega (arith, mul-le-mul_right period low), omega (arith, mul-le-mul_right period high))

  ticks_lem : (n : ℕ) → n ≤ 7 → ticks period time (2 ^ n) ≡ ok (time * 1_000_000 / unit n)
  unfolding ticks
  ticks_lem n h =
      let (low, high) = unit_bounds n h in
      let inner : 2 ^ n * period % 2 ^ 64 ≡ 2 ^ n * period = omega (arith, high) in
      let outer : time * 1_000_000 % 2 ^ 64 ≡ time * 1_000_000 = omega arith in
      rw (inner, outer) (ground (arith, low))

  -- a quotient that does not fit into 32 bits
  too_many :
      (n : ℕ) → n ≤ 7 → 2 ^ 32 - 1 < time * 1_000_000 / unit n → 2 ^ 32 * unit n ≤ time * 1_000_000
  too_many n h over =
      let parts = div-add-mod (time * 1_000_000) (unit n) in
      omega (arith, mul-le-mul_left (unit n) over, parts)

  record Chosen (k : ℕ) (r : Run ℕ) : Type 0 where
    below : k ≤ 7
    run : r ≡ ok (2 ^ k)
    enough : (time * 1_000_000 / unit k < 2 ^ 32) ⊎ (k ≡ 7)
    before : (m : ℕ) → m < k → 2 ^ 32 * unit m ≤ time * 1_000_000

  choose_divisor-next :
      (n fuel : ℕ)
      → suc n ≤ 7
      → 2 ^ 32 - 1 < time * 1_000_000 / unit n
      → choose_divisor (suc fuel) period time (2 ^ n) ≡ choose_divisor fuel period time (2 ^ suc n)
  unfolding choose_divisor
  choose_divisor-next n fuel h over =
      let (low, high, last) = two_pow_le n (omega arith) in
      let (low', high', last') = two_pow_le (suc n) h in
      let twice : 2 ^ n * 2 % 256 ≡ 2 ^ suc n = omega (arith, pow-suc 2 n, high') in
      let going : (2 ^ n == 128) ≡ false = ground (arith, last) in
      rw (ticks_lem n (omega arith), twice, going) (ground (arith, over))

  seen_next :
      (n : ℕ)
      → n ≤ 7
      → 2 ^ 32 - 1 < time * 1_000_000 / unit n
      → ((m : ℕ) → m < n → 2 ^ 32 * unit m ≤ time * 1_000_000)
      → (m : ℕ) → m < suc n
      → 2 ^ 32 * unit m ≤ time * 1_000_000
  seen_next n h over seen m lt = elim (ℕ_discrete m n) [
    | yes e ↦ subst (λ (i : ℕ). 2 ^ 32 * unit i ≤ time * 1_000_000) (sym e) (too_many n h over)
    | no ne ↦ seen m (omega arith)
  ]

  choose_divisor-Chosen :
      (left n fuel : ℕ)
      → n + left ≡ 7
      → left < fuel
      → ((m : ℕ) → m < n → 2 ^ 32 * unit m ≤ time * 1_000_000)
      → (k : ℕ) × Chosen k (choose_divisor fuel period time (2 ^ n))
  unfolding choose_divisor
  choose_divisor-Chosen left n zero e f seen = absurd (omega arith)
  choose_divisor-Chosen zero n (suc fuel) e f seen = (
    n,
    record {
      below = omega arith;
      run = rw (ticks_lem n (omega arith)) (
          let last : n ≡ 7 = omega arith in
          let full : 2 ^ n ≡ 128 = ap (λ (i : ℕ). 2 ^ i) last in ground (arith, full));
      enough = inr (omega arith);
      before = seen;
    },
  )
  choose_divisor-Chosen (suc left) n (suc fuel) e f seen =
      elim (dec_lt (2 ^ 32 - 1) (time * 1_000_000 / unit n)) [
        | yes over ↦
            let (k, c) =
              choose_divisor-Chosen left (suc n) fuel (omega arith) (omega arith)
                (seen_next n (omega arith) over seen) in
            (
              k,
              record {
                below = c.below;
                run = choose_divisor-next n fuel (omega arith) over ∙ c.run;
                enough = c.enough;
                before = c.before;
              },
            )
        | no within ↦ (
          n,
          record {
            below = omega arith;
            run = rw (ticks_lem n (omega arith)) (ground (arith, within));
            enough = inl (omega (arith, within));
            before = seen;
          },
        )
      ]

  returned :
      (periodic : Bool) (fuel k : ℕ)
      → Chosen k (choose_divisor fuel period time 1)
      → (r : Registers) × (start periodic fuel period time ≡ ok r)
        × (r.periodic ≡ periodic)
        × Waits period time r
  unfolding start
  returned periodic fuel k c =
      let n : ℕ = time * 1_000_000 / unit k in
      let (low, high) = unit_bounds k c.below in
      let (longer, shorter) = quotient_bounds (time * 1_000_000) (unit k) low in
      let r : Registers = record {
        divide_configuration = configuration_for (2 ^ k);
        initial_count = saturate n;
        periodic = periodic;
      } in
      (
        r,
        rw (c.run, ticks_lem k c.below) refl,
        refl,
        record {
          n = k;
          at_most = c.below;
          configured = refl;
          divides = divides_by-configuration_for k c.below;
          fits = saturate-lt n;
          not_longer = longer;
          not_shorter = elim (dec_lt n (2 ^ 32)) [
            | yes within ↦ inl (shorter within)
            | no over ↦ elim c.enough [
              | inl within ↦ inl (shorter within)
              | inr last ↦ inr (last, saturate-full n (omega (arith, over)))
            ]
          ];
          finest = c.before;
        },
      )

  -- _one_shot and _periodic of the timer of the local APIC return, while the time in femtoseconds
  -- and 128 periods fit into 64 bits and the period is not zero. They choose a divisor d, a power
  -- of two up to 128, and a count that fits into 32 bits, such that count times d times period is
  -- not above the wanted time and less than one tick below it, unless the count is the largest and
  -- d is 128; no smaller divisor keeps the count within 32 bits. By the register that they write
  -- the timer divides by d, except that it divides by 32 where d is 16 and so waits twice as long.
  pub start-Waits :
      (periodic : Bool) (fuel : ℕ)
      → 7 < fuel
      → (r : Registers) × (start periodic fuel period time ≡ ok r)
        × (r.periodic ≡ periodic)
        × Waits period time r
  unfolding start
  start-Waits periodic fuel enough =
      let (k, c) = choose_divisor-Chosen 7 0 fuel refl enough (λ m lt. absurd (omega arith)) in
      returned periodic fuel k c

  -- On an xAPIC, after _one_shot or _periodic for a time whose ticks fit into 32 bits undivided,
  -- under the conditions under which these return, the next _update_now with an event in the list
  -- divides by zero, since divisor() gives 0 for the divisor 1.
  pub update_now-faults :
      (periodic : Bool) (fuel : ℕ) (r : Registers) (time_point current_count now : ℕ)
      → 7 < fuel
      → time * 1_000_000 < 2 ^ 32 * period
      → start periodic fuel period time ≡ ok r
      → update_now xapic period time_point current_count now r ≡ fault
  unfolding update_now ticks
  update_now-faults periodic fuel r time_point current_count now enough short run =
      let (r', ran, kind, waits) = start-Waits periodic fuel enough in
      let same : r' ≡ r = cc in
      let undivided : waits.n ≡ 0 = elim (dec_lt 0 waits.n) [
        | yes more ↦ absurd (omega (arith, waits.finest 0 more))
        | no le ↦ omega arith
      ] in
      let written : r.divide_configuration ≡ configuration_for (2 ^ 0) =
        ap (λ (x : Registers). x.divide_configuration) (sym same)
        ∙ waits.configured
        ∙ ap (λ (i : ℕ). configuration_for (2 ^ i)) undivided in
      let zero_divisor : divisor xapic r.divide_configuration ≡ 0 =
        ap (divisor xapic) written ∙ (divisor-configuration_for 0 (omega arith)).1 in
      rw zero_divisor (ground arith)
