-- ===== src/Time/Hpet/Route.antt =====
-- The inputs and vectors that the comparators of kernel/time/hpet.cpp get.
use reaveros_iteration.Common.{
  ℕ, ◌≡◌, ◌≤◌, ◌<◌, ◌⊎◌, Bool, true, false, Option, none, some, if◌then◌else◌,
}
use reaveros_iteration.Time.Hpet.{Comparator, Wiring}
use reaveros_iteration.Time.Timer.{Capabilities, dynamic, one_shot_capable}
use reaveros_iteration.Time.Hpet.Wire.{IsWired}

-- `found` is the first input from `i` up to `n` that is possible and not used.
abbrev pub IsFirstInput : (routes used : ℕ → Bool) → (i n max_ioapic_input : ℕ) → Option ℕ → Type 0
IsFirstInput routes used i n max_ioapic_input found =
    ((j : ℕ) × (found ≡ some j)
      × (i ≤ j)
      × (j < n)
      × (j < max_ioapic_input)
      × (routes j ≡ true)
      × (used j ≡ false))
    ⊎ (found ≡ none)

-- what is known of a comparator that an input has been found for
abbrev Wired :
    (handler context max_ioapic_input : ℕ) → (ℕ → Bool) → Wiring → Wiring → Comparator → Type 0
Wired handler context max_ioapic_input routes w w' c =
    (routes c.input ≡ true)
    × (c.input < max_ioapic_input)
    × (w.used c.input ≡ false)
    × (w'.used c.input ≡ true)
    × IsWired handler context c.input c.int_vector w (record w' { used = w.used })

kind_of : Bool → Capabilities
kind_of periodic = if periodic then dynamic else one_shot_capable
