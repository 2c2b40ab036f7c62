-- ===== src/Time/Real/Passing.antt =====
-- No time is lost between two calls of `now`, or from one `_update` to the next, of
-- kernel/time/real.cpp.
use reaveros_iteration.Common.{ℕ, ◌+◌, ◌-◌, ◌*◌, ◌^◌, ◌≤◌, ◌<◌, ◌≡◌, refl, true, arith}
use reaveros_iteration.Time.Real.{Point, Clock, update, now}

abbrev pub total : Point → ℕ
total p = p.seconds * 1000000000 + p.nanoseconds

-- real::now with a running HPET, whose count has not gone back, returns the time that it stores:
-- the time before it and the nanoseconds that have passed, with less than a second of nanoseconds,
-- where the seconds are below 2^62.
pub now-total :
    (hpet_now : ℕ) (c : Clock)
    → c.time.nanoseconds < 1000000000
    → c.hpet_last_ns ≤ hpet_now
    → hpet_now < 2 ^ 64
    → c.time.seconds < 2 ^ 62
    → ((now true hpet_now c).0 ≡ (now true hpet_now c).1.time)
      × (total (now true hpet_now c).0 ≡ total c.time + (hpet_now - c.hpet_last_ns))
      × ((now true hpet_now c).0.nanoseconds < 1000000000)
      × ((now true hpet_now c).1.hpet_last_ns ≡ hpet_now)
unfolding now
now-total hpet_now c small later low room = (refl, ground arith, ground arith, refl)

pub update-total :
    (c : Clock)
    → c.time.nanoseconds ≤ 1000000000
    → c.time.seconds < 2 ^ 62
    → (total (update c).time ≡ total c.time + 2000000) × ((update c).time.nanoseconds ≤ 1000000000)
unfolding update
update-total c small room = (ground arith, ground arith)
