-- ===== src/Time/Real.antt =====
-- kernel/time/real.cpp: the time of day. What the loop of `initialize` reads from the registers of
-- the clock is a record, what the HPET counts an argument.
pub mod Calendar
pub mod Passing
use reaveros_iteration.Common.{
  ℕ, ◌+◌, ◌*◌, ◌/◌, ◌%◌, ◌^◌, Bool, not, ◌&&◌, ◌==◌, ltb, leb, if◌then◌else◌, add64, sub64,
}

-- `time::point`
pub record Point : Type 0 where
  pub seconds : ℕ
  pub nanoseconds : ℕ

-- `_time`, `_boot_time` and `_hpet_last_ns`
pub record Clock : Type 0 where
  pub time : Point
  pub boot_time : Point
  pub hpet_last_ns : ℕ

-- the registers of the clock, the last one being register B
pub record Registers : Type 0 where
  pub second : ℕ
  pub minute : ℕ
  pub hour : ℕ
  pub day : ℕ
  pub month : ℕ
  pub year : ℕ
  pub regb : ℕ

-- `_update`, every 2 ms
unfoldable pub update : Clock → Clock
update c =
    let nanoseconds = add64 c.time.nanoseconds 2000000 in
    record c {
      time =
          if ltb 1000000000 nanoseconds
          then record {
            seconds = add64 c.time.seconds 1;
            nanoseconds = sub64 nanoseconds 1000000000;
          }
          else record c.time { nanoseconds = nanoseconds };
    }

-- `(x & 0x0F) + ((x / 16) * 10)`, for the bytes and for the year
abbrev pub from_bcd : ℕ → ℕ
from_bcd x = x % 16 + x / 16 * 10

-- the same for the hour, whose highest bit is the afternoon flag
abbrev pub hour_from_bcd : ℕ → ℕ
hour_from_bcd x = x % 16 + x / 16 % 8 * 10 + x / 128 % 2 * 128

abbrev pub has_flag : ℕ → ℕ → Bool
has_flag flag x = x / flag % 2 == 1

-- `if (!(regb & 0x04)) ...`
unfoldable pub decode : Registers → Registers
decode r = if has_flag 4 r.regb then r else record r {
  second = from_bcd r.second;
  minute = from_bcd r.minute;
  hour = hour_from_bcd r.hour;
  day = from_bcd r.day;
  month = from_bcd r.month;
  year = from_bcd r.year;
}

-- `if (!(regb & 0x02) && (hour & 0x80)) hour = ((hour & 0x7F) + 12) % 24;`
unfoldable pub to_24_hours : Registers → ℕ
to_24_hours r =
    if not (has_flag 2 r.regb) && has_flag 128 r.hour then (r.hour % 128 + 12) % 24 else r.hour

-- `(month > m) * length`
abbrev pub after_month : (month m length : ℕ) → ℕ
after_month month m length = if ltb m month then length else 0

unfoldable pub days_before_month : ℕ → ℕ
days_before_month month =
    after_month month 1 31
    + after_month month 2 28
    + after_month month 3 31
    + after_month month 4 30
    + after_month month 5 31
    + after_month month 6 30
    + after_month month 7 31
    + after_month month 8 31
    + after_month month 9 30
    + after_month month 10 31
    + after_month month 11 30

-- the days since the first of January 2001, that day being the first
unfoldable pub days_of : (year month day : ℕ) → ℕ
unfolding days_before_month
days_of year month day =
    let years = sub64 year 2001 in
    let days =
      add64 (sub64 (add64 (years * 365 % 2 ^ 64) (years / 4)) (years / 100)) (years / 400) in
    add64 (add64 days (days_before_month month)) day

unfoldable pub seconds_of : Registers → ℕ
unfolding decode to_24_hours days_of
seconds_of r =
    let d = decode r in
    let days = days_of (add64 d.year 2000) d.month d.day in
    (((days * 24 + to_24_hours d) * 60 + d.minute) * 60 + d.second) % 2 ^ 64

-- the end of `initialize`
unfoldable pub set_time : Registers → Clock → Clock
unfolding seconds_of
set_time r c = record c {
  time = record c.time { seconds = add64 c.time.seconds (seconds_of r) };
  boot_time = record c.boot_time { seconds = seconds_of r };
}

-- `now`; `hpet_now` is what the HPET has counted, where there is one
unfoldable pub now : (ready : Bool) (hpet_now : ℕ) → Clock → Point × Clock
now ready hpet_now c =
    let passed = sub64 hpet_now c.hpet_last_ns in
    let seconds = add64 c.time.seconds (passed / 1000000000) in
    let nanoseconds = add64 c.time.nanoseconds (passed % 1000000000) in
    let time : Point =
      if leb 1000000000 nanoseconds
      then record { seconds = add64 seconds 1; nanoseconds = sub64 nanoseconds 1000000000 }
      else record { seconds = seconds; nanoseconds = nanoseconds } in
    if ready then (time, record c { time = time; hpet_last_ns = hpet_now }) else (c.time, c)
