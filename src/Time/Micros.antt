-- ===== src/Time/Micros.antt =====
-- Times as numbers of microseconds.
use c_ares.Base.{ℕ, ◌+◌, ◌*◌, ◌/◌, ◌%◌, ◌≤◌, ◌<◌, ◌≡◌, ◌↔◌, arith, true, Option, some}
use c_ares.Time.{Timeval, timedout, timeadd, int_max}

-- a time with less than a second of microseconds
abbrev pub IsTime : Timeval → Type 0
IsTime t = t.tv_usec < 1000000

abbrev pub micros : Timeval → ℕ
micros t = t.tv_sec * 1000000 + t.tv_usec

-- For times with less than a second of microseconds, `timedout` holds exactly if the checked time
-- is not later than now, in microseconds.
pub timedout_iff :
    (now check : Timeval)
    → IsTime now
    → IsTime check
    → (timedout now check ≡ true) ↔ (micros check ≤ micros now)
unfolding timedout
timedout_iff now check h k = ground arith

-- For a time with less than a second of microseconds, `timeadd` returns such a time, later by the
-- milliseconds.
pub timeadd-micros :
    (now : Timeval) (millisecs : ℕ)
    → IsTime now
    → IsTime (timeadd now millisecs)
      × (micros (timeadd now millisecs) ≡ micros now + millisecs * 1000)
unfolding timeadd
timeadd-micros now millisecs h = ground arith

abbrev micros_of : ℕ → Timeval
micros_of offset = record { tv_sec = offset / 1000; tv_usec = offset % 1000 * 1000 }

-- what `timeout` promises of its result
pub record IsTimeout (now first : Timeval) (maxtv : Option Timeval) (r : Timeval) : Type 0 where
  pub is_time : IsTime r
  pub in_int : micros r ≤ int_max * 1000
  pub not_late : micros now ≤ micros first → micros now + micros r < micros first + 1000
  pub overdue : micros first < micros now → micros r ≡ 0
  pub below_max : (m : Timeval) → maxtv ≡ some m → micros r ≤ micros m
  pub not_early :
      micros r < int_max * 1000
      → ((m : Timeval) → maxtv ≡ some m → micros r < micros m)
      → micros first < micros now + micros r + 1000
