-- ===== src/Time.antt =====
-- The times of src/lib/ares_process.c and src/lib/ares_timeout.c. A `struct timeval` of the monotonic
-- clock is two natural numbers.
pub mod Micros
use c_ares.Base.{
  ℕ, ◌+◌, ◌-◌, ◌*◌, ◌/◌, ◌%◌, Bool, true, false, leb, ltb, if◌then◌else◌, ℤ, pos, negsuc, sub,
  Option, none, some,
}

pub record Timeval : Type 0 where
  pub tv_sec : ℕ
  pub tv_usec : ℕ

-- `ares__timedout`
unfoldable pub timedout : Timeval → Timeval → Bool
timedout now check =
    if ltb check.tv_sec now.tv_sec
    then true
    else if ltb now.tv_sec check.tv_sec
    then false
    else leb check.tv_usec now.tv_usec

unfoldable pub timeadd : Timeval → ℕ → Timeval
timeadd now millisecs =
    let sec = now.tv_sec + millisecs / 1000 in
    let usec = now.tv_usec + millisecs % 1000 * 1000 in
    if leb 1000000 usec
    then record { tv_sec = sec + 1; tv_usec = usec - 1000000 }
    else record { tv_sec = sec; tv_usec = usec }

-- The division of a negative number of microseconds rounds towards zero.
unfoldable pub timeoffset : Timeval → Timeval → ℤ
timeoffset now check =
    if leb now.tv_usec check.tv_usec
    then sub (check.tv_sec * 1000 + (check.tv_usec - now.tv_usec) / 1000) (now.tv_sec * 1000)
    else sub (check.tv_sec * 1000) (now.tv_sec * 1000 + (now.tv_usec - check.tv_usec) / 1000)

abbrev pub int_max : ℕ
int_max = 2147483647

-- `if (offset < 0) offset = 0; if (offset > INT_MAX) offset = INT_MAX;`
abbrev pub clamp : ℤ → ℕ
clamp (pos n) = if ltb int_max n then int_max else n
clamp (negsuc n) = 0

abbrev pub earlier : Timeval → Timeval → Timeval
earlier tvbuf maxtv =
    if ltb maxtv.tv_sec tvbuf.tv_sec
    then maxtv
    else if ltb tvbuf.tv_sec maxtv.tv_sec
    then tvbuf
    else if ltb maxtv.tv_usec tvbuf.tv_usec
    then maxtv
    else tvbuf

-- `ares_timeout`: `first` is the time of the first query of the list by timeouts, if it has one.
unfoldable pub timeout : Option Timeval → Timeval → Option Timeval → Option Timeval
timeout none now maxtv = maxtv
timeout (some first) now maxtv =
    let offset = clamp (timeoffset now first) in
    let tvbuf : Timeval = record { tv_sec = offset / 1000; tv_usec = offset % 1000 * 1000 } in
    elim maxtv [ none ↦ some tvbuf | some m ↦ some (earlier tvbuf m) ]
