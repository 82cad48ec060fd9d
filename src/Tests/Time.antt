-- ===== src/Tests/Time.antt =====
-- Times.
use c_ares.Base.{◌≡◌, refl, none, some}
use c_ares.Time.{Timeval, timeoffset, timeout}

abbrev early : Timeval
early = record { tv_sec = 10; tv_usec = 900000 }

abbrev late : Timeval
late = record { tv_sec = 12; tv_usec = 100000 }

-- 1200 milliseconds
timeout_run : timeout (some late) early none ≡ some (record { tv_sec = 1; tv_usec = 200000 })
unfolding timeout timeoffset
timeout_run = refl
