-- ===== src/Tests/Timers.antt =====
-- The theorem on the timer, at a clock whose 64 bits overflow.
use tani_dvr.Prelude.{arith, some, ◌≡◌}
use tani_dvr.Timers.{Timeval, Spenttime, spenttime_set, spenttime_get}
use tani_dvr.Timers.Spent.{spenttime_get-set}

abbrev early : Timeval
early = record { tv_sec = 18_446_744_073_709; tv_usec = 500_000 }

abbrev late : Timeval
late = record { tv_sec = 18_446_744_073_710; tv_usec = 250_000 }

abbrev timer : Spenttime
timer = record { last = late; current = late }

spenttime_get-set_example :
    (spenttime_get (some late) (spenttime_set (some early) timer).0).1 ≡ 750_000
spenttime_get-set_example = spenttime_get-set timer early late 750_000 (omega arith)
