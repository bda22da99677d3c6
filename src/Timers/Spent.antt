-- ===== src/Timers/Spent.antt =====
-- The time that a timer shows.
use tani_dvr.Prelude.{ap, arith, ltb, some, sub_size, ℕ, ◌%◌, ◌*◌, ◌+◌, ◌<◌, ◌^◌, ◌∙◌, ◌≡◌}
use tani_dvr.Timers.{Timeval, Spenttime, micros, spenttime_set, spenttime_get, read_clock}

-- The microseconds since the start of the clock, not cut to 64 bits.
abbrev at : Timeval → ℕ
at t = t.tv_sec * 1_000_000 + t.tv_usec

difference : (x δ : ℕ) → sub_size ((x + δ) % 2 ^ 64) (x % 2 ^ 64) % 2 ^ 32 ≡ δ % 2 ^ 32
difference x δ = omega arith

-- A timer that was set shows the time that has passed, modulo 2^32 microseconds (71 minutes), also
-- where the clock's own 64 bits overflow in between.
pub spenttime_get-set :
    (spt : Spenttime) (before now : Timeval) (δ : ℕ)
    → at now ≡ at before + δ
    → (spenttime_get (some now) (spenttime_set (some before) spt).0).1 ≡ δ % 2 ^ 32
unfolding spenttime_get spenttime_set read_clock micros
spenttime_get-set spt before now δ e =
    ap (λ x. sub_size (x % 2 ^ 64) (at before % 2 ^ 64) % 2 ^ 32) e ∙ difference (at before) δ

-- The timers of the media loop: where less than 71 minutes have passed, the test for more than
-- `limit` microseconds is that of the time that has passed.
spent_test :
    (spt : Spenttime) (before now : Timeval) (δ limit : ℕ)
    → at now ≡ at before + δ
    → δ < 2 ^ 32
    → ltb limit (spenttime_get (some now) (spenttime_set (some before) spt).0).1 ≡ ltb limit δ
spent_test spt before now δ limit e small =
    ap (ltb limit) (spenttime_get-set spt before now δ e ∙ omega arith)
