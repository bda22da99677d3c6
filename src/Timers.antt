-- ===== src/Timers.antt =====
-- src/timertools.c: the time since a timer was set, in microseconds, in 32 bits.
pub mod Spent
use tani_dvr.Prelude.{
  ==_iff, All, All-append, All-get_or, All-split, Bool, Bool-cases, List, Option, [], add-one, ap,
  append-nil, append_assoc, append_inj, arith, dec_lt, drop, drop-drop, drop-length_append,
  drop-past, false, flatten, get_or, get_or-append, get_or-cons, get_or-past, get_or-set,
  get_or-splice, get_or-splice_in, get_or-splice_out, get_or-tabulate, if_cases, if_false, if_true,
  if◌then◌else◌, inl, inr, leb, leb→le, length, length-append, length-drop, length-replicate,
  length-set, length-splice, length-tabulate, length-take, list_ext, ltb, ltb→le, ltb→lt, lt→ltb,
  map, none, not, refl, replicate, set, some, splice, sub_size, suc, sym, tabulate, tabulate-add,
  tabulate-get_or, tabulate_congr, take, take-append-drop, take-length_append, take-past, true,
  window, window-front, window_cut, window_split, window_total, zero, ℕ, ◌%◌, ◌&&◌, ◌*◌, ◌++◌, ◌+◌,
  ◌-◌, ◌/◌, ◌<◌, ◌==◌, ◌^◌, ◌||◌, ◌↔◌, ◌∙◌, ◌∷◌, ◌≡◌, ◌≢◌, ◌≤◌, ◌⊎◌,
}
use tani_dvr.Prelude.Int.{ℤ, pos, minus}

pub record Timeval : Type 0 where
  pub tv_sec : ℕ
  pub tv_usec : ℕ

pub record Spenttime : Type 0 where
  pub last : Timeval
  pub current : Timeval

-- The product and the sum are in 64 bits.
unfoldable pub micros : Timeval → ℕ
micros t = (t.tv_sec * 1_000_000 + t.tv_usec) % 2 ^ 64

-- What gettimeofday gives, `none` for -1.
unfoldable pub spenttime_set : Option Timeval → Spenttime → Spenttime × ℤ
spenttime_set none spt = (spt, minus 1)
spenttime_set (some now) spt = (record spt { last = now }, pos 0)

unfoldable pub read_clock : Option Timeval → Spenttime → Spenttime
read_clock none spt = spt
read_clock (some now) spt = record spt { current = now }

unfoldable pub spenttime_get : Option Timeval → Spenttime → Spenttime × ℕ
spenttime_get now spt =
    let spt' = read_clock now spt in
    (spt', sub_size (micros spt'.current) (micros spt'.last) % 2 ^ 32)
