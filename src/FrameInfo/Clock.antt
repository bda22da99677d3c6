-- ===== src/FrameInfo/Clock.antt =====
-- The timestamps of DHAV frames: 16 bits of milliseconds, made a clock that does not wrap.
use tani_dvr.FrameInfo.{McParms, stamp}
use tani_dvr.Prelude.{
  All, List, [], ap, arith, false, if◌then◌else◌, ltb, refl, true, ℕ, ◌%◌, ◌*◌, ◌+◌, ◌-◌, ◌<◌, ◌^◌,
  ◌∙◌, ◌∷◌, ◌≡◌,
}

-- The frames' times from the time `t` on, each `gap` milliseconds after the last; a header shows the
-- low 16 bits.
pub stamp_all : McParms → ℕ → List ℕ → McParms
stamp_all mc t [] = mc
stamp_all mc t (gap ∷ gaps) = stamp_all (stamp ((t + gap) % 2 ^ 16) mc) (t + gap) gaps

pub total : List ℕ → ℕ
total [] = 0
total (gap ∷ gaps) = gap + total gaps

abbrev pub Small : ℕ → Type 0
Small gap = gap < 2 ^ 16

-- One frame behind the first.
stamp_next :
    (mc : McParms) (t gap : ℕ)
    → mc.v_first_frame ≡ false
    → mc.v_dhav_ts_prev ≡ t % 2 ^ 16
    → gap < 2 ^ 16
    → stamp ((t + gap) % 2 ^ 16) mc ≡ record mc {
      v_dhav_ts = (t + gap) % 2 ^ 16;
      v_timestamp = (mc.v_timestamp + gap * 1000000) % 2 ^ 64;
      v_dhav_ts_prev = (t + gap) % 2 ^ 16;
    }
unfolding stamp
stamp_next mc t gap first prev small =
    let ts = (t + gap) % 2 ^ 16 in
    let old = mc.v_dhav_ts_prev in
    let period : (if ltb old ts then ts - old else (ts + 2 ^ 16 - old) % 2 ^ 16) ≡ gap =
      ground arith in
    λ i.
      if first i
      then record mc { v_dhav_ts = ts; v_first_frame = false; v_dhav_ts_prev = ts; v_timestamp = 0 }
      else record mc {
        v_dhav_ts = ts;
        v_timestamp = (mc.v_timestamp + period i * 1000000) % 2 ^ 64;
        v_dhav_ts_prev = ts;
      }

stamp_all-total :
    (gaps : List ℕ) (mc : McParms) (t : ℕ)
    → mc.v_first_frame ≡ false
    → mc.v_dhav_ts_prev ≡ t % 2 ^ 16
    → All Small gaps
    → (stamp_all mc t gaps).v_timestamp % 2 ^ 64 ≡ (mc.v_timestamp + total gaps * 1000000) % 2 ^ 64
unfolding stamp_all total
stamp_all-total [] mc t first prev a = omega arith
stamp_all-total (gap ∷ gaps) mc t first prev a =
    let next : McParms = record mc {
      v_dhav_ts = (t + gap) % 2 ^ 16;
      v_timestamp = (mc.v_timestamp + gap * 1000000) % 2 ^ 64;
      v_dhav_ts_prev = (t + gap) % 2 ^ 16;
    } in
    let later = stamp_all-total gaps next (t + gap) first refl a.1 in
    ap (λ m. (stamp_all m (t + gap) gaps).v_timestamp % 2 ^ 64) (stamp_next mc t gap first prev a.0)
    ∙ later
    ∙ (let e : ((mc.v_timestamp + gap * 1000000) % 2 ^ 64 + total gaps * 1000000) % 2 ^ 64
            ≡ (mc.v_timestamp + (gap + total gaps) * 1000000) % 2 ^ 64 =
          omega arith in
        e)

-- For a first frame and others with less than 65536 ms between each and the next, whose headers show
-- only 16 bits of the time, v_timestamp is the whole time since the first frame in nanoseconds,
-- modulo 2^64.
pub stamp_all-clock :
    (mc : McParms) (t : ℕ) (gaps : List ℕ)
    → mc.v_first_frame ≡ true
    → All Small gaps
    → (stamp_all (stamp (t % 2 ^ 16) mc) t gaps).v_timestamp % 2 ^ 64
      ≡ total gaps * 1000000 % 2 ^ 64
unfolding stamp
stamp_all-clock mc t gaps first a =
    let ts = t % 2 ^ 16 in
    let start : McParms = record mc {
      v_dhav_ts = ts;
      v_first_frame = false;
      v_dhav_ts_prev = ts;
      v_timestamp = 0;
    } in
    let started : stamp ts mc ≡ start = λ i. if first i then start else record mc {
      v_dhav_ts = ts;
      v_timestamp =
          (mc.v_timestamp
            + (if ltb mc.v_dhav_ts_prev ts
                then ts - mc.v_dhav_ts_prev
                else (ts + 2 ^ 16 - mc.v_dhav_ts_prev) % 2 ^ 16)
              * 1000000)
          % 2 ^ 64;
      v_dhav_ts_prev = ts;
    } in
    ap (λ m. (stamp_all m t gaps).v_timestamp % 2 ^ 64) started
    ∙ stamp_all-total gaps start t refl refl a
    ∙ (let e : (0 + total gaps * 1000000) % 2 ^ 64 ≡ total gaps * 1000000 % 2 ^ 64 = omega arith in
        e)
