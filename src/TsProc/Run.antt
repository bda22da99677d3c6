-- ===== src/TsProc/Run.antt =====
-- Timestamp correction over a sequence of frames, as the conversion loop calls it.
use tani_dvr.TsProc.{
  McTsproc, TsResult, processed, division_by_zero, dt_tsproc_process, later_frame, first_frame,
  reset_stats, ref_period_of,
}
use tani_dvr.TsProc.Near.{Near, Running}
use tani_dvr.FrameInfo.{McParms}
use tani_dvr.Mkv.{is_video}
use tani_dvr.Prelude.{
  List, [], arith, false, if◌then◌else◌, none, not, refl, some, true, ℕ, ◌<◌, ◌==◌, ◌∷◌, ◌≡◌,
}

unfoldable pub and_then : TsResult → (McTsproc → TsResult) → TsResult
and_then (processed t v) f = f t
and_then division_by_zero f = division_by_zero

-- The calls for frame after frame.
unfoldable pub process_all : List McParms → McTsproc → TsResult
process_all [] t = processed t none
process_all (mcp ∷ mcps) t = and_then (dt_tsproc_process mcp t) (process_all mcps)

-- A video frame whose parameters are known, with the period `r`.
unfoldable pub HasPeriod : ℕ → McParms → Type 0
HasPeriod r mcp =
    (is_video mcp.frame_type ≡ true)
    × (mcp.has_v_parms ≡ true)
    × (0 < mcp.dhav_fps)
    × (ref_period_of mcp ≡ r)

pub process-later :
    (r : ℕ)
    → (mcp : McParms) → (t : McTsproc) → HasPeriod r mcp
    → t.v_first_frame ≡ false
    → dt_tsproc_process mcp t ≡ processed (later_frame r mcp.dhav_epoch mcp.v_dhav_ts t) none
unfolding dt_tsproc_process HasPeriod
process-later r mcp t (h1, h2, h3, h4) k =
    let nonzero : (mcp.dhav_fps == 0) ≡ false = ground arith in
    λ i.
      if not (h1 i)
      then processed t (some 2)
      else if not (h2 i)
      then processed t (some 1)
      else if k i
      then processed (first_frame mcp t) (some 0)
      else if nonzero i
      then division_by_zero
      else processed (later_frame (h4 i) mcp.dhav_epoch mcp.v_dhav_ts t) none

pub process-first :
    (r : ℕ)
    → (mcp : McParms) → (t : McTsproc) → HasPeriod r mcp
    → t.v_first_frame ≡ true
    → dt_tsproc_process mcp t ≡ processed (first_frame mcp t) (some 0)
unfolding dt_tsproc_process HasPeriod
process-first r mcp t (h1, h2, h3, h4) k = λ i.
    if not (h1 i)
    then processed t (some 2)
    else if not (h2 i)
    then processed t (some 1)
    else if k i
    then processed (first_frame mcp t) (some 0)
    else if mcp.dhav_fps == 0
    then division_by_zero
    else processed (later_frame (ref_period_of mcp) mcp.dhav_epoch mcp.v_dhav_ts t) none

pub start :
    (r : ℕ)
    → (mcp : McParms) → (t : McTsproc) → Near r (first_frame mcp t) × Running 0 (first_frame mcp t)
unfolding first_frame Near Running reset_stats
start r mcp t = (
  (omega arith, omega arith, omega arith, omega arith, omega arith),
  (refl, omega arith, omega arith, omega arith),
)

pub running : (b : ℕ) → (t : McTsproc) → Running b t → t.v_first_frame ≡ false
unfolding Running
running b t s = s.0
