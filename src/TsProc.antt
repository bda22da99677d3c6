-- ===== src/TsProc.antt =====
-- src/mctools.h and src/mctools.c: `t_mc_tsproc` and dt_tsproc_process, which gives video frames
-- evenly spaced timestamps. The sums of periods are `int64_t` in the source; they start at 0 and only
-- grow. The averages are for the log only.
pub mod Correction
pub mod Near
pub mod Run
pub mod Elapsed
pub mod Range
use tani_dvr.Prelude.Int.{ℤ, pos, minus, negsuc, abs_ℤ, sub_ℕ, quot, i64_diff, u64_add}
use tani_dvr.FrameInfo.{
  FrameType, ft_undefined, ft_video_frame, ft_video_i_frame, ft_audio_frame, McParms,
}
use tani_dvr.Mkv.{is_video}
use tani_dvr.Prelude.{
  ==_iff, All, All-append, All-get_or, All-split, Bool, Bool-cases, List, Option, [], add-one, ap,
  append-nil, append_assoc, append_inj, arith, dec_lt, drop, drop-drop, drop-length_append,
  drop-past, false, flatten, get_or, get_or-append, get_or-cons, get_or-past, get_or-set,
  get_or-splice, get_or-splice_in, get_or-splice_out, get_or-tabulate, if_cases, if_false, if_true,
  if◌then◌else◌, inl, inr, leb, leb→le, length, length-append, length-drop, length-replicate,
  length-set, length-splice, length-tabulate, length-take, list_ext, ltb, ltb→le, ltb→lt, lt→ltb,
  map, none, not, refl, replicate, set, some, splice, sub_size, suc, sym, tabulate, tabulate-add,
  tabulate-get_or, tabulate_congr, take, take-append-drop, take-length_append, take-past, true,
  window, window-front, window_cut, window_split, window_total, zero, ℕ, ◌%◌, ◌&&◌, ◌*◌, ◌++◌, ◌+◌,
  ◌-◌, ◌/◌, ◌<◌, ◌==◌, ◌^◌, ◌||◌, ◌↔◌, ◌∙◌, ◌∷◌, ◌≡◌, ◌≢◌, ◌≤◌, ◌⊎◌,
}

pub record McTsproc : Type 0 where
  pub v_first_frame : Bool
  pub v_dhav_timestamp : ℕ
  pub v_timestamp : ℕ
  pub sdc_t_dhav : ℕ
  pub sdc_t_ref : ℕ
  pub sdc_t_eff : ℕ
  pub sdc_t_frames : ℕ
  pub v_dhav_ts : ℕ
  pub v_dhav_ts_prev : ℕ
  pub dhav_epoch : ℕ
  pub dhav_epoch_prev : ℕ

abbrev pub timestamp_jitter_damping_limit : ℕ
timestamp_jitter_damping_limit = 4

abbrev pub slow_drift_eval_min_samples : ℕ
slow_drift_eval_min_samples = 1000

abbrev pub epoch_max_forward_jump : ℕ
epoch_max_forward_jump = 30

abbrev pub max_epoch_pedantry_towards_timestamp : ℕ
max_epoch_pedantry_towards_timestamp = 5

-- The call returned, with a value or, at the end of the body, without one; or it divided by 0.
pub data TsResult : Type 0 where
  processed : McTsproc → Option ℕ → TsResult
  division_by_zero : TsResult

-- `dt_tsproc_init` on what `malloc` returned.
unfoldable pub dt_tsproc_init : McTsproc → McTsproc
dt_tsproc_init block = record block { v_first_frame = true }

unfoldable pub reset_stats : McTsproc → McTsproc
reset_stats t = record t { sdc_t_dhav = 0; sdc_t_ref = 0; sdc_t_eff = 0; sdc_t_frames = 0 }

-- `ref_period + (j * ref_period)`.
unfoldable pub plus_frames : ℕ → ℤ → ℤ
plus_frames ref_period (pos n) = pos (ref_period + n * ref_period)
plus_frames ref_period (negsuc n) = minus (n * ref_period)

unfoldable pub last_actions : McTsproc → Bool → ℤ → ℕ → McTsproc
last_actions t p_reset_sf period_to_use dhav_period =
    let t' = if p_reset_sf then reset_stats t else t in
    record t' {
      v_timestamp = u64_add t.v_timestamp period_to_use;
      v_dhav_timestamp = (t.v_dhav_timestamp + dhav_period) % 2 ^ 64;
    }

-- The DHAV timestamp is worthless now.
unfoldable pub resync_both : McTsproc → ℤ → ℕ → McTsproc
resync_both t period_to_use dhav_period =
    last_actions (record t { v_dhav_timestamp = t.v_timestamp }) true period_to_use dhav_period

-- Slow drift: the frame goes into the statistics.
unfoldable pub counted : ℕ → ℕ → McTsproc → McTsproc
counted ref_period dhav_period t = record t {
  sdc_t_dhav = t.sdc_t_dhav + dhav_period;
  sdc_t_ref = t.sdc_t_ref + ref_period;
  sdc_t_eff = t.sdc_t_eff + ref_period;
  sdc_t_frames = t.sdc_t_frames + 1;
}

-- One more frame than the statistics ask for is corrected.
unfoldable pub one_frame_more : ℕ → ℕ → McTsproc → McTsproc
one_frame_more ref_period dhav_period t =
    let period_to_use = ref_period + 1 * ref_period in
    last_actions (record t { sdc_t_eff = t.sdc_t_eff + period_to_use - ref_period }) false
      (pos period_to_use) dhav_period

-- A correction when the sums differ too much.
unfoldable pub slow_drift : ℕ → ℕ → McTsproc → McTsproc
slow_drift ref_period dhav_period t =
    let t' = counted ref_period dhav_period t in
    let tot_period_diff_eff = sub_ℕ t'.sdc_t_dhav t'.sdc_t_eff in
    let j = quot tot_period_diff_eff ref_period in
    if ltb (ref_period * 2) (abs_ℤ tot_period_diff_eff)
      && leb slow_drift_eval_min_samples t'.sdc_t_frames
    then if ltb 2 (abs_ℤ j)
      then last_actions t' true (plus_frames ref_period j) dhav_period
      else one_frame_more ref_period dhav_period t'
    else last_actions t' false (pos ref_period) dhav_period

-- A difference of more frames than are taken for jitter is corrected at once.
unfoldable pub by_drift : ℕ → ℕ → McTsproc → McTsproc
by_drift ref_period dhav_period t =
    let timestamp_drift =
      i64_diff (t.v_dhav_timestamp + dhav_period) (t.v_timestamp + ref_period) in
    if ltb (timestamp_jitter_damping_limit * ref_period) (abs_ℤ timestamp_drift)
    then last_actions t true (plus_frames ref_period (quot timestamp_drift ref_period)) dhav_period
    else slow_drift ref_period dhav_period t

-- From the second frame on, behind the synchronisation of `t` with the frame.
unfoldable pub by_epoch : ℕ → ℕ → McTsproc → McTsproc
by_epoch ref_period dhav_period t =
    let diff = t.dhav_epoch - t.dhav_epoch_prev in
    let jump = (diff * 1000000000 / ref_period + 1) * ref_period in
    if ltb t.dhav_epoch t.dhav_epoch_prev
    then resync_both t (pos ref_period) ref_period
    else if ltb epoch_max_forward_jump diff
    then if ltb max_epoch_pedantry_towards_timestamp diff
      then resync_both t (pos ref_period) ref_period
      else resync_both t (pos jump) jump
    else by_drift ref_period dhav_period t

-- `ref_period`, for a frame rate that is not 0.
unfoldable pub ref_period_of : McParms → ℕ
ref_period_of mcp =
    (if mcp.ntsc_timings && not mcp.ntsc_exact_60hz then 1001000000 else 1000000000) / mcp.dhav_fps

unfoldable pub later_frame : ℕ → ℕ → ℕ → McTsproc → McTsproc
later_frame ref_period epoch ts t =
    let dhav_period_ms = (ts + 2 ^ 16 - t.v_dhav_ts) % 2 ^ 16 in
    by_epoch ref_period (dhav_period_ms * 1000000) (record t {
      dhav_epoch_prev = t.dhav_epoch;
      dhav_epoch = epoch;
      v_dhav_ts_prev = t.v_dhav_ts;
      v_dhav_ts = ts;
    })

unfoldable pub first_frame : McParms → McTsproc → McTsproc
first_frame mcp t = record (reset_stats t) {
  v_first_frame = false;
  v_dhav_timestamp = 0;
  v_timestamp = 0;
  dhav_epoch = mcp.dhav_epoch;
  v_dhav_ts = mcp.v_dhav_ts;
}

unfoldable pub dt_tsproc_process : McParms → McTsproc → TsResult
dt_tsproc_process mcp t =
    if not (is_video mcp.frame_type)
    then processed t (some 2)
    else if not mcp.has_v_parms
    then processed t (some 1)
    else if t.v_first_frame
    then processed (first_frame mcp t) (some 0)
    else if mcp.dhav_fps == 0
    then division_by_zero
    else processed (later_frame (ref_period_of mcp) mcp.dhav_epoch mcp.v_dhav_ts t) none
