-- ===== src/TsProc/Range.antt =====
-- A call of dt_tsproc_process with a frame rate that is not 0 returns, with a `uint64_t`.
use tani_dvr.Prelude.Int.{ℤ, pos, abs_ℤ, sub_ℕ, quot, i64_diff, u64_add, negsuc}
use tani_dvr.FrameInfo.{McParms}
use tani_dvr.Mkv.{is_video}
use tani_dvr.TsProc.{
  TsResult, McTsproc, processed, first_frame, last_actions, reset_stats, resync_both, counted,
  one_frame_more, plus_frames, slow_drift, by_drift, by_epoch, later_frame, ref_period_of,
  dt_tsproc_process,
}
use tani_dvr.Prelude.{
  ==_iff, Bool, Option, arith, false, if_cases, leb, ltb, none, not, refl, some, true, ℕ, ◌&&◌, ◌*◌,
  ◌+◌, ◌-◌, ◌<◌, ◌==◌, ◌^◌, ◌≡◌,
}

abbrev pub InRange : McTsproc → Type 0
InRange t = t.v_timestamp < 2 ^ 64

u64_add-lt : (a : ℕ) (z : ℤ) → u64_add a z < 2 ^ 64
unfolding u64_add
u64_add-lt a (pos n) = omega arith
u64_add-lt a (negsuc n) = omega arith

last_actions-InRange :
    (t : McTsproc) (p_reset_sf : Bool) (z : ℤ) (p : ℕ) → InRange (last_actions t p_reset_sf z p)
unfolding last_actions
last_actions-InRange t p_reset_sf z p = u64_add-lt t.v_timestamp z

slow_drift-InRange : (r p : ℕ) (t : McTsproc) → InRange (slow_drift r p t)
unfolding slow_drift one_frame_more
slow_drift-InRange r p t =
    let t' = counted r p t in
    let diff = sub_ℕ t'.sdc_t_dhav t'.sdc_t_eff in
    if_cases InRange (ltb (r * 2) (abs_ℤ diff) && leb 1000 t'.sdc_t_frames)
      (λ e.
        if_cases InRange (ltb 2 (abs_ℤ (quot diff r)))
          (λ f. last_actions-InRange t' true (plus_frames r (quot diff r)) p)
          (λ f. last_actions-InRange _ false (pos (r + 1 * r)) p))
      (λ e. last_actions-InRange t' false (pos r) p)

by_drift-InRange : (r p : ℕ) (t : McTsproc) → InRange (by_drift r p t)
unfolding by_drift
by_drift-InRange r p t =
    if_cases InRange (ltb (4 * r) (abs_ℤ (i64_diff (t.v_dhav_timestamp + p) (t.v_timestamp + r))))
      (λ e. last_actions-InRange t true _ p) (λ e. slow_drift-InRange r p t)

later_frame-InRange : (r epoch ts : ℕ) (t : McTsproc) → InRange (later_frame r epoch ts t)
unfolding later_frame by_epoch resync_both
later_frame-InRange r epoch ts t =
    if_cases InRange (ltb epoch t.dhav_epoch) (λ e. last_actions-InRange _ true _ _)
      (λ e.
        if_cases InRange (ltb 30 (epoch - t.dhav_epoch))
          (λ f.
            if_cases InRange (ltb 5 (epoch - t.dhav_epoch)) (λ g. last_actions-InRange _ true _ _)
              (λ g. last_actions-InRange _ true _ _))
          (λ f. by_drift-InRange r _ _))

pub process-InRange :
    (mcp : McParms) (t : McTsproc)
    → 0 < mcp.dhav_fps
    → InRange t
    → (t' : McTsproc) × (ret : Option ℕ) × (dt_tsproc_process mcp t ≡ processed t' ret) × InRange t'
unfolding dt_tsproc_process first_frame reset_stats
process-InRange mcp t rate h =
    let P : TsResult → Type 0 =
      λ u. (t' : McTsproc) × (ret : Option ℕ) × (u ≡ processed t' ret) × InRange t' in
    if_cases P (not (is_video mcp.frame_type)) (λ e. (t, some 2, refl, h))
      (λ e.
        if_cases P (not mcp.has_v_parms) (λ f. (t, some 1, refl, h))
          (λ f.
            if_cases P t.v_first_frame (λ g. (first_frame mcp t, some 0, refl, omega arith))
              (λ g.
                if_cases P (mcp.dhav_fps == 0)
                  (λ k. absurd (omega (arith, (==_iff mcp.dhav_fps 0).0 k)))
                  (λ k. (
                    later_frame (ref_period_of mcp) mcp.dhav_epoch mcp.v_dhav_ts t,
                    none,
                    refl,
                    later_frame-InRange (ref_period_of mcp) mcp.dhav_epoch mcp.v_dhav_ts t,
                  )))))
