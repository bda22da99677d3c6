-- ===== src/TsProc/Elapsed.antt =====
-- Timestamp correction against the time that has passed on the DVR, by the times in its frames.
use tani_dvr.Prelude.{
  All, List, [], ap, arith, false, if_cases, if_false, if◌then◌else◌, leb, length, ltb, none, refl,
  sym, true, ℕ, ◌%◌, ◌&&◌, ◌*◌, ◌+◌, ◌-◌, ◌<◌, ◌^◌, ◌∙◌, ◌∷◌, ◌≡◌, ◌≤◌,
}
use mathlib.Core.Path.{subst}
use tani_dvr.FrameInfo.{McParms}
use tani_dvr.Prelude.Int.{pos, abs_ℤ, sub_ℕ, quot, i64_diff}
use tani_dvr.TsProc.{
  plus_frames, McTsproc, processed, by_drift, by_epoch, slow_drift, counted, one_frame_more,
  last_actions, reset_stats, later_frame, first_frame,
}
use tani_dvr.TsProc.Near.{Near, Running, later_frame-Near}
use tani_dvr.TsProc.Run.{
  process_all, and_then, HasPeriod, process-later, process-first, start, running,
}

-- The nanoseconds from a frame with the 16-bit time `ts` to the last one, in milliseconds each.
unfoldable pub elapsed : ℕ → List McParms → ℕ
elapsed ts [] = 0
elapsed ts (mcp ∷ mcps) =
    (mcp.v_dhav_ts + 2 ^ 16 - ts) % 2 ^ 16 * 1_000_000 + elapsed mcp.v_dhav_ts mcps

-- From frame to frame the seconds do not go back, nor more than 30 forward.
abbrev pub Steady : ℕ → List McParms → Type 0
Steady epoch [] = Unit
Steady epoch (mcp ∷ mcps) =
    (epoch ≤ mcp.dhav_epoch) × (mcp.dhav_epoch ≤ epoch + 30) × Steady mcp.dhav_epoch mcps

-- The frame's time is added to the DVR's clock, which is not set anew.
abbrev Adds : ℕ → McTsproc → McTsproc → Type 0
Adds p t u =
    (u.v_dhav_timestamp ≡ (t.v_dhav_timestamp + p) % 2 ^ 64)
    × (u.v_dhav_ts ≡ t.v_dhav_ts)
    × (u.dhav_epoch ≡ t.dhav_epoch)

slow_drift-Adds : (r p : ℕ) (t : McTsproc) → Adds p t (slow_drift r p t)
unfolding slow_drift counted one_frame_more last_actions reset_stats
slow_drift-Adds r p t =
    let t' = counted r p t in
    let diff = sub_ℕ t'.sdc_t_dhav t'.sdc_t_eff in
    let j = quot diff r in
    if_cases (Adds p t) (ltb (r * 2) (abs_ℤ diff) && leb 1000 t'.sdc_t_frames)
      {x = if ltb 2 (abs_ℤ j)
        then last_actions t' true (plus_frames r j) p
        else one_frame_more r p t'}
      {y = last_actions t' false (pos r) p}
      (λ f.
        if_cases (Adds p t) (ltb 2 (abs_ℤ j)) {x = last_actions t' true (plus_frames r j) p}
          {y = one_frame_more r p t'} (λ g. (refl, refl, refl)) (λ g. (refl, refl, refl)))
      (λ f. (refl, refl, refl))

by_drift-Adds : (r p : ℕ) (t : McTsproc) → Adds p t (by_drift r p t)
unfolding by_drift last_actions reset_stats
by_drift-Adds r p t =
    let drift = i64_diff (t.v_dhav_timestamp + p) (t.v_timestamp + r) in
    if_cases (Adds p t) (ltb (4 * r) (abs_ℤ drift))
      {x = last_actions t true (plus_frames r (quot drift r)) p} {y = slow_drift r p t}
      (λ e. (refl, refl, refl)) (λ e. slow_drift-Adds r p t)

by_epoch-steady :
    (r p : ℕ) (t : McTsproc)
    → t.dhav_epoch_prev ≤ t.dhav_epoch
    → t.dhav_epoch ≤ t.dhav_epoch_prev + 30
    → by_epoch r p t ≡ by_drift r p t
unfolding by_epoch
by_epoch-steady r p t h k =
    let onward : ltb t.dhav_epoch t.dhav_epoch_prev ≡ false = ground (arith, h) in
    let near : ltb 30 (t.dhav_epoch - t.dhav_epoch_prev) ≡ false = ground (arith, k) in
    if_false _ _ _ onward ∙ if_false _ _ _ near

later_frame-Adds :
    (r epoch ts : ℕ) (t : McTsproc)
    → t.dhav_epoch ≤ epoch
    → epoch ≤ t.dhav_epoch + 30
    → let u = later_frame r epoch ts t in
      (u.v_dhav_timestamp
        ≡ (t.v_dhav_timestamp + (ts + 2 ^ 16 - t.v_dhav_ts) % 2 ^ 16 * 1_000_000) % 2 ^ 64)
      × (u.v_dhav_ts ≡ ts)
      × (u.dhav_epoch ≡ epoch)
unfolding later_frame
later_frame-Adds r epoch ts t h k =
    let p = (ts + 2 ^ 16 - t.v_dhav_ts) % 2 ^ 16 * 1_000_000 in
    let t' : McTsproc = record t {
      dhav_epoch_prev = t.dhav_epoch;
      dhav_epoch = epoch;
      v_dhav_ts_prev = t.v_dhav_ts;
      v_dhav_ts = ts;
    } in
    subst (Adds p t') (sym (by_epoch-steady r p t' h k)) (by_drift-Adds r p t')

bounded : (r b : ℕ) (t : McTsproc) → Running b t → t.v_dhav_timestamp ≤ b
unfolding Running
bounded r b t (first, clock, dhav, eff) = clock

later-elapsed :
    (r b : ℕ) (mcps : List McParms) (t : McTsproc) (epoch ts : ℕ)
    → 0 < r
    → r < 2 ^ 31
    → b + length mcps * 2 ^ 37 < 2 ^ 62
    → All (HasPeriod r) mcps
    → Steady epoch mcps
    → t.dhav_epoch ≡ epoch
    → t.v_dhav_ts ≡ ts
    → Near r t
    → Running b t
    → (t' : McTsproc) × (process_all mcps t ≡ processed t' none)
      × Near r t'
      × (t'.v_dhav_timestamp ≡ t.v_dhav_timestamp + elapsed ts mcps)
unfolding process_all and_then elapsed
later-elapsed r b [] t epoch ts hr kr hb a steady e same n s = (t, refl, n, omega arith)
later-elapsed r b (mcp ∷ mcps) t epoch ts hr kr hb (h, a) (onward, near, steady) e same n s =
    let u = later_frame r mcp.dhav_epoch mcp.v_dhav_ts t in
    let (n', s') = later_frame-Near r b mcp.dhav_epoch mcp.v_dhav_ts hr kr (omega arith) t n s in
    let (clock, same', e') =
      later_frame-Adds r mcp.dhav_epoch mcp.v_dhav_ts t (omega arith) (omega arith) in
    let (t', ran, n'', all) =
      later-elapsed r (b + 2 ^ 37) mcps u mcp.dhav_epoch mcp.v_dhav_ts hr kr (omega arith) a steady
        e' same' n' s' in
    let small = bounded r b t s in
    (
      t',
      ap (λ u. and_then u (process_all mcps)) (process-later r mcp t h (running b t s)) ∙ ran,
      n'',
      omega arith,
    )

within_five :
    (r : ℕ) (t : McTsproc) (n : ℕ)
    → Near r t
    → t.v_dhav_timestamp ≡ n
    → (n ≤ t.v_timestamp + 5 * r) × (t.v_timestamp ≤ n + 5 * r)
unfolding Near
within_five r t n (a, b, c, d, f) e = (omega arith, omega arith)

-- For up to 2^24 frames behind a first one, all video frames with known parameters and one period of
-- the frame rate (not 0, below 2^31 ns), whose seconds do not go back from frame to frame, nor more
-- than 30 forward, and whose 16-bit times in milliseconds are any: the calls of dt_tsproc_process
-- return, and then v_timestamp is within five periods of the time that has passed on the DVR from
-- the first frame to the last, which is the sum of the differences, modulo 2^16, of those times.
pub process_all-elapsed :
    (r : ℕ) (mcp : McParms) (mcps : List McParms) (t : McTsproc)
    → t.v_first_frame ≡ true
    → 0 < r
    → r < 2 ^ 31
    → length mcps < 2 ^ 24
    → All (HasPeriod r) (mcp ∷ mcps)
    → Steady mcp.dhav_epoch mcps
    → (t' : McTsproc) × (process_all (mcp ∷ mcps) t ≡ processed t' none)
      × (elapsed mcp.v_dhav_ts mcps ≤ t'.v_timestamp + 5 * r)
      × (t'.v_timestamp ≤ elapsed mcp.v_dhav_ts mcps + 5 * r)
unfolding process_all and_then first_frame
process_all-elapsed r mcp mcps t k hr kr hb (h, a) steady =
    let (n, s) = start r mcp t in
    let (t', ran, n', clock) =
      later-elapsed r 0 mcps (first_frame mcp t) mcp.dhav_epoch mcp.v_dhav_ts hr kr (omega arith) a
        steady refl refl n s in
    let (low, high) = within_five r t' (elapsed mcp.v_dhav_ts mcps) n' (omega (arith, clock)) in
    (t', ap (λ u. and_then u (process_all mcps)) (process-first r mcp t h k) ∙ ran, low, high)
