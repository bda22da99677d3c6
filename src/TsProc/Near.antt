-- ===== src/TsProc/Near.antt =====
-- Timestamp correction: how far `v_timestamp` gets from the clock of the DVR, frame by frame.
use mathlib.Core.Bool.{false≢true}
use mathlib.Core.Path.{subst}
use native.Mathlib.Nat.{mul-le-mul_right}
use tani_dvr.Prelude.Int.{pos, abs_ℤ, sub_ℕ, quot, u64_add, i64_diff, i64_diff-sub_ℕ}
use tani_dvr.TsProc.{
  one_frame_more, counted, McTsproc, reset_stats, plus_frames, last_actions, resync_both,
  slow_drift, by_drift, by_epoch, later_frame,
}
use tani_dvr.TsProc.Correction.{correction-ahead, correction-behind}
use tani_dvr.Prelude.{
  Bool, ap, arith, dec_lt, false, if_cases, leb, leb→le, ltb, ltb→lt, sym, true, ℕ, ◌%◌, ◌&&◌, ◌*◌,
  ◌+◌, ◌-◌, ◌<◌, ◌^◌, ◌∙◌, ◌≡◌, ◌≢◌, ◌≤◌,
}

-- Within five periods of each other; what the statistics hide is less than a period; and the
-- frames counted in the statistics have each moved `v_timestamp` by a period.
unfoldable pub Near : ℕ → McTsproc → Type 0
Near r t =
    (t.v_dhav_timestamp ≤ t.v_timestamp + 5 * r)
    × (t.v_timestamp ≤ t.v_dhav_timestamp + 5 * r)
    × (t.v_dhav_timestamp + t.sdc_t_eff ≤ t.v_timestamp + t.sdc_t_dhav + r)
    × (t.v_timestamp + t.sdc_t_dhav ≤ t.v_dhav_timestamp + t.sdc_t_eff + r)
    × (t.sdc_t_frames * r ≤ t.v_timestamp)

-- Behind the first frame, and no sum of periods is larger than `b`.
unfoldable pub Running : ℕ → McTsproc → Type 0
Running b t =
    (t.v_first_frame ≡ false) × (t.v_dhav_timestamp ≤ b) × (t.sdc_t_dhav ≤ b) × (t.sdc_t_eff ≤ b)

enough : (c : Bool) (n : ℕ) → (c && leb 1000 n) ≡ true → 1000 ≤ n
enough true n e = leb→le 1000 n e
enough false n e = absurd (false≢true e)

drift_bounds : (x y m : ℕ) → ltb m (abs_ℤ (sub_ℕ x y)) ≡ false → (x ≤ y + m) × (y ≤ x + m)
drift_bounds x y m e = ground arith

not_both : (diff : ℕ) → ltb 30 diff ≡ true → ltb 5 diff ≢ false
not_both diff e f = ground arith

module _ (r p b : ℕ) (hr : 0 < r) (kr : r < 2 ^ 31) (hp : p < 2 ^ 36) (hb : b < 2 ^ 62) where
  resync_both-Near :
      (t : McTsproc)
      → Near r t
      → Running b t
      → Near r (resync_both t (pos r) r) × Running (b + 2 ^ 37) (resync_both t (pos r) r)
  unfolding Near Running resync_both last_actions reset_stats u64_add
  resync_both-Near t (a1, a2, a3, a4, a5) (b0, b1, b2, b3) = (
    (omega arith, omega arith, omega arith, omega arith, omega arith),
    (b0, omega arith, omega arith, omega arith),
  )

  drift_corrected-Near :
      (t : McTsproc)
      → Near r t
      → Running b t
      → let t' =
          last_actions t true
            (plus_frames r (quot (sub_ℕ (t.v_dhav_timestamp + p) (t.v_timestamp + r)) r))
            p in
        Near r t' × Running (b + 2 ^ 37) t'
  unfolding Near Running last_actions reset_stats
  drift_corrected-Near t (a1, a2, a3, a4, a5) (b0, b1, b2, b3) =
      let v = t.v_timestamp in
      let x = t.v_dhav_timestamp + p in
      elim (dec_lt x (v + r)) [
        | yes h ↦
            let e = correction-behind v r x (v + r) hr h (omega arith) (omega arith) in
            (
              (omega arith, omega arith, omega arith, omega arith, omega arith),
              (b0, omega arith, omega arith, omega arith),
            )
        | no h ↦
            let e = correction-ahead v r x (v + r) hr (omega arith) (omega arith) in
            (
              (omega arith, omega arith, omega arith, omega arith, omega arith),
              (b0, omega arith, omega arith, omega arith),
            )
      ]

  counted-Near :
      (t : McTsproc)
      → Near r t
      → Running b t
      → t.v_dhav_timestamp + p ≤ t.v_timestamp + 5 * r
      → t.v_timestamp ≤ t.v_dhav_timestamp + p + 3 * r
      → let t' = last_actions (counted r p t) false (pos r) p in Near r t' × Running (b + 2 ^ 37) t'
  unfolding Near Running last_actions counted u64_add
  counted-Near t (a1, a2, a3, a4, a5) (b0, b1, b2, b3) h k =
      let f : (t.sdc_t_frames + 1) * r ≡ r + t.sdc_t_frames * r = grind arith in
      (
        (omega arith, omega arith, omega arith, omega arith, omega arith),
        (b0, omega arith, omega arith, omega arith),
      )

  one_frame_more-Near :
      (t : McTsproc)
      → Near r t
      → Running b t
      → t.v_dhav_timestamp + p ≤ t.v_timestamp + 5 * r
      → t.v_timestamp ≤ t.v_dhav_timestamp + p + 3 * r
      → let t' = one_frame_more r p (counted r p t) in Near r t' × Running (b + 2 ^ 37) t'
  unfolding Near Running last_actions counted u64_add one_frame_more
  one_frame_more-Near t (a1, a2, a3, a4, a5) (b0, b1, b2, b3) h k =
      let f : (t.sdc_t_frames + 1) * r ≡ r + t.sdc_t_frames * r = grind arith in
      (
        (omega arith, omega arith, omega arith, omega arith, omega arith),
        (b0, omega arith, omega arith, omega arith),
      )

  slow_corrected-Near :
      (t : McTsproc)
      → Near r t
      → Running b t
      → t.v_dhav_timestamp + p ≤ t.v_timestamp + 5 * r
      → t.v_timestamp ≤ t.v_dhav_timestamp + p + 3 * r
      → 1000 ≤ t.sdc_t_frames + 1
      → let t' = counted r p t in
        let j = quot (sub_ℕ t'.sdc_t_dhav t'.sdc_t_eff) r in
        2 < abs_ℤ j
        → let t'' = last_actions t' true (plus_frames r j) p in
          Near r t'' × Running (b + 2 ^ 37) t''
  unfolding Near Running last_actions reset_stats counted
  slow_corrected-Near t (a1, a2, a3, a4, a5) (b0, b1, b2, b3) h k l m =
      let v = t.v_timestamp in
      let x = t.sdc_t_dhav + p in
      let y = t.sdc_t_eff + r in
      let f : 999 * r ≤ t.sdc_t_frames * r = mul-le-mul_right r (omega arith) in
      elim (dec_lt x y) [
        | yes n ↦
            let (e1, e2, e3) = correction-behind v r x y hr n (omega arith) (omega arith) in
            let e4 = e3 m in
            (
              (omega arith, omega arith, omega arith, omega arith, omega arith),
              (b0, omega arith, omega arith, omega arith),
            )
        | no n ↦
            let (e1, e2, e3) = correction-ahead v r x y hr (omega arith) (omega arith) in
            let e4 = e3 m in
            (
              (omega arith, omega arith, omega arith, omega arith, omega arith),
              (b0, omega arith, omega arith, omega arith),
            )
      ]

  slow_drift-Near :
      (t : McTsproc)
      → Near r t
      → Running b t
      → t.v_dhav_timestamp + p ≤ t.v_timestamp + 5 * r
      → t.v_timestamp ≤ t.v_dhav_timestamp + p + 3 * r
      → Near r (slow_drift r p t) × Running (b + 2 ^ 37) (slow_drift r p t)
  unfolding slow_drift counted
  slow_drift-Near t n s h k =
      let t' = counted r p t in
      let diff = sub_ℕ t'.sdc_t_dhav t'.sdc_t_eff in
      let P : McTsproc → Type 0 = λ u. Near r u × Running (b + 2 ^ 37) u in
      if_cases P (ltb (r * 2) (abs_ℤ diff) && leb 1000 t'.sdc_t_frames)
        (λ e.
          if_cases P (ltb 2 (abs_ℤ (quot diff r)))
            (λ f. slow_corrected-Near t n s h k (enough _ _ e) (ltb→lt _ _ f))
            (λ f. one_frame_more-Near t n s h k))
        (λ e. counted-Near t n s h k)

  sums :
      (t : McTsproc)
      → Near r t
      → Running b t
      → (t.v_dhav_timestamp + p < 2 ^ 63) × (t.v_timestamp + r < 2 ^ 63)
  unfolding Near Running
  sums t (a1, a2, a3, a4, a5) (b0, b1, b2, b3) = (omega arith, omega arith)

  by_drift-Near :
      (t : McTsproc)
      → Near r t
      → Running b t
      → Near r (by_drift r p t) × Running (b + 2 ^ 37) (by_drift r p t)
  unfolding by_drift
  by_drift-Near t n s =
      let P : McTsproc → Type 0 = λ u. Near r u × Running (b + 2 ^ 37) u in
      let x = t.v_dhav_timestamp + p in
      let y = t.v_timestamp + r in
      let (h, k) = sums t n s in
      let same = i64_diff-sub_ℕ x y h k in
      if_cases P (ltb (4 * r) (abs_ℤ (i64_diff x y)))
        (λ e.
          subst (λ d. P (last_actions t true (plus_frames r (quot d r)) p)) (sym same)
            (drift_corrected-Near t n s))
        (λ e.
          let (k, l) = drift_bounds x y (4 * r) (ap (λ d. ltb (4 * r) (abs_ℤ d)) (sym same) ∙ e) in
          slow_drift-Near t n s (omega arith) (omega arith))

  by_epoch-Near :
      (t : McTsproc)
      → Near r t
      → Running b t
      → Near r (by_epoch r p t) × Running (b + 2 ^ 37) (by_epoch r p t)
  unfolding by_epoch
  by_epoch-Near t n s =
      let P : McTsproc → Type 0 = λ u. Near r u × Running (b + 2 ^ 37) u in
      let diff = t.dhav_epoch - t.dhav_epoch_prev in
      if_cases P (ltb t.dhav_epoch t.dhav_epoch_prev) (λ e. resync_both-Near t n s)
        (λ e.
          if_cases P (ltb 30 diff)
            (λ f.
              if_cases P (ltb 5 diff) (λ g. resync_both-Near t n s)
                (λ g. absurd (not_both diff f g)))
            (λ f. by_drift-Near t n s))

-- One more frame with the period `r`.
pub later_frame-Near :
    (r b epoch ts : ℕ)
    → 0 < r
    → r < 2 ^ 31
    → b < 2 ^ 62
    → (t : McTsproc) → Near r t
    → Running b t
    → Near r (later_frame r epoch ts t) × Running (b + 2 ^ 37) (later_frame r epoch ts t)
unfolding later_frame Near Running
later_frame-Near r b epoch ts hr kr hb t n s =
    by_epoch-Near r ((ts + 2 ^ 16 - t.v_dhav_ts) % 2 ^ 16 * 1000000) b hr kr (omega arith) hb _ n s
