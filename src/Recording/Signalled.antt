-- ===== src/Recording/Signalled.antt =====
-- The loop over the pipe, whatever signals come and whatever the waits and the reads give.
use tani_dvr.Prelude.{
  All, All-split, Bool, Bool-cases, List, [], ap, append_assoc, arith, false, flatten, if_false,
  if_true, inl, inr, refl, some, sym, true, ℕ, ◌++◌, ◌+◌, ◌<◌, ◌||◌, ◌∙◌, ◌∷◌, ◌≡◌, ◌⊎◌,
}
use tani_dvr.Recording.Rounds.{round_of, broken_off}
use tani_dvr.Recording.Heard.{reads_of, Small, next, poll_failed, read_failed, read_bytes}
use mathlib.Core.Path.{subst}
use tani_dvr.Prelude.Int.{ℤ, pos, minus}
use tani_dvr.Frames.{Dstf, IsValid, contents}
use tani_dvr.Frames.Dhav.{process_dhav}
use tani_dvr.Stream.{is_negative, ended, write_failed, drain, Drained}
use tani_dvr.Stream.Broken.{drain-Round}
use tani_dvr.Stream.Handled.{handle_all, handle_all-append}
use tani_dvr.Session.{stream_buffer_len}
use tani_dvr.Convert.{Conversion, State, going}
use tani_dvr.Recording.{
  Activity, Signals, Recorder, Recorded, waiting, finished, poll_pipe_read,
  stream_buffer_maxpiperead, watch_frame, judge_round, after_frames, record_pipe,
}
use tani_dvr.Recording.Frames.{RecordingFits}

-- The first of the frames were written; the loop is left, or waits with the bytes of the others.
abbrev pub Stopped :
    (State → List ℕ → State × Bool) → Recorder → List (List ℕ) → List ℕ → Recorded → Type 0
Stopped output r fs later x =
    (r' : Recorder) × (before after : List (List ℕ)) × ((x ≡ finished r')
      ⊎ ((d' : Dstf) × (x ≡ waiting d' r') × (contents d' ++ later ≡ flatten after)))
    × (r'.conversion ≡ handle_all output r.conversion before)
    × (fs ≡ before ++ after)

module _ (sw : List ℕ) (fps : ℕ → Bool → Bool → ℕ) (fwrite : List ℕ → List ℕ → ℕ)
    (fflush : List ℕ → ℤ) (flags : ℕ → Signals) (output : State → List ℕ → State × Bool)
    (IsFine : State → Type 0) (P : List ℕ → Type 0) (fits : (f : List ℕ) → P f → RecordingFits f)
    (sound : (s : State) (f : List ℕ)
      → IsFine s
      → P f
      → ((output s f).1 ≡ true) × IsFine (output s f).0)
    (fine : (s : State)
      → IsFine s
      → (c : Conversion) × (s ≡ going c) × (is_negative c.dtconv_ret ≡ false)) where
  abbrev watch : Recorder → List ℕ → Recorder × Bool
  watch = watch_frame sw fps fwrite fflush flags output

  abbrev frames : ℕ → Dstf → Recorder → List ℕ → Drained Recorder
  frames k d r sbuf =
      drain (λ d src. process_dhav d src stream_buffer_len) watch (λ r'. false) k d r sbuf

  abbrev judge : ℤ → State → Recorder → (Recorder → Recorded) → Recorded
  judge = judge_round sw fps fwrite fflush flags

  abbrev record_all : ℕ → Dstf → Recorder → List Activity → Recorded
  record_all k =
      record_pipe sw fps fwrite fflush flags k (λ d src. process_dhav d src stream_buffer_len)
        output

  abbrev GoesOn : Recorder → Type 0
  GoesOn r = IsFine r.conversion × (r.outfwrite_failed ≡ false)

  watched :
      (r : Recorder) (f : List ℕ)
      → (output r.conversion f).1 ≡ true
      → (watch r f).0 ≡ record r { conversion = (output r.conversion f).0; looks = r.looks + 1 }
  unfolding watch_frame
  watched r f e = ap (λ (u : Recorder × Bool). u.0) (if_true _ _ _ e)

  handle_all-watch :
      (fs : List (List ℕ)) (r : Recorder)
      → All P fs
      → GoesOn r
      → ((handle_all watch r fs).conversion ≡ handle_all output r.conversion fs)
        × GoesOn (handle_all watch r fs)
  unfolding handle_all
  handle_all-watch [] r a o = (refl, o)
  handle_all-watch (f ∷ fs) r (p, a) (o, w) =
      let (written, o') = sound r.conversion f o p in
      let e = watched r f written in
      let (same, on) = handle_all-watch fs (watch r f).0 a (subst GoesOn (sym e) (o', w)) in
      (same ∙ ap (λ (u : Recorder). handle_all output u.conversion fs) e, on)

  judged :
      (ret : ℤ) (r : Recorder) (again : Recorder → Recorded)
      → GoesOn r
      → (judge ret r.conversion r again ≡ finished (record r { looks = r.looks + 1 }))
        ⊎ ((is_negative ret ≡ false)
            × (judge ret r.conversion r again ≡ again (record r { looks = r.looks + 1 })))
  unfolding judge_round
  judged ret r again (o, w) =
      let (c, e, ok) = fine r.conversion o in
      let seen = flags r.looks in
      let conv = ap (λ s. judge ret s r again) e in
      elim (Bool-cases (seen.terminate_nicely || seen.sigchld)) [
        | inl raised ↦ inl (conv ∙ if_true _ _ _ raised)
        | inr calm ↦
            elim (Bool-cases (is_negative ret || is_negative c.dtconv_ret || r.outfwrite_failed)) [
              | inl failed ↦ inl (conv ∙ (if_false _ _ _ calm ∙ if_true _ _ _ failed))
              | inr good ↦
                  inr (ground (arith, good), conv ∙ (if_false _ _ _ calm ∙ if_false _ _ _ good))
            ]
      ]

  -- How a round was left.
  after_round :
      (k : ℕ) (d d' : Dstf) (r r' : Recorder) (a : Activity) (activities : List Activity)
      (c : List ℕ)
      → is_negative (poll_pipe_read a) ≡ false
      → a.got ≡ some c
      → GoesOn r'
      → (frames k d r c ≡ ended d' r' (pos 0)) ⊎ (frames k d r c ≡ write_failed d' r')
      → (record_all k d r (a ∷ activities) ≡ finished (record r' { looks = r'.looks + 1 }))
        ⊎ (record_all k d r (a ∷ activities)
            ≡ record_all k d' (record r' { looks = r'.looks + 1 }) activities)
  unfolding after_frames
  after_round k d d' r r' a activities c polled got o (inl e) =
      let round =
        round_of sw fps fwrite fflush flags output k d r a activities c (ended d' r' (pos 0)) polled
          got e in
      elim (judged (pos 0) r' (λ r'. record_all k d' r' activities) o) [
        | inl left ↦ inl (round ∙ left)
        | inr on ↦ inr (round ∙ on.1)
      ]
  after_round k d d' r r' a activities c polled got o (inr e) =
      let round =
        round_of sw fps fwrite fflush flags output k d r a activities c (write_failed d' r') polled
          got e in
      elim (judged (pos 1) r' (λ r'. record_all k d' r' activities) o) [
        | inl left ↦ inl (round ∙ left)
        | inr on ↦ inr (round ∙ on.1)
      ]

  -- The read did not fit.
  after_full :
      (k : ℕ) (d : Dstf) (r : Recorder) (a : Activity) (activities : List Activity) (c : List ℕ)
      → is_negative (poll_pipe_read a) ≡ false
      → a.got ≡ some c
      → GoesOn r
      → frames k d r c ≡ ended d r (minus 1)
      → record_all k d r (a ∷ activities) ≡ finished (record r { looks = r.looks + 1 })
  unfolding after_frames is_negative
  after_full k d r a activities c polled got o e =
      let round =
        round_of sw fps fwrite fflush flags output k d r a activities c (ended d r (minus 1)) polled
          got e in
      elim (judged (minus 1) r (λ r'. record_all k d r' activities) o) [
        | inl left ↦ round ∙ left
        | inr on ↦ cc
      ]

  -- From a round on, whose frames are `before`.
  stopped_later :
      (r r1 : Recorder) (fs before after : List (List ℕ)) (later : List ℕ) (x y : Recorded)
      → r1.conversion ≡ handle_all output r.conversion before
      → fs ≡ before ++ after
      → x ≡ y
      → Stopped output r1 after later y
      → Stopped output r fs later x
  stopped_later r r1 fs before after later x y same split on
        (r', before', after', way, conv, split') =
      (
        r',
        before ++ before',
        after',
        elim way [ inl e ↦ inl (on ∙ e) | inr w ↦ inr (w.0, on ∙ w.1, w.2) ],
        conv
            ∙ ap (λ s. handle_all output s before') same
            ∙ sym (handle_all-append output r.conversion before before'),
        split ∙ ap (◌++◌ before) split' ∙ sym (append_assoc before before' after'),
      )

  pub record_pipe-Stopped :
      (activities : List Activity) (fs : List (List ℕ)) (k : ℕ) (d : Dstf) (r : Recorder)
      (later : List ℕ)
      → IsValid d
      → d.sq_maxlen ≡ 1_000_000
      → contents d ++ (flatten (reads_of activities) ++ later) ≡ flatten fs
      → All Small (reads_of activities)
      → All P fs
      → 1_000_000 < k
      → GoesOn r
      → Stopped output r fs later (record_all k d r activities)
  unfolding record_pipe flatten handle_all
  record_pipe-Stopped [] fs k d r later v m e small a enough o =
      (r, [], fs, inr (d, refl, e), refl, refl)
  record_pipe-Stopped (x ∷ activities) fs k d r later v m e small a enough o =
      elim (next x activities) [
        | poll_failed failed ↦ (
          r,
          [],
          fs,
          inl (broken_off sw fps fwrite fflush flags output k d r x activities (inl failed)),
          refl,
          refl,
        )
        | read_failed polled got ↦ (
          r,
          [],
          fs,
          inl (broken_off sw fps fwrite fflush flags output k d r x activities (inr (polled, got))),
          refl,
          refl,
        )
        | read_bytes c polled got reads ↦
            let (few, small') = subst (All Small) reads small in
            let rest = flatten (reads_of activities) ++ later in
            elim (drain-Round watch (λ r'. false) 1_000_000 stream_buffer_len
              stream_buffer_maxpiperead P fits k d r c rest fs v m (omega (arith, few))
              (ap (◌++◌ (contents d)) (sym (append_assoc c (flatten (reads_of activities)) later))
                ∙ (ap (λ cs. contents d ++ (flatten cs ++ later)) (sym reads) ∙ e))
              a enough) [
                | inl full ↦ (
                  record r { looks = r.looks + 1 },
                  [],
                  fs,
                  inl (after_full k d r x activities c polled got o full),
                  refl,
                  refl,
                )
                | inr (d1, before, after, out, v1, m1, left, split) ↦
                    let (fit, fit') = All-split P before after (subst (All P) split a) in
                    let (same, o1) = handle_all-watch before r fit o in
                    let r1 = handle_all watch r before in
                    elim (after_round k d d1 r r1 x activities c polled got o1 out) [
                      | inl stopped ↦ (
                        record r1 { looks = r1.looks + 1 },
                        before,
                        after,
                        inl stopped,
                        same,
                        split,
                      )
                      | inr on ↦
                          stopped_later r (record r1 { looks = r1.looks + 1 }) fs before after later
                            (record_all k d r (x ∷ activities))
                            (record_all k d1 (record r1 { looks = r1.looks + 1 }) activities) same
                            split on
                            (record_pipe-Stopped activities after k d1
                              (record r1 { looks = r1.looks + 1 }) later v1 m1 left small' fit'
                              enough o1)
                    ]
              ]
      ]
