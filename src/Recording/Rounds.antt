-- ===== src/Recording/Rounds.antt =====
-- How one wait and one read decide how the loop over the pipe goes on.
use tani_dvr.Prelude.{
  Bool, List, ap, false, if_false, if_true, inl, inr, none, some, true, ℕ, ◌∙◌, ◌∷◌, ◌≡◌, ◌⊎◌,
}
use tani_dvr.Prelude.Int.{ℤ}
use tani_dvr.Frames.{Dstf}
use tani_dvr.Frames.Dhav.{process_dhav}
use tani_dvr.Stream.{is_negative, drain, Drained}
use tani_dvr.Session.{stream_buffer_len}
use tani_dvr.Convert.{State}
use tani_dvr.Recording.{
  Activity, Signals, Recorder, Recorded, finished, poll_pipe_read, watch_frame, after_frames,
  read_frames, record_pipe,
}

-- The wait or the read fails, with which the recording ends.
abbrev pub Breaks : Activity → Type 0
Breaks a =
    (is_negative (poll_pipe_read a) ≡ true)
    ⊎ ((is_negative (poll_pipe_read a) ≡ false) × (a.got ≡ none))

module _ (sw : List ℕ) (fps : ℕ → Bool → Bool → ℕ) (fwrite : List ℕ → List ℕ → ℕ)
    (fflush : List ℕ → ℤ) (flags : ℕ → Signals) (output : State → List ℕ → State × Bool) where
  abbrev frames : ℕ → Dstf → Recorder → List ℕ → Drained Recorder
  frames k d r sbuf =
      drain (λ d src. process_dhav d src stream_buffer_len)
        (watch_frame sw fps fwrite fflush flags output) (λ r'. false) k d r sbuf

  abbrev record_all : ℕ → Dstf → Recorder → List Activity → Recorded
  record_all k =
      record_pipe sw fps fwrite fflush flags k (λ d src. process_dhav d src stream_buffer_len)
        output

  pub round_of :
      (k : ℕ) (d : Dstf) (r : Recorder) (a : Activity) (activities : List Activity) (c : List ℕ)
      (x : Drained Recorder)
      → is_negative (poll_pipe_read a) ≡ false
      → a.got ≡ some c
      → frames k d r c ≡ x
      → record_all k d r (a ∷ activities)
        ≡ after_frames sw fps fwrite fflush flags x (λ d' r'. record_all k d' r' activities)
  unfolding record_pipe read_frames
  round_of k d r a activities c x polled got e =
      let again = λ (d' : Dstf) (r' : Recorder). record_all k d' r' activities in
      if_false _ _ _ polled
      ∙ (ap (λ g. read_frames sw fps fwrite fflush flags g r (frames k d r) again) got
          ∙ ap (λ x. after_frames sw fps fwrite fflush flags x again) e)

  -- At a wait or a read that fails.
  pub broken_off :
      (k : ℕ) (d : Dstf) (r : Recorder) (a : Activity) (activities : List Activity)
      → Breaks a
      → record_all k d r (a ∷ activities) ≡ finished r
  unfolding record_pipe read_frames
  broken_off k d r a activities (inl failed) = if_true _ _ _ failed
  broken_off k d r a activities (inr (polled, got)) =
      if_false _ _ _ polled
      ∙ ap
          (λ g.
            read_frames sw fps fwrite fflush flags g r (frames k d r)
              (λ d' r'. record_all k d' r' activities))
          got
