-- ===== src/Recording/Frames.antt =====
-- The loop over the pipe, as long as no signal comes: whole frames are written, in order, and the rest
-- waits in the queue.
use tani_dvr.Prelude.{
  All, All-split, Bool, List, [], ap, append_assoc, arith, false, flatten, if_false, if_true, inl,
  inr, length, not, refl, some, sym, true, ℕ, ◌++◌, ◌+◌, ◌<◌, ◌||◌, ◌∙◌, ◌∷◌, ◌≡◌, ◌≢◌, ◌≤◌, ◌⊎◌,
}
use tani_dvr.Recording.Rounds.{round_of}
use mathlib.Core.Path.{subst}
use tani_dvr.Prelude.Int.{ℤ, pos}
use tani_dvr.Frames.{Dstf, contents}
use tani_dvr.Frames.Dhav.{process_dhav}
use tani_dvr.Stream.{is_negative, ended, drain}
use tani_dvr.Stream.Cut.{Front}
use tani_dvr.Stream.Handled.{handle_all, Fits, Holds, handle_all-append}
use tani_dvr.Stream.Reassembly.{drain-round}
use tani_dvr.Session.{stream_buffer_len}
use tani_dvr.Convert.{Conversion, State, going}
use tani_dvr.Recording.{
  Activity, Signals, Recorder, Recorded, poll_pipe_read, stream_buffer_maxpiperead, watch_frame,
  judge_round, after_frames, record_pipe,
}

abbrev pub no_signal : Signals
no_signal = record { terminate_nicely = false; sigpipe = false; sigchld = false }

-- Each wait ends with a read, of these bytes.
abbrev pub Reads : List Activity → List (List ℕ) → Type 0
Reads [] [] = Unit
Reads [] (c ∷ cs) = ⊥
Reads (a ∷ activities) [] = ⊥
Reads (a ∷ activities) (c ∷ cs) =
    (is_negative (poll_pipe_read a) ≡ false)
    × (a.got ≡ some c)
    × (length c ≤ stream_buffer_maxpiperead)
    × Reads activities cs

abbrev pub RecordingFits : List ℕ → Type 0
RecordingFits = Fits 1_000_000 stream_buffer_len stream_buffer_maxpiperead

module _ (sw : List ℕ) (fps : ℕ → Bool → Bool → ℕ) (fwrite : List ℕ → List ℕ → ℕ)
    (fflush : List ℕ → ℤ) (flags : ℕ → Signals) (quiet : (n : ℕ) → flags n ≡ no_signal)
    (output : State → List ℕ → State × Bool) (IsFine : State → Type 0) (P : List ℕ → Type 0)
    (fits : (f : List ℕ) → P f → RecordingFits f)
    (sound : (s : State) (f : List ℕ)
      → IsFine s
      → P f
      → ((output s f).1 ≡ true) × IsFine (output s f).0)
    (fine : (s : State)
      → IsFine s
      → (c : Conversion) × (s ≡ going c) × (is_negative c.dtconv_ret ≡ false)) where
  abbrev watch : Recorder → List ℕ → Recorder × Bool
  watch = watch_frame sw fps fwrite fflush flags output

  abbrev GoesOn : Recorder → Type 0
  GoesOn r = IsFine r.conversion × (r.outfwrite_failed ≡ false)

  watch-quiet :
      (r : Recorder) (f : List ℕ)
      → (output r.conversion f).1 ≡ true
      → watch r f ≡ (record r { conversion = (output r.conversion f).0; looks = r.looks + 1 }, true)
  unfolding watch_frame
  watch-quiet r f e =
      if_true _ _ _ e
      ∙ ap
          (λ (g : Signals). (
            record r { conversion = (output r.conversion f).0; looks = r.looks + 1 },
            not (g.terminate_nicely || g.sigpipe || g.sigchld),
          ))
          (quiet r.looks)

  watch-GoesOn :
      (r : Recorder) (f : List ℕ) → GoesOn r → P f → ((watch r f).1 ≡ true) × GoesOn (watch r f).0
  watch-GoesOn r f (o, w) p =
      let (written, o') = sound r.conversion f o p in
      let e = watch-quiet r f written in
      subst (λ (u : Recorder × Bool). (u.1 ≡ true) × GoesOn u.0) (sym e) (refl, (o', w))

  handle_all-watch :
      (fs : List (List ℕ)) (r : Recorder)
      → All P fs
      → GoesOn r
      → ((handle_all watch r fs).conversion ≡ handle_all output r.conversion fs)
        × GoesOn (handle_all watch r fs)
  unfolding handle_all
  handle_all-watch [] r a o = (refl, o)
  handle_all-watch (f ∷ fs) r (p, a) o =
      let (same, o') = handle_all-watch fs (watch r f).0 a (watch-GoesOn r f o p).1 in
      (
        same
            ∙ ap (λ (u : Recorder × Bool). handle_all output u.0.conversion fs)
                (watch-quiet r f (sound r.conversion f o.0 p).0),
        o',
      )

  judge_round-quiet :
      (r : Recorder) (again : Recorder → Recorded)
      → GoesOn r
      → judge_round sw fps fwrite fflush flags (pos 0) r.conversion r again
        ≡ again (record r { looks = r.looks + 1 })
  unfolding judge_round is_negative
  judge_round-quiet r again (o, w) =
      let (c, e, ok) = fine r.conversion o in
      let sound_round : (is_negative (pos 0) || is_negative c.dtconv_ret || r.outfwrite_failed)
          ≡ false =
        ground (arith, ok, w) in
      ap (λ s. judge_round sw fps fwrite fflush flags (pos 0) s r again) e
      ∙ (if_false _ _ _ (ap (λ (g : Signals). g.terminate_nicely || g.sigchld) (quiet r.looks))
          ∙ if_false _ _ _ sound_round)

  abbrev pub record_dhav : ℕ → Dstf → Recorder → List Activity → Recorded
  record_dhav k =
      record_pipe sw fps fwrite fflush flags k (λ d src. process_dhav d src stream_buffer_len)
        output

  -- Behind the reads, whatever comes then: the frames before `after` are written, and the queue holds
  -- what the pipe has given of the rest; the whole frames of that are none, behind a read in this
  -- loop.
  abbrev pub Kept :
      ℕ
      → Recorder
      → List ℕ
      → List (List ℕ)
      → List ℕ
      → List Activity
      → (List Activity → Recorded)
      → Type 0
  Kept k r p fs later activities result =
      (d' : Dstf) × (r' : Recorder) × (before after : List (List ℕ)) × ((rest : List Activity)
        → result rest ≡ record_dhav k d' r' rest)
      × (r'.conversion ≡ handle_all output r.conversion before)
      × (fs ≡ before ++ after)
      × (contents d' ++ later ≡ flatten after)
      × (Front p fs ⊎ (activities ≢ []) → Front (contents d') after)

  record_pipe-round :
      (k : ℕ) (d d' : Dstf) (r r' : Recorder) (a : Activity) (activities : List Activity)
      (c : List ℕ)
      → is_negative (poll_pipe_read a) ≡ false
      → a.got ≡ some c
      → drain (λ d src. process_dhav d src stream_buffer_len) watch (λ r'. false) k d r c
        ≡ ended d' r' (pos 0)
      → GoesOn r'
      → record_dhav k d r (a ∷ activities)
        ≡ record_dhav k d' (record r' { looks = r'.looks + 1 }) activities
  unfolding after_frames
  record_pipe-round k d d' r r' a activities c polled got e o =
      let again = λ (d' : Dstf) (r' : Recorder). record_dhav k d' r' activities in
      round_of sw fps fwrite fflush flags output k d r a activities c (ended d' r' (pos 0)) polled
        got e
      ∙ judge_round-quiet r' (again d') o

  pub record_pipe-Kept :
      (activities : List Activity) (cs fs : List (List ℕ)) (k : ℕ) (d : Dstf) (r : Recorder)
      (p later : List ℕ)
      → Reads activities cs
      → Holds 1_000_000 stream_buffer_maxpiperead d p
      → p ++ (flatten cs ++ later) ≡ flatten fs
      → All P fs
      → 1_000_000 < k
      → GoesOn r
      → Kept k r p fs later activities (λ rest. record_dhav k d r (activities ++ rest))
  unfolding record_pipe flatten handle_all
  record_pipe-Kept [] [] fs k d r p later reads h e a enough o = (
    d,
    r,
    [],
    fs,
    λ rest. refl,
    refl,
    refl,
    ap (λ x. x ++ later) h.bytes ∙ e,
    λ front. elim front [
      | inl front ↦ subst (λ x. Front x fs) (sym h.bytes) front
      | inr some_left ↦ absurd (some_left refl)
    ],
  )
  record_pipe-Kept [] (c ∷ cs) fs k d r p later reads h e a enough o = elim reads [ ]
  record_pipe-Kept (x ∷ activities) [] fs k d r p later reads h e a enough o = elim reads [ ]
  record_pipe-Kept (x ∷ activities) (c ∷ cs) fs k d r p later (polled, got, small, reads) h e a
        enough o =
      let (d1, p1, before, after, drained, held, split, left, front) =
        drain-round watch (λ r'. false) GoesOn 1_000_000 stream_buffer_len stream_buffer_maxpiperead
          P fits (λ r f o' p'. watch-GoesOn r f o' p') (λ r o'. refl) k d r p c
          (flatten cs ++ later) fs h small (omega arith)
          (ap (◌++◌ p) (sym (append_assoc c (flatten cs) later)) ∙ e) a enough o in
      let (fit, fit') = All-split P before after (subst (All P) split a) in
      let (same, o1) = handle_all-watch before r fit o in
      let r1 = handle_all watch r before in
      let (d', r', before', after', ran, conv, split', left', front') =
        record_pipe-Kept activities cs after k d1 (record r1 { looks = r1.looks + 1 }) p1 later
          reads held left fit' enough o1 in
      (
        d',
        r',
        before ++ before',
        after',
        λ rest.
            record_pipe-round k d d1 r r1 x (activities ++ rest) c polled got drained o1 ∙ ran rest,
        conv
            ∙ ap (λ s. handle_all output s before') same
            ∙ sym (handle_all-append output r.conversion before before'),
        split ∙ ap (◌++◌ before) split' ∙ sym (append_assoc before before' after'),
        left',
        λ _. front' (inl front),
      )
