-- ===== src/Tests/Conversion/Recording.antt =====
-- The theorem on the recording from the pipe, at a short input.
use tani_dvr.Recording.Heard.{IsDhavIn}
use tani_dvr.Recording.Stopped.{stream_media_dvr_to_file-Stopped}
use tani_dvr.Prelude.{
  All, List, [], ap, arith, drop, false, flatten, if◌then◌else◌, inl, inr, refl, some, sym, take,
  true, ℕ, ◌++◌, ◌∙◌, ◌∷◌, ◌≡◌, ◌≢◌, ◌⊎◌,
}
use mathlib.Core.Path.{subst}
use tani_dvr.Prelude.Int.{pos}
use tani_dvr.Frames.{Dstf, append, contents, dstf_init}
use tani_dvr.Frames.Queue.{contents-append}
use tani_dvr.Stream.{is_negative}
use tani_dvr.Stream.Cut.{Front}
use tani_dvr.Identify.{mc_form_dhav, identify_mc_format}
use tani_dvr.Convert.{Conversion, going, is_unknown, is_dhav, is_zero}
use tani_dvr.Recording.{
  waiting, Activity, known, Recorder, finished, Signals, poll_pipe_read, is_minus_one,
  identify_pipe, identify_read, looked_for, format_behind, is_rather_full, stream_media_dvr_to_file,
}
use tani_dvr.Recording.Frames.{no_signal, Reads}
use tani_dvr.Recording.Output.{FileOf, IsRecordable}
use tani_dvr.Recording.Rounds.{Breaks}
use tani_dvr.Recording.Whole.{stream_media_dvr_to_file-FileOf}
use tani_dvr.Tests.Conversion.{
  i_frame, p_frame, i_frame-IsVideo, p_frame-IsVideo, i_frame_format, zeros, length-zeros, mc_block,
  tsc_block, takes_all, flushed, fps_29_97,
}

abbrev reading : List ℕ → Activity
reading c = record { retpoll = pos 1; interrupted = false; readable = true; got = some c }

-- The other end of the pipe is closed.
abbrev pub hung_up : Activity
hung_up = record { retpoll = pos 1; interrupted = false; readable = false; got = some [] }

-- The second read goes on into a third frame.
abbrev second_read : List ℕ
second_read = p_frame ++ take 10 p_frame

abbrev pub both : List Activity
both = reading i_frame ∷ reading second_read ∷ []

abbrev pub quietly : ℕ → Signals
quietly n = no_signal

both-Reads : Reads both (i_frame ∷ second_read ∷ [])
unfolding poll_pipe_read is_negative is_zero is_minus_one
both-Reads = (refl, refl, omega arith, (refl, refl, omega arith, tt))

hung_up-Breaks : Breaks hung_up
unfolding poll_pipe_read is_negative is_zero is_minus_one
hung_up-Breaks = inl refl

pub recordable : All (IsRecordable true) (i_frame ∷ p_frame ∷ p_frame ∷ [])
recordable =
    let (i_fit, i_room, i_which) = i_frame-IsVideo in
    let (p_fit, p_room, p_which) = p_frame-IsVideo in
    let p : IsRecordable true p_frame = ((p_fit.0, omega arith, omega arith), p_room, p_which) in
    (((i_fit.0, omega arith, omega arith), i_room, i_which), (p, (p, tt)))

pub found :
    identify_pipe (dstf_init zeros) both
    ≡ known mc_form_dhav (append (dstf_init zeros) i_frame) (reading second_read ∷ [])
unfolding identify_pipe identify_read looked_for format_behind is_rather_full poll_pipe_read is_zero
    is_minus_one is_negative is_unknown dstf_init
found =
    let d = dstf_init zeros in
    let format : identify_mc_format (contents (append d i_frame)) ≡ mc_form_dhav =
      ap identify_mc_format (
        contents-append d i_frame
          (record { whole = length-zeros; inside = omega arith; small = omega arith })
          (omega arith))
      ∙ i_frame_format in
    ap
      (λ f.
        if is_unknown f
        then identify_pipe (append d i_frame) (reading second_read ∷ [])
        else known f (append d i_frame) (reading second_read ∷ []))
      format

stream_media_dvr_to_file-FileOf_example :
    (d' : Dstf) × (r' : Recorder) × (c : Conversion) × (before after : List (List ℕ))
    × (stream_media_dvr_to_file
          (b'v' ∷ [])
          fps_29_97
          takes_all
          flushed
          quietly
          1_000_001
          true
          true
          (some zeros)
          true
          mc_block
          tsc_block
          false
          true
          both
        ≡ inr (waiting d' r'))
    × (stream_media_dvr_to_file
          (b'v' ∷ [])
          fps_29_97
          takes_all
          flushed
          quietly
          1_000_001
          true
          true
          (some zeros)
          true
          mc_block
          tsc_block
          false
          true
          (both ++ (hung_up ∷ []))
        ≡ inr (finished r'))
    × (r'.conversion ≡ going c)
    × ((i_frame ∷ p_frame ∷ p_frame ∷ []) ≡ before ++ after)
    × FileOf true (b'v' ∷ []) fps_29_97 before c.written
    × (contents d' ++ drop 10 p_frame ≡ flatten after)
    × (((reading second_read ∷ []) ≢ []) → Front (contents d') after)
unfolding flatten is_unknown is_dhav
stream_media_dvr_to_file-FileOf_example =
    stream_media_dvr_to_file-FileOf (b'v' ∷ []) fps_29_97 takes_all flushed quietly (λ w xs. refl)
      (λ w. refl) true 1_000_001 zeros mc_block tsc_block false true both
      (i_frame ∷ second_read ∷ []) (i_frame ∷ p_frame ∷ p_frame ∷ []) (drop 10 p_frame) hung_up []
      mc_form_dhav (append (dstf_init zeros) i_frame) (reading second_read ∷ []) (λ n. refl)
      length-zeros (omega arith) (omega arith) both-Reads refl recordable hung_up-Breaks found refl

-- The other end of the pipe goes away while the first frame is written.
abbrev pub piped : ℕ → Signals
piped n = record { terminate_nicely = false; sigpipe = true; sigchld = false }

stream_media_dvr_to_file-Stopped_example :
    (r' : Recorder) × (c : Conversion) × (before after : List (List ℕ)) × ((stream_media_dvr_to_file
          (b'v' ∷ [])
          fps_29_97
          takes_all
          flushed
          piped
          1_000_001
          true
          true
          (some zeros)
          true
          mc_block
          tsc_block
          false
          true
          both
        ≡ inr (finished r'))
      ⊎ ((d' : Dstf) × (stream_media_dvr_to_file
              (b'v' ∷ [])
              fps_29_97
              takes_all
              flushed
              piped
              1_000_001
              true
              true
              (some zeros)
              true
              mc_block
              tsc_block
              false
              true
              both
            ≡ inr (waiting d' r'))
          × (contents d' ++ drop 10 p_frame ≡ flatten after)))
    × (r'.conversion ≡ going c)
    × ((i_frame ∷ p_frame ∷ p_frame ∷ []) ≡ before ++ after)
    × FileOf true (b'v' ∷ []) fps_29_97 before c.written
unfolding flatten poll_pipe_read is_negative is_zero is_minus_one is_unknown is_dhav
stream_media_dvr_to_file-Stopped_example =
    stream_media_dvr_to_file-Stopped (b'v' ∷ []) fps_29_97 takes_all flushed piped (λ w xs. refl)
      (λ w. refl) true 1_000_001 zeros mc_block tsc_block false true both
      (i_frame ∷ p_frame ∷ p_frame ∷ []) (drop 10 p_frame) length-zeros (omega arith) (omega arith)
      (omega arith, (omega arith, tt)) refl recordable (subst IsDhavIn (sym found) refl)
