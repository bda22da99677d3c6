-- ===== src/Recording.antt =====
-- src/dvrcontrol.c, stream_media_dvr_to_file in the process that writes the file, with poll_pipe_read:
-- the frames are collected from a pipe and written as they are, or as Matroska. The frame handling is
-- that of Convert.
pub mod Rounds
pub mod Frames
pub mod Input
pub mod Output
pub mod Heard
pub mod Signalled
pub mod Stopped
pub mod Whole
use tani_dvr.Prelude.{
  Bool, List, Option, [], false, if◌then◌else◌, inl, inr, length, ltb, none, not, some, sub_size,
  true, ℕ, ◌&&◌, ◌*◌, ◌+◌, ◌==◌, ◌||◌, ◌∷◌, ◌⊎◌,
}
use tani_dvr.Prelude.Int.{negsuc, ℤ, pos, minus}
use tani_dvr.Frames.{Dstf, Outcome, dstf_init, append, contents}
use tani_dvr.Frames.Dhav.{process_dhav}
use tani_dvr.Frames.Raw.{process_raw_h264}
use tani_dvr.FrameInfo.{McParms}
use tani_dvr.TsProc.{McTsproc}
use tani_dvr.Identify.{McFormat, mc_form_dvr_unknown, identify_mc_format}
use tani_dvr.Stream.{is_negative, drain, Drained, ended, write_failed}
use tani_dvr.Stream
use tani_dvr.Session.{stream_buffer_len}
use tani_dvr.Convert.{
  Conversion, State, going, handle_frame, outfile_write, init_conversion, is_dhav, is_unknown,
  is_zero,
}
use tani_dvr.Convert

abbrev pub stream_buffer_maxpiperead : ℕ
stream_buffer_maxpiperead = 250_000

-- One wait for the pipe and the read behind it: what `poll` returned, whether errno was EINTR then,
-- whether `revents` has POLLIN or POLLPRI; and what `read` gave, `none` for -1.
pub record Activity : Type 0 where
  pub retpoll : ℤ
  pub interrupted : Bool
  pub readable : Bool
  pub got : Option (List ℕ)

unfoldable pub is_minus_one : ℤ → Bool
is_minus_one (pos n) = false
is_minus_one (negsuc n) = n == 0

unfoldable pub poll_pipe_read : Activity → ℤ
poll_pipe_read a =
    if is_zero a.retpoll || (is_minus_one a.retpoll && a.interrupted)
    then pos 0
    else if is_minus_one a.retpoll
    then minus 1
    else if a.readable
    then pos 1
    else minus 2

-- The flags that the signal handlers set.
pub record Signals : Type 0 where
  pub terminate_nicely : Bool
  pub sigpipe : Bool
  pub sigchld : Bool

-- The conversion, whether `outfwrite_ret` is not 0, and how often the flags were looked at.
pub record Recorder : Type 0 where
  pub conversion : State
  pub outfwrite_failed : Bool
  pub looks : ℕ

-- How the identification over the pipe ends: by the format, by a leap to the end, or not yet.
pub data Identification : Type 0 where
  known : McFormat → Dstf → List Activity → Identification
  lost : Identification
  awaited : Dstf → Identification

-- The loop waits for the pipe, it was left, or the program ended or hangs in it.
pub data Recorded : Type 0 where
  waiting : Dstf → Recorder → Recorded
  finished : Recorder → Recorded
  division_by_zero : Recorded
  out_of_bounds : Recorded
  endless : Recorded

unfoldable pub looked_for : Dstf → List ℕ → Dstf
looked_for dstf sbuf = if length sbuf == 0 then dstf else append dstf sbuf

-- The format in what the queue holds behind a read; a read of no bytes is not looked at.
unfoldable pub format_behind : Dstf → List ℕ → McFormat
format_behind dstf sbuf =
    if length sbuf == 0 then mc_form_dvr_unknown else identify_mc_format (contents dstf)

unfoldable pub identify_read :
    Dstf → Option (List ℕ) → List Activity → (Dstf → Identification) → Identification
identify_read dstf none activities again = lost
identify_read dstf (some sbuf) activities again =
    let dstf' = looked_for dstf sbuf in
    let mc_format_in = format_behind dstf' sbuf in
    if is_unknown mc_format_in then again dstf' else known mc_format_in dstf' activities

-- The test of the loop: the queue has no room for two more reads.
unfoldable pub is_rather_full : Dstf → Bool
is_rather_full dstf = ltb (sub_size dstf.sq_maxlen dstf.sq_len) (2 * stream_buffer_maxpiperead)

unfoldable pub identify_pipe : Dstf → List Activity → Identification
identify_pipe dstf [] =
    if is_rather_full dstf then known mc_form_dvr_unknown dstf [] else awaited dstf
identify_pipe dstf (a ∷ activities) =
    if is_rather_full dstf
    then known mc_form_dvr_unknown dstf (a ∷ activities)
    else if is_negative (poll_pipe_read a)
    then lost
    else identify_read dstf a.got activities (λ dstf'. identify_pipe dstf' activities)

-- VERSION and transform_fps_to_mkvfps as in Mkv.Header, the file as in Convert, and the flags at each
-- look: the flags that one condition reads are taken at one time.
module _ (tanidvr_sw_str : List ℕ) (transform_fps_to_mkvfps : ℕ → Bool → Bool → ℕ)
    (fwrite : List ℕ → List ℕ → ℕ) (fflush : List ℕ → ℤ) (flags : ℕ → Signals) where
  -- The container is the DVR's: `outbuf` is the frame itself.
  unfoldable pub write_native : State → List ℕ → State × Bool
  write_native (going c) sbuf =
      let (written', outfwrite_ret) =
        outfile_write tanidvr_sw_str transform_fps_to_mkvfps fwrite fflush c.written sbuf in
      (going (record c { written = written' }), is_zero outfwrite_ret)
  write_native Convert.crashed sbuf = (Convert.crashed, false)

  unfoldable pub output_frame : Bool → Bool → State → List ℕ → State × Bool
  output_frame mkv dhav s sbuf =
      if mkv
      then handle_frame tanidvr_sw_str transform_fps_to_mkvfps fwrite fflush stream_buffer_len dhav
          s sbuf
      else write_native s sbuf

  -- Behind the write of a frame: `false` is the `break`.
  unfoldable pub watch_frame : (State → List ℕ → State × Bool) → Recorder → List ℕ → Recorder × Bool
  watch_frame output r sbuf =
      let (s', written) = output r.conversion sbuf in
      let seen = flags r.looks in
      if written
      then (
        record r { conversion = s'; looks = r.looks + 1 },
        not (seen.terminate_nicely || seen.sigpipe || seen.sigchld),
      )
      else (record r { conversion = s'; outfwrite_failed = true }, false)

  -- Behind the inner loop, which left the queue in `d`. The return codes are not set to 0 before the
  -- next round, since it only comes when none of the two that are kept shows a failure.
  unfoldable pub judge_round : ℤ → State → Recorder → (Recorder → Recorded) → Recorded
  judge_round dstf_ret Convert.crashed r again = division_by_zero
  judge_round dstf_ret (going c) r again =
      let seen = flags r.looks in
      let r' = record r { looks = r.looks + 1 } in
      if seen.terminate_nicely || seen.sigchld
      then finished r'
      else if is_negative dstf_ret || is_negative c.dtconv_ret || r.outfwrite_failed
      then finished r'
      else again r'

  -- A `break` comes only behind a frame, for which the queue's function has returned 1.
  unfoldable pub after_frames : Drained Recorder → (Dstf → Recorder → Recorded) → Recorded
  after_frames (ended d r dstf_ret) again = judge_round dstf_ret r.conversion r (again d)
  after_frames (write_failed d r) again = judge_round (pos 1) r.conversion r (again d)
  after_frames Stream.crashed again = out_of_bounds
  after_frames Stream.endless again = endless

  unfoldable pub read_frames :
      (Option (List ℕ))
      → Recorder
      → (List ℕ → Drained Recorder)
      → (Dstf → Recorder → Recorded)
      → Recorded
  read_frames none r frames again = finished r
  read_frames (some sbuf) r frames again = after_frames (frames sbuf) again

  -- The loop over the pipe, with `k` for the rounds of its inner loop.
  unfoldable pub record_pipe :
      ℕ
      → (Dstf → List ℕ → Outcome)
      → (State → List ℕ → State × Bool)
      → Dstf
      → Recorder
      → List Activity
      → Recorded
  record_pipe k process output d r [] = waiting d r
  record_pipe k process output d r (a ∷ activities) =
      if is_negative (poll_pipe_read a)
      then finished r
      else read_frames a.got r (λ sbuf. drain process (watch_frame output) (λ r'. false) k d r sbuf)
          (λ d' r'. record_pipe k process output d' r' activities)

  unfoldable pub record_as : ℕ → Bool → Bool → Dstf → Recorder → List Activity → Recorded
  record_as k mkv dhav d r activities =
      record_pipe k
        (λ d src.
          if dhav
          then process_dhav d src stream_buffer_len
          else process_raw_h264 d src stream_buffer_len)
        (output_frame mkv dhav) d r activities

  unfoldable pub record_identified : ℕ → Bool → Recorder → Identification → Recorded
  record_identified k mkv r (known mc_format_in d activities) =
      record_as k mkv (is_unknown mc_format_in || is_dhav mc_format_in) d r activities
  record_identified k mkv r lost = finished r
  record_identified k mkv r (awaited d) = waiting d r

  -- Whether the fork succeeds and the file opens, and what `malloc` returned: as in Convert. The
  -- program returns 0 from all of `finished`.
  unfoldable pub stream_media_dvr_to_file :
      ℕ
      → Bool
      → Bool
      → Option (List ℕ)
      → Bool
      → McParms
      → McTsproc
      → Bool
      → Bool
      → List Activity
      → ℕ ⊎ Recorded
  stream_media_dvr_to_file k forked opens none mkv mc_block tsc_block ntsc_exact_60hz do_correct
        activities =
      inl (if not forked then 6 else if not opens then 4 else 7)
  stream_media_dvr_to_file k forked opens (some block) mkv mc_block tsc_block ntsc_exact_60hz
        do_correct activities =
      if not forked
      then inl 6
      else if not opens
      then inl 4
      else inr (
          record_identified k mkv
            (record {
              conversion = going (init_conversion mc_block tsc_block ntsc_exact_60hz do_correct);
              outfwrite_failed = false;
              looks = 0;
            })
            (identify_pipe (dstf_init block) activities))
