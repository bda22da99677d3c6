-- ===== src/Programs/Recorded.antt =====
-- When tanidvr shows a device, when it records, and what the recording has.
use tani_dvr.Prelude.{
  All, Bool, List, Option, [], ap, false, flatten, if_cases, inl, inr, length, refl, some, true, ℕ,
  ◌++◌, ◌<◌, ◌↔◌, ◌∷◌, ◌≡◌, ◌⊎◌,
}
use tani_dvr.Prelude.Int.{ℤ, pos}
use tani_dvr.FrameInfo.{McParms}
use tani_dvr.TsProc.{McTsproc}
use tani_dvr.Devinfo.{Devinfo, di_init}
use tani_dvr.Protocol.{HlpConnection}
use tani_dvr.Session.{open_session}
use tani_dvr.Recording.{
  Signals, Activity, Recorder, finished, waiting, identify_pipe, stream_media_dvr_to_file,
}
use tani_dvr.Recording.Heard.{reads_of, Small, IsDhavIn}
use tani_dvr.Recording.Output.{IsRecordable, FileOf}
use tani_dvr.Recording.Stopped.{stream_media_dvr_to_file-Stopped}
use tani_dvr.Frames.{Dstf, contents, dstf_init}
use tani_dvr.Convert.{Conversion, going}
use tani_dvr.TsProc.Range.{InRange}
use tani_dvr.Recording
use tani_dvr.Options.{
  Opt, CommandOptions, Parsed, parsed, exits, is_between, process_command_line_arguments,
  dvrcontrol_of,
}
use tani_dvr.Options.InBounds.{AcceptedIfParsed, process_command_line_arguments-Accepted}
use tani_dvr.Programs.{recorded_with, run_mode, main_tanidvr}
use tani_dvr.Programs.Justified.{
  Justified, exactly, no_other_mode, show_device-Justified, record_channel-Justified,
}

-- The recording is that of stream_media_dvr_to_file with what the options say, Matroska exactly for
-- container 1; the file has the first of the frames `fs`, whole and in order, in that container; and
-- while the pipe is waited for, the queue holds what was read of the others.
module _ (sw : List ℕ) (fps : ℕ → Bool → Bool → ℕ) (fwrite : List ℕ → List ℕ → ℕ)
    (fflush : List ℕ → ℤ) (flags : ℕ → Signals) (k : ℕ) (block : List ℕ) (mc_block : McParms)
    (tsc_block : McTsproc) (activities : List Activity) (fs : List (List ℕ)) (later : List ℕ) where
  abbrev pub RecordsTo : CommandOptions → ℕ ⊎ Recording.Recorded → Type 0
  RecordsTo o r =
      (mkv : Bool) × (r' : Recorder) × (c : Conversion) × (before after : List (List ℕ)) × ((mkv
          ≡ true)
        ↔ (o.opt_media_container ≡ pos 1))
      × (r
          ≡ stream_media_dvr_to_file sw fps fwrite fflush flags k true true (some block) mkv
              mc_block tsc_block o.opt_ntsc_exact_60hz o.opt_tsproc activities)
      × ((r ≡ inr (finished r'))
          ⊎ ((d' : Dstf) × (r ≡ inr (waiting d' r')) × (contents d' ++ later ≡ flatten after)))
      × (r'.conversion ≡ going c)
      × (fs ≡ before ++ after)
      × FileOf mkv sw fps before c.written

recordable :
    (mkv : Bool) (fs : List (List ℕ)) → All (IsRecordable true) fs → All (IsRecordable mkv) fs
recordable true fs a = a
recordable false [] a = tt
recordable false (f ∷ fs) ((fit, room, which), a) = (fit, recordable false fs a)

module _ (sw : List ℕ) (fps : ℕ → Bool → Bool → ℕ) (fwrite : List ℕ → List ℕ → ℕ)
    (fflush : List ℕ → ℤ) (flags : ℕ → Signals) (takes : (w xs : List ℕ) → fwrite w xs ≡ length xs)
    (flushes : (w : List ℕ) → fflush w ≡ pos 0) (opened : Option HlpConnection) (devinfo : Devinfo)
    (k : ℕ) (block : List ℕ) (mc_block : McParms) (tsc_block : McTsproc)
    (activities : List Activity) (fs : List (List ℕ)) (later : List ℕ)
    (size : length block ≡ 1_000_000) (range : InRange tsc_block) (enough : 1_000_000 < k)
    (small : All Small (reads_of activities))
    (stream : flatten (reads_of activities) ++ later ≡ flatten fs)
    (fit : All (IsRecordable true) fs)
    (dhav : IsDhavIn (identify_pipe (dstf_init block) activities)) where
  abbrev Records : CommandOptions → ℕ ⊎ Recording.Recorded → Type 0
  Records = RecordsTo sw fps fwrite fflush flags k block mc_block tsc_block activities fs later

  abbrev record_with : CommandOptions → ℕ ⊎ Recording.Recorded
  record_with =
      recorded_with sw fps fwrite fflush flags opened devinfo k true true (some block) mc_block
        tsc_block activities

  recorded_with-RecordsTo : (o : CommandOptions) → Records o (record_with o)
  unfolding recorded_with is_between
  recorded_with-RecordsTo o =
      let mkv = is_between 1 1 o.opt_media_container in
      let (r', c, before, after, way, conv, split, file) =
        stream_media_dvr_to_file-Stopped sw fps fwrite fflush flags takes flushes mkv k block
          mc_block tsc_block o.opt_ntsc_exact_60hz o.opt_tsproc activities fs later size range
          enough small stream (recordable mkv fs fit) dhav in
      (
        mkv,
        r',
        c,
        before,
        after,
        (λ e. exactly 1 o.opt_media_container e, λ e. ap (is_between 1 1) e),
        refl,
        way,
        conv,
        split,
        file,
      )

  run_mode-Justified :
      (parse : Parsed)
      → AcceptedIfParsed parse
      → Justified opened devinfo Records parse (
          run_mode sw fps fwrite fflush flags opened devinfo k true true
            (some block)
            mc_block
            tsc_block
            activities
            parse)
  unfolding run_mode Justified AcceptedIfParsed
  run_mode-Justified (exits code) a = inl refl
  run_mode-Justified (parsed o) a =
      let P = Justified opened devinfo Records (parsed o) in
      let done = recorded_with-RecordsTo o in
      let session = open_session (dvrcontrol_of o) opened (di_init devinfo) in
      if_cases P (is_between 0 0 o.opt_operation_mode)
        (λ e.
          show_device-Justified opened devinfo Records o a (record_with o) done session refl
            (exactly 0 o.opt_operation_mode e))
        (λ e.
          if_cases P (is_between 1 1 o.opt_operation_mode)
            (λ f.
              record_channel-Justified opened devinfo Records o a (record_with o) done session refl
                (exactly 1 o.opt_operation_mode f))
            (λ f. absurd (no_other_mode o.opt_operation_mode a.bounds.mode e f)))

  -- Whatever the command line, the DVR and the signals are, for a process that forks, a file that
  -- opens and takes all that is written, and a pipe that gives, in reads of up to 250,000 bytes
  -- until a wait or a read fails, the front of a stream of DHAV frames of video that the buffers can
  -- take, of which the format is not identified as raw H.264: where tanidvr shows a device's
  -- information, its options were accepted with mode 0 and the session was opened. Where it records,
  -- they were accepted with mode 1, the session was opened, and the channel is one that the DVR has,
  -- if it said how many it has; the recording is that of stream_media_dvr_to_file with the options'
  -- frequency and correction, and as Matroska exactly if the container is 1; and the file has
  -- exactly the first of those frames, whole and in order, in that container. Where it does neither,
  -- it exits with the code of the options, or with 1: for want of a session, or since the DVR said
  -- that it does not have the channel to record.
  pub main_tanidvr-Justified :
      (sscanf : List ℕ → Option ℤ) (p : ℤ) (options : List Opt)
      → Justified opened devinfo Records (process_command_line_arguments sscanf p options) (
          main_tanidvr sw fps fwrite fflush flags opened devinfo k true true
            (some block)
            mc_block
            tsc_block
            activities
            sscanf
            p
            options)
  unfolding main_tanidvr
  main_tanidvr-Justified sscanf p options =
      run_mode-Justified (process_command_line_arguments sscanf p options)
        (process_command_line_arguments-Accepted sscanf p options)
