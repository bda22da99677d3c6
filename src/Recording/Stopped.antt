-- ===== src/Recording/Stopped.antt =====
-- The whole recording, whatever signals come and whatever the waits and the reads give.
use tani_dvr.Stream.Handled.{handle_all}
use tani_dvr.Prelude.{
  All, All-split, Bool, List, [], ap, append-nil, append_assoc, arith, false, flatten, inl, inr,
  length, refl, some, sym, true, ℕ, ◌++◌, ◌<◌, ◌∙◌, ◌≡◌, ◌⊎◌,
}
use mathlib.Core.Path.{subst}
use tani_dvr.Prelude.Int.{ℤ, pos}
use tani_dvr.FrameInfo.{McParms}
use tani_dvr.TsProc.{McTsproc}
use tani_dvr.TsProc.Range.{InRange}
use tani_dvr.Frames.{Dstf, contents, dstf_init}
use tani_dvr.Convert.{going, Conversion, init_conversion}
use tani_dvr.Convert.Input.{began}
use tani_dvr.Recording.{
  Signals, Recorder, Recorded, Activity, Identification, known, lost, awaited, finished, waiting,
  stream_buffer_maxpiperead, record_as, record_identified, identify_pipe, stream_media_dvr_to_file,
}
use tani_dvr.Recording.Heard.{reads_of, Small, Told, IsDhavIn, identify_pipe-Told}
use tani_dvr.Recording.Output.{
  IsRecordable, FileOf, IsGoing, going-fine, IsRecordable-fits, init-IsGoing, output,
  output-IsGoing, file_of,
}
use tani_dvr.Recording.Signalled.{record_pipe-Stopped}
use tani_dvr.Recording.Signalled

module _ (sw : List ℕ) (fps : ℕ → Bool → Bool → ℕ) (fwrite : List ℕ → List ℕ → ℕ)
    (fflush : List ℕ → ℤ) (flags : ℕ → Signals) (takes : (w xs : List ℕ) → fwrite w xs ≡ length xs)
    (flushes : (w : List ℕ) → fflush w ≡ pos 0) where
  start : Conversion → Recorder
  start c = record { conversion = going c; outfwrite_failed = false; looks = 0 }

  abbrev Ends : Bool → Recorder → List (List ℕ) → List ℕ → Recorded → Type 0
  Ends mkv = Signalled.Stopped (output sw fps fwrite fflush flags takes flushes mkv)

  identified-Stopped :
      (mkv : Bool) (k : ℕ) (mc_block : McParms) (tsc_block : McTsproc) (ntsc do_correct : Bool)
      (fs : List (List ℕ)) (all later : List ℕ) (i : Identification)
      → InRange tsc_block
      → 1_000_000 < k
      → Told all i
      → IsDhavIn i
      → all ++ later ≡ flatten fs
      → All (IsRecordable mkv) fs
      → Ends mkv (start (init_conversion mc_block tsc_block ntsc do_correct)) fs later (
          record_identified sw fps fwrite fflush flags k mkv
            (start (init_conversion mc_block tsc_block ntsc do_correct))
            i)
  unfolding record_identified record_as handle_all flatten start
  identified-Stopped mkv k mc_block tsc_block ntsc do_correct fs all later lost range enough h dhav
        e fit =
      (start (init_conversion mc_block tsc_block ntsc do_correct), [], fs, inl refl, refl, refl)
  identified-Stopped mkv k mc_block tsc_block ntsc do_correct fs all later (awaited d) range enough
        h dhav e fit =
      (
        start (init_conversion mc_block tsc_block ntsc do_correct),
        [],
        fs,
        inr (d, refl, ap (λ x. x ++ later) (sym (append-nil (contents d)) ∙ h.rest) ∙ e),
        refl,
        refl,
      )
  identified-Stopped mkv k mc_block tsc_block ntsc do_correct fs all later
        (known mc_format_in d activities) range enough h dhav e fit =
      let r0 = start (init_conversion mc_block tsc_block ntsc do_correct) in
      subst
        (λ b. Ends mkv r0 fs later (record_as sw fps fwrite fflush flags k mkv b d r0 activities))
        (sym dhav)
        (record_pipe-Stopped sw fps fwrite fflush flags
          (output sw fps fwrite fflush flags takes flushes mkv) (IsGoing mkv) (IsRecordable mkv)
          (IsRecordable-fits mkv) (output-IsGoing sw fps fwrite fflush flags takes flushes mkv)
          (going-fine mkv) activities fs k d r0 later h.held.valid h.held.size
          (sym (append_assoc (contents d) (flatten (reads_of activities)) later)
            ∙ ap (λ x. x ++ later) h.rest
            ∙ e)
          h.asked fit enough (init-IsGoing mkv mc_block tsc_block ntsc do_correct range, refl))

  -- Whatever signals come, and whatever the waits and the reads give: what is read, up to a wait or
  -- a read that fails, is the front of a stream of DHAV frames, which the buffers can take, in reads
  -- of up to 250,000 bytes, of which the format is not identified as raw H.264; the file opens and
  -- takes all that is written. Then stream_media_dvr_to_file has ended or waits for the pipe,
  -- without a division by zero or an access out of bounds, and no inner loop goes on for ever; and
  -- the file has exactly the first of those frames, whole and in order, as they are or as their
  -- Matroska file. While it waits, the queue holds what was read of all the others.
  pub stream_media_dvr_to_file-Stopped :
      (mkv : Bool) (k : ℕ) (block : List ℕ) (mc_block : McParms) (tsc_block : McTsproc)
      (ntsc do_correct : Bool) (activities : List Activity) (fs : List (List ℕ)) (later : List ℕ)
      → length block ≡ 1_000_000
      → InRange tsc_block
      → 1_000_000 < k
      → All Small (reads_of activities)
      → flatten (reads_of activities) ++ later ≡ flatten fs
      → All (IsRecordable mkv) fs
      → IsDhavIn (identify_pipe (dstf_init block) activities)
      → (r' : Recorder) × (c : Conversion) × (before after : List (List ℕ))
        × ((stream_media_dvr_to_file sw fps fwrite fflush flags k true true
                (some block)
                mkv
                mc_block
                tsc_block
                ntsc
                do_correct
                activities
              ≡ inr (finished r'))
            ⊎ ((d' : Dstf) × (stream_media_dvr_to_file sw fps fwrite fflush flags k true true
                    (some block)
                    mkv
                    mc_block
                    tsc_block
                    ntsc
                    do_correct
                    activities
                  ≡ inr (waiting d' r'))
                × (contents d' ++ later ≡ flatten after)))
        × (r'.conversion ≡ going c)
        × (fs ≡ before ++ after)
        × FileOf mkv sw fps before c.written
  unfolding stream_media_dvr_to_file start
  stream_media_dvr_to_file-Stopped mkv k block mc_block tsc_block ntsc do_correct activities fs
        later size range enough small e fit dhav =
      let cs = reads_of activities in
      let told : Told (flatten cs) (identify_pipe (dstf_init block) activities) =
        identify_pipe-Told activities (dstf_init block) (flatten cs) (unfold dstf_init in refl)
          (began stream_buffer_maxpiperead block cs (flatten cs) size (omega arith) small refl) in
      let (r', before, after, way, conv, split) =
        identified-Stopped mkv k mc_block tsc_block ntsc do_correct fs (flatten cs) later
          (identify_pipe (dstf_init block) activities) range enough told dhav e fit in
      let (fit', _) =
        All-split (IsRecordable mkv) before after (subst (All (IsRecordable mkv)) split fit) in
      let (c, all, file) =
        file_of sw fps fwrite fflush flags takes flushes mkv before mc_block tsc_block ntsc
          do_correct range fit' in
      (
        r',
        c,
        before,
        after,
        elim way [ inl x ↦ inl (ap inr x) | inr w ↦ inr (w.0, ap inr w.1, w.2) ],
        conv ∙ all,
        split,
        file,
      )
