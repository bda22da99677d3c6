-- ===== src/Recording/Whole.antt =====
-- The whole recording: from what the pipe gives to the bytes of the file.
use tani_dvr.Prelude.{
  All, All-split, Bool, List, [], ap, append-nil, append_assoc, arith, false, flatten, inr, length,
  refl, some, sym, true, ℕ, ◌++◌, ◌<◌, ◌||◌, ◌∙◌, ◌∷◌, ◌≡◌, ◌≢◌, ◌≤◌,
}
use tani_dvr.Recording.Rounds.{Breaks, broken_off}
use mathlib.Core.Path.{subst}
use tani_dvr.Prelude.Int.{ℤ, pos}
use tani_dvr.FrameInfo.{McParms}
use tani_dvr.TsProc.{McTsproc}
use tani_dvr.TsProc.Range.{InRange}
use tani_dvr.Identify.{McFormat}
use tani_dvr.Frames.{Dstf, contents, dstf_init}
use tani_dvr.Stream.Cut.{Front}
use tani_dvr.Stream.Handled.{Holds}
use tani_dvr.Session.{stream_buffer_len}
use tani_dvr.Convert.{going, Conversion, is_unknown, is_dhav, init_conversion}
use tani_dvr.Convert.Input.{began}
use tani_dvr.Recording.{
  process_dhav, Activity, known, Signals, Recorder, Recorded, finished, waiting,
  stream_buffer_maxpiperead, record_pipe, record_as, record_identified, identify_pipe,
  stream_media_dvr_to_file,
}
use tani_dvr.Recording.Output.{
  IsRecordable, FileOf, IsGoing, going-fine, IsRecordable-fits, init-IsGoing, output,
  output-IsGoing, file_of,
}
use tani_dvr.Recording.Frames.{no_signal, Reads, record_pipe-Kept}
use tani_dvr.Recording.Input.{Left, identify_pipe-Left, identify_pipe-continued, continued}

Reads-small :
    (activities : List Activity) (cs : List (List ℕ))
    → Reads activities cs
    → All (λ c. length c ≤ stream_buffer_maxpiperead) cs
Reads-small [] [] h = tt
Reads-small [] (c ∷ cs) h = elim h [ ]
Reads-small (a ∷ activities) [] h = elim h [ ]
Reads-small (a ∷ activities) (c ∷ cs) (polled, got, small, h) = (small, Reads-small activities cs h)

module _ (sw : List ℕ) (fps : ℕ → Bool → Bool → ℕ) (fwrite : List ℕ → List ℕ → ℕ)
    (fflush : List ℕ → ℤ) (flags : ℕ → Signals) (takes : (w xs : List ℕ) → fwrite w xs ≡ length xs)
    (flushes : (w : List ℕ) → fflush w ≡ pos 0) where
  abbrev record_dhav : Bool → ℕ → Dstf → Recorder → List Activity → Recorded
  record_dhav mkv k =
      record_pipe sw fps fwrite fflush flags k (λ d src. process_dhav d src stream_buffer_len)
        (output sw fps fwrite fflush flags takes flushes mkv)

  start : Conversion → Recorder
  start c = record { conversion = going c; outfwrite_failed = false; looks = 0 }

  recorded :
      (mkv : Bool) (k : ℕ) (d : Dstf) (mc_block : McParms) (tsc_block : McTsproc)
      (ntsc do_correct : Bool) (activities : List Activity) (cs fs : List (List ℕ)) (later : List ℕ)
      → ((n : ℕ) → flags n ≡ no_signal)
      → InRange tsc_block
      → 1_000_000 < k
      → Reads activities cs
      → Holds 1_000_000 stream_buffer_maxpiperead d (contents d)
      → contents d ++ (flatten cs ++ later) ≡ flatten fs
      → All (IsRecordable mkv) fs
      → (d' : Dstf) × (r' : Recorder) × (c : Conversion) × (before after : List (List ℕ))
        × ((rest : List Activity)
            → record_dhav mkv k d
                (start (init_conversion mc_block tsc_block ntsc do_correct))
                (activities ++ rest)
              ≡ record_dhav mkv k d' r' rest)
        × (r'.conversion ≡ going c)
        × (fs ≡ before ++ after)
        × FileOf mkv sw fps before c.written
        × (contents d' ++ later ≡ flatten after)
        × ((activities ≢ []) → Front (contents d') after)
  unfolding start
  recorded mkv k d mc_block tsc_block ntsc do_correct activities cs fs later quiet range enough
        reads h e fit =
      let c0 = init_conversion mc_block tsc_block ntsc do_correct in
      let (d', r', before, after, ran, conv, split, left, front) =
        record_pipe-Kept sw fps fwrite fflush flags quiet
          (output sw fps fwrite fflush flags takes flushes mkv) (IsGoing mkv) (IsRecordable mkv)
          (IsRecordable-fits mkv) (output-IsGoing sw fps fwrite fflush flags takes flushes mkv)
          (going-fine mkv) activities cs fs k d (start c0) (contents d) later reads h e fit enough
          (init-IsGoing mkv mc_block tsc_block ntsc do_correct range, refl) in
      let (fit', _) =
        All-split (IsRecordable mkv) before after (subst (All (IsRecordable mkv)) split fit) in
      let (c, all, file) =
        file_of sw fps fwrite fflush flags takes flushes mkv before mc_block tsc_block ntsc
          do_correct range fit' in
      (
        d',
        r',
        c,
        before,
        after,
        ran,
        conv ∙ all,
        split,
        file,
        left,
        λ some_left. front (inr some_left),
      )

  -- For a file that opens and takes all that is written, and a process that no signal reaches: the
  -- pipe gives the front of a stream of DHAV frames, which the buffers can take, cut into reads of
  -- up to 250,000 bytes anyhow, of which the format is not identified as raw H.264. Then
  -- stream_media_dvr_to_file waits for the pipe, and the file has exactly the first of those frames,
  -- in order: the frames themselves in the DVR's container, or their Matroska file, for frames of
  -- video with room for their headers. No byte of the rest is lost: the queue it waits with holds
  -- what the pipe gave of it, and not a whole frame, if there was a read behind the identification.
  -- Where then a wait or a read fails, stream_media_dvr_to_file ends, with that same file.
  pub stream_media_dvr_to_file-FileOf :
      (mkv : Bool) (k : ℕ) (block : List ℕ) (mc_block : McParms) (tsc_block : McTsproc)
      (ntsc do_correct : Bool) (activities : List Activity) (cs fs : List (List ℕ)) (later : List ℕ)
      (a : Activity) (more : List Activity) (fmt : McFormat) (d : Dstf) (behind : List Activity)
      → ((n : ℕ) → flags n ≡ no_signal)
      → length block ≡ 1_000_000
      → InRange tsc_block
      → 1_000_000 < k
      → Reads activities cs
      → flatten cs ++ later ≡ flatten fs
      → All (IsRecordable mkv) fs
      → Breaks a
      → identify_pipe (dstf_init block) activities ≡ known fmt d behind
      → (is_unknown fmt || is_dhav fmt) ≡ true
      → let recording =
          stream_media_dvr_to_file sw fps fwrite fflush flags k true true
            (some block)
            mkv
            mc_block
            tsc_block
            ntsc
            do_correct in
        (d' : Dstf) × (r' : Recorder) × (c : Conversion) × (before after : List (List ℕ))
        × (recording activities ≡ inr (waiting d' r'))
        × (recording (activities ++ (a ∷ more)) ≡ inr (finished r'))
        × (r'.conversion ≡ going c)
        × (fs ≡ before ++ after)
        × FileOf mkv sw fps before c.written
        × (contents d' ++ later ≡ flatten after)
        × ((behind ≢ []) → Front (contents d') after)
  unfolding stream_media_dvr_to_file record_identified record_as record_pipe start
  stream_media_dvr_to_file-FileOf mkv k block mc_block tsc_block ntsc do_correct activities cs fs
        later a more fmt d behind quiet size range enough reads e fit breaks found dhav =
      let c0 = init_conversion mc_block tsc_block ntsc do_correct in
      let r0 = start c0 in
      let (cs', reads', i) = subst (Left (flatten cs)) found (
        identify_pipe-Left activities cs (dstf_init block) (flatten cs) reads
          (unfold dstf_init in refl)
          (began stream_buffer_maxpiperead block cs (flatten cs) size (omega arith)
            (Reads-small activities cs reads) refl)) in
      let (d', r', c, before, after, ran, conv, split, file, left, front) =
        recorded mkv k d mc_block tsc_block ntsc do_correct behind cs' fs later quiet range enough
          reads' i.held
          (sym (append_assoc (contents d) (flatten cs') later) ∙ ap (λ x. x ++ later) i.rest ∙ e)
          fit in
      let recording =
        stream_media_dvr_to_file sw fps fwrite fflush flags k true true (some block) mkv mc_block
          tsc_block ntsc do_correct in
      let whole : (rest : List Activity)
          → recording (activities ++ rest) ≡ inr (record_dhav mkv k d' r' rest) =
        λ rest.
          ap (λ x. inr (record_identified sw fps fwrite fflush flags k mkv r0 x))
            (identify_pipe-continued activities rest (dstf_init block) ∙ ap (continued rest) found)
          ∙ (ap (λ b. inr (record_as sw fps fwrite fflush flags k mkv b d r0 (behind ++ rest))) dhav
              ∙ ap inr (ran rest)) in
      (
        d',
        r',
        c,
        before,
        after,
        ap recording (sym (append-nil activities)) ∙ whole [],
        whole (a ∷ more)
            ∙ ap inr (
                broken_off sw fps fwrite fflush flags
                  (output sw fps fwrite fflush flags takes flushes mkv) k d' r' a more breaks),
        conv,
        split,
        file,
        left,
        front,
      )
