-- ===== src/Convert/Whole.antt =====
-- The whole conversion: from the bytes of the input to the bytes of the output file.
use mathlib.Core.Path.{subst}
use tani_dvr.Prelude.Int.{ℤ, pos}
use tani_dvr.FrameInfo.{McParms}
use tani_dvr.TsProc.{McTsproc}
use tani_dvr.TsProc.Range.{InRange}
use tani_dvr.Frames.{Dstf, contents, dstf_init}
use tani_dvr.Stream.{end_of_input}
use tani_dvr.Stream.Reassembly.{run-frames}
use tani_dvr.Convert.{
  stream_out_buffer_len, going, convert_failed, Conversion, stream_in_fread_granularity,
  stream_in_buffer_len, identify_input, is_unknown, is_dhav, convert_as, convert_stream,
  process_dhav_stream, init_conversion,
}
use tani_dvr.Convert.Input.{began, identify_input-Identified, AreReads, Identified}
use tani_dvr.Convert.Step.{Waiting}
use tani_dvr.Convert.File.{handle_all-MkvFile, MkvFile, IsVideo, handle}
use tani_dvr.Convert.Fine.{IsFine, init-Waiting, sound, not_fatal}
use tani_dvr.Prelude.{
  All, Bool, List, [], ap, arith, flatten, inl, inr, length, refl, some, sym, true, ℕ, ◌++◌, ◌<◌,
  ◌||◌, ◌∙◌, ◌≡◌,
}

module _ (sw : List ℕ) (fps : ℕ → Bool → Bool → ℕ) (fwrite : List ℕ → List ℕ → ℕ)
    (fflush : List ℕ → ℤ) (takes : (w xs : List ℕ) → fwrite w xs ≡ length xs)
    (flushes : (w : List ℕ) → fflush w ≡ pos 0) where
  converted :
      (k : ℕ) (d : Dstf) (reads fs : List (List ℕ)) (c : Conversion)
      → Identified stream_in_fread_granularity d reads (flatten fs)
      → All IsVideo fs
      → 1_000_000 < k
      → Waiting c
      → (d' : Dstf) × (c' : Conversion) × (out : List ℕ) × (convert_as sw fps fwrite fflush k d
            reads c true
          ≡ end_of_input d' (going c'))
        × (contents d' ≡ [])
        × (c'.written ≡ c.written ++ out)
        × MkvFile sw fps fs out
  unfolding convert_as IsFine
  converted k d reads fs c h a enough w =
      let (d', e, empty) =
        run-frames (handle sw fps fwrite fflush takes flushes stream_out_buffer_len (omega arith))
          convert_failed IsFine 1_000_000 stream_in_buffer_len stream_in_fread_granularity IsVideo
          (λ f v. v.0)
          (sound sw fps fwrite fflush takes flushes stream_out_buffer_len (omega arith)) not_fatal
          reads fs k d (going c) (contents d) h.held h.asked (omega arith) h.rest a enough
          (inl w) in
      let (c', out, all, written, file) =
        handle_all-MkvFile sw fps fwrite fflush takes flushes stream_out_buffer_len (omega arith) fs
          c a w in
      (d', c', out, e ∙ ap (end_of_input d') all, empty, written, file)

  -- For files that open and take all that is written, an input of DHAV video frames (I-frames with a
  -- height and a frame rate, and others) with room for their headers, which the buffers can take,
  -- that is not identified as raw H.264, cut into reads of up to 10,000 bytes anyhow, with or
  -- without timestamp correction: process_dhav_stream ends at the end of the input with an empty
  -- queue, and the file written has nothing for the frames before the first I-frame, then the main
  -- header with the size that I-frame says, then for that frame and each later one, in order, one
  -- cluster from which its media data are read back.
  pub process_dhav_stream-MkvFile :
      (k : ℕ) (block : List ℕ) (mc_block : McParms) (tsc_block : McTsproc) (ntsc do_correct : Bool)
      (reads fs : List (List ℕ))
      → length block ≡ 1_000_000
      → InRange tsc_block
      → 1_000_000 < k
      → AreReads reads
      → flatten reads ≡ flatten fs
      → All IsVideo fs
      → (let fmt = (identify_input (dstf_init block) reads).0 in
          (is_unknown fmt || is_dhav fmt) ≡ true)
      → (d' : Dstf) × (c' : Conversion) × (process_dhav_stream sw fps fwrite fflush k true true
            (some block)
            mc_block
            tsc_block
            ntsc
            do_correct
            reads
          ≡ inr (end_of_input d' (going c')))
        × (contents d' ≡ [])
        × MkvFile sw fps fs c'.written
  unfolding process_dhav_stream convert_stream init_conversion
  process_dhav_stream-MkvFile k block mc_block tsc_block ntsc do_correct reads fs size range enough
        asked e a dhav =
      let r = identify_input (dstf_init block) reads in
      let i =
        identify_input-Identified (dstf_init block) reads (flatten fs) (unfold dstf_init in refl)
          (began stream_in_fread_granularity block reads (flatten fs) size (omega arith) asked e) in
      let c = init_conversion mc_block tsc_block ntsc do_correct in
      let (d', c', out, ran, empty, written, file) =
        converted k r.1 r.2 fs c i a enough
          (init-Waiting mc_block tsc_block ntsc do_correct range) in
      (
        d',
        c',
        ap (λ b. inr (convert_as sw fps fwrite fflush k r.1 r.2 c b)) dhav ∙ ap inr ran,
        empty,
        subst (MkvFile sw fps fs) (sym written) file,
      )
