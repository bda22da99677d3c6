-- ===== src/Convert.antt =====
-- src/dhav2mkv.c, process_dhav_stream, with outfile_write of src/filetools.c: what is done with each
-- frame, the identification of the input, and the whole conversion. The frame handling and the
-- identification of stream_media_dvr_to_file in src/dvrcontrol.c are the same.
pub mod Frame
pub mod Step
pub mod Input
pub mod File
pub mod Fine
pub mod Whole
use tani_dvr.Prelude.Int.{ℤ, pos, minus, negsuc}
use tani_dvr.Frames.{Dstf, dstf_init, append, contents, Outcome}
use tani_dvr.Frames.Dhav.{process_dhav}
use tani_dvr.Frames.Raw.{process_raw_h264}
use tani_dvr.FrameInfo.{
  McParms, Info, collected, mc_init, collect_dhav_frame_info, collect_raw_h264_frame_info,
}
use tani_dvr.TsProc.{McTsproc, TsResult, dt_tsproc_init, dt_tsproc_process}
use tani_dvr.Mkv.Header.{
  MCodec, mcodec_v_mpeg4_iso_avc, mcodec_v_mpeg4_iso_asp, dt_convert_frame_to_mkv,
}
use tani_dvr.Identify.{
  McFormat, mc_form_dhav, mc_form_mkv, mc_form_raw_h264, mc_form_dvr_native, mc_form_dvr_unknown,
  identify_mc_format,
}
use tani_dvr.Stream.{is_negative, run, Stopped}
use tani_dvr.Prelude.{
  ==_iff, All, All-append, All-get_or, All-split, Bool, Bool-cases, List, Option, [], add-one, ap,
  append-nil, append_assoc, append_inj, arith, dec_lt, drop, drop-drop, drop-length_append,
  drop-past, false, flatten, get_or, get_or-append, get_or-cons, get_or-past, get_or-set,
  get_or-splice, get_or-splice_in, get_or-splice_out, get_or-tabulate, if_cases, if_false, if_true,
  if◌then◌else◌, inl, inr, leb, leb→le, length, length-append, length-drop, length-replicate,
  length-set, length-splice, length-tabulate, length-take, list_ext, ltb, ltb→le, ltb→lt, lt→ltb,
  map, none, not, refl, replicate, set, some, splice, sub_size, suc, sym, tabulate, tabulate-add,
  tabulate-get_or, tabulate_congr, take, take-append-drop, take-length_append, take-past, true,
  window, window-front, window_cut, window_split, window_total, zero, ℕ, ◌%◌, ◌&&◌, ◌*◌, ◌++◌, ◌+◌,
  ◌-◌, ◌/◌, ◌<◌, ◌==◌, ◌^◌, ◌||◌, ◌↔◌, ◌∙◌, ◌∷◌, ◌≡◌, ◌≢◌, ◌≤◌, ◌⊎◌,
}

abbrev pub stream_in_buffer_len : ℕ
stream_in_buffer_len = 2_000_000

abbrev pub stream_in_fread_granularity : ℕ
stream_in_fread_granularity = 10_000

abbrev pub stream_out_buffer_len : ℕ
stream_out_buffer_len = 3_000_000

-- `tsc` is there unless no correction is asked for; `written` is the output file.
pub record Conversion : Type 0 where
  pub mc_parms : McParms
  pub tsc : Option McTsproc
  pub main_mkv_header_pending : Bool
  pub dtconv_ret : ℤ
  pub written : List ℕ

-- A division by 0 ends the program.
pub data State : Type 0 where
  going : Conversion → State
  crashed : State

unfoldable pub is_dhav : McFormat → Bool
is_dhav mc_form_dhav = true
is_dhav mc_form_mkv = false
is_dhav mc_form_raw_h264 = false
is_dhav mc_form_dvr_native = false
is_dhav mc_form_dvr_unknown = false

unfoldable pub is_unknown : McFormat → Bool
is_unknown mc_form_dhav = false
is_unknown mc_form_mkv = false
is_unknown mc_form_raw_h264 = false
is_unknown mc_form_dvr_native = false
is_unknown mc_form_dvr_unknown = true

unfoldable pub vcodec_of : Bool → MCodec
vcodec_of dhav = if dhav then mcodec_v_mpeg4_iso_avc else mcodec_v_mpeg4_iso_asp

unfoldable pub collect_frame_info : Bool → McParms → List ℕ → Info
collect_frame_info dhav mc sbuf =
    if dhav then collect_dhav_frame_info mc sbuf else collect_raw_h264_frame_info mc sbuf

-- The timestamp correction overrides `v_timestamp`; `none` is a division by 0.
unfoldable pub corrected : McParms → TsResult → Option (Option McTsproc × McParms)
corrected mc (TsResult.processed t' ret) =
    some (some t', record mc { v_timestamp = t'.v_timestamp })
corrected mc TsResult.division_by_zero = none

unfoldable pub correct : Bool → Option McTsproc → McParms → Option (Option McTsproc × McParms)
correct false tsc mc = some (tsc, mc)
correct true none mc = some (none, mc)
correct true (some t) mc = corrected mc (dt_tsproc_process mc t)

unfoldable pub convert_failed : State → Bool
convert_failed (going c) = is_negative c.dtconv_ret
convert_failed crashed = true

unfoldable pub is_zero : ℤ → Bool
is_zero (pos n) = n == 0
is_zero (negsuc n) = false

-- The reads that give bytes until the format is known or the queue is rather full: the format,
-- the queue and the reads that are left.
unfoldable pub identify_input : Dstf → List (List ℕ) → McFormat × Dstf × List (List ℕ)
identify_input dstf [] = (mc_form_dvr_unknown, dstf, [])
identify_input dstf (sbuf ∷ reads) =
    let dstf' = append dstf sbuf in
    let mc_format_in = identify_mc_format (contents dstf') in
    let again = identify_input dstf' reads in
    if ltb (sub_size dstf.sq_maxlen dstf.sq_len) (2 * stream_in_fread_granularity)
    then (mc_form_dvr_unknown, dstf, sbuf ∷ reads)
    else if is_unknown mc_format_in
    then again
    else (mc_format_in, dstf', reads)

-- With what `malloc` returned for the two.
unfoldable pub init_conversion : McParms → McTsproc → Bool → Bool → Conversion
init_conversion mc_block tsc_block ntsc_exact_60hz do_correct = record {
  mc_parms = mc_init mc_block ntsc_exact_60hz;
  tsc = if do_correct then some (dt_tsproc_init tsc_block) else none;
  main_mkv_header_pending = true;
  dtconv_ret = pos 0;
  written = [];
}

-- VERSION and transform_fps_to_mkvfps as in Mkv.Header; how many bytes `fwrite` takes, and what
-- `fflush` returns.
module _ (tanidvr_sw_str : List ℕ) (transform_fps_to_mkvfps : ℕ → Bool → Bool → ℕ)
    (fwrite : List ℕ → List ℕ → ℕ) (fflush : List ℕ → ℤ) where
  unfoldable pub outfile_write : List ℕ → List ℕ → List ℕ × ℤ
  outfile_write written data_p =
      let n = fwrite written data_p in
      let written' = written ++ take n data_p in
      (written', if ltb n (length data_p) then minus 1 else fflush written')

  -- `dt_convert_frame_to_mkv` has returned.
  unfoldable pub write_frame : Conversion → List ℕ × ℕ × ℤ → State × Bool
  write_frame c (sbuf_2, sbuf_len_2, dtconv_ret) =
      let (written', outfwrite_ret) = outfile_write c.written (take sbuf_len_2 sbuf_2) in
      (
        going (record c {
          main_mkv_header_pending = c.main_mkv_header_pending && not (is_zero dtconv_ret);
          dtconv_ret = dtconv_ret;
          written = written';
        }),
        is_zero outfwrite_ret,
      )

-- And the length of the buffer for the converted frame.
module _ (tanidvr_sw_str : List ℕ) (transform_fps_to_mkvfps : ℕ → Bool → Bool → ℕ)
    (fwrite : List ℕ → List ℕ → ℕ) (fflush : List ℕ → ℤ) (max_out_len : ℕ) where
  unfoldable pub convert_frame :
      Bool → Conversion → List ℕ → Option (Option McTsproc × McParms) → State × Bool
  convert_frame dhav c sbuf none = (crashed, false)
  convert_frame dhav c sbuf (some (tsc', mc)) =
      write_frame tanidvr_sw_str transform_fps_to_mkvfps fwrite fflush
        (record c { mc_parms = mc; tsc = tsc' })
        (dt_convert_frame_to_mkv tanidvr_sw_str transform_fps_to_mkvfps mc sbuf max_out_len
          c.main_mkv_header_pending (vcodec_of dhav))

  unfoldable pub handle_collected : Bool → Conversion → List ℕ → Info → State × Bool
  handle_collected dhav c sbuf (Info.collected mc ret) =
      convert_frame dhav c sbuf (correct dhav c.tsc mc)
  handle_collected dhav c sbuf Info.division_by_zero = (crashed, false)

  -- What the inner loop does with a frame.
  unfoldable pub handle_frame : Bool → State → List ℕ → State × Bool
  handle_frame dhav (going c) sbuf =
      handle_collected dhav c sbuf (collect_frame_info dhav c.mc_parms sbuf)
  handle_frame dhav crashed sbuf = (crashed, false)

module _ (tanidvr_sw_str : List ℕ) (transform_fps_to_mkvfps : ℕ → Bool → Bool → ℕ)
    (fwrite : List ℕ → List ℕ → ℕ) (fflush : List ℕ → ℤ) where
  -- The read-and-convert loop, with `k` for the rounds of its inner loop.
  unfoldable pub convert_as : ℕ → Dstf → List (List ℕ) → Conversion → Bool → Stopped State
  convert_as k dstf reads c dhav =
      run
        (λ d src.
          if dhav
          then process_dhav d src stream_in_buffer_len
          else process_raw_h264 d src stream_in_buffer_len)
        (handle_frame tanidvr_sw_str transform_fps_to_mkvfps fwrite fflush stream_out_buffer_len
          dhav)
        convert_failed k dstf (going c) reads

  -- Of an unknown format it is hoped that it is DHAV.
  unfoldable pub convert_stream : ℕ → McFormat × Dstf × List (List ℕ) → Conversion → Stopped State
  convert_stream k (mc_format_in, dstf, reads) c =
      convert_as k dstf reads c (is_unknown mc_format_in || is_dhav mc_format_in)

  -- Whether the two files could be opened, and the blocks that `malloc` returned; the queue's block
  -- is `none` for NULL. The other two are not checked by the source.
  unfoldable pub process_dhav_stream :
      ℕ
      → Bool
      → Bool
      → Option (List ℕ)
      → McParms
      → McTsproc
      → Bool
      → Bool
      → List (List ℕ)
      → ℕ ⊎ Stopped State
  process_dhav_stream k in_opens out_opens none mc_block tsc_block ntsc_exact_60hz do_correct
        reads =
      inl (if in_opens && out_opens then 7 else 4)
  process_dhav_stream k in_opens out_opens (some block) mc_block tsc_block ntsc_exact_60hz
        do_correct reads =
      if in_opens && out_opens
      then inr (
          convert_stream k (identify_input (dstf_init block) reads)
            (init_conversion mc_block tsc_block ntsc_exact_60hz do_correct))
      else inl 4
