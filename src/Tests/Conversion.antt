-- ===== src/Tests/Conversion.antt =====
-- A whole conversion of two frames, and what is found along its way.
mod Recording
mod Programs
use tani_dvr.Identify.{mc_form_dvr_unknown}
use tani_dvr.Prelude.Int.{pos, ℤ}
use tani_dvr.Convert.File.{MkvFile}
use tani_dvr.Stream.{end_of_input}
use tani_dvr.Convert.Whole.{process_dhav_stream-MkvFile}
use tani_dvr.Convert.{Conversion, going, process_dhav_stream}
use tani_dvr.FrameInfo.{McParms, ft_undefined}
use tani_dvr.TsProc.{McTsproc}
use tani_dvr.Prelude.Int.{ℤ, pos}
use tani_dvr.BinTools.{lm2nv_u32, id_eq_lm32}
use tani_dvr.FrameInfo.{McParms, ft_undefined, parse_ext_head, parse_loop}
use tani_dvr.TsProc.{McTsproc}
use tani_dvr.Frames.{Dstf, contents, dstf_init, append}
use tani_dvr.Frames.Queue.{contents-append}
use tani_dvr.Stream.{end_of_input}
use tani_dvr.Identify.{
  McFormat, mc_form_dhav, identify_mc_format, find_bin_seq_in_mem, find_from, matches, is_found,
}
use tani_dvr.Convert.{
  Conversion, going, identify_input, is_unknown, is_dhav, process_dhav_stream,
  stream_in_fread_granularity,
}
use tani_dvr.Convert.File.{IsVideo, MkvFile}
use tani_dvr.Convert.Whole.{process_dhav_stream-MkvFile}
use tani_dvr.Prelude.{
  Bool, List, [], ap, arith, false, if◌then◌else◌, inl, inr, length, length-replicate, ltb, refl,
  replicate, some, sub_size, true, ℕ, ◌*◌, ◌||◌, ◌∙◌, ◌∷◌, ◌≡◌,
}

-- 704 x 480 at 30 frames per second, with five bytes of media data.
abbrev i_frame : List ℕ
i_frame =
    b'D' ∷ b'H' ∷ b'A' ∷ b'V' ∷ 253 ∷ 0 ∷ 0 ∷ 0 ∷ 0 ∷ 0 ∷ 0 ∷ 0 ∷ 45 ∷ 0 ∷ 0 ∷ 0 ∷ 0 ∷ 0 ∷ 0 ∷ 0 ∷ 0
    ∷ 0 ∷ 8 ∷ 0 ∷ 128 ∷ 0 ∷ 88 ∷ 60 ∷ 129 ∷ 0 ∷ 0 ∷ 30 ∷ 1 ∷ 2 ∷ 3 ∷ 4 ∷ 5 ∷ b'd' ∷ b'h' ∷ b'a'
    ∷ b'v' ∷ 45 ∷ 0 ∷ 0 ∷ 0 ∷ []

abbrev p_frame : List ℕ
p_frame =
    b'D' ∷ b'H' ∷ b'A' ∷ b'V' ∷ 252 ∷ 0 ∷ 0 ∷ 0 ∷ 0 ∷ 0 ∷ 0 ∷ 0 ∷ 36 ∷ 0 ∷ 0 ∷ 0 ∷ 0 ∷ 0 ∷ 0 ∷ 0
    ∷ 33 ∷ 0 ∷ 0 ∷ 0 ∷ 6 ∷ 7 ∷ 8 ∷ 9 ∷ b'd' ∷ b'h' ∷ b'a' ∷ b'v' ∷ 36 ∷ 0 ∷ 0 ∷ 0 ∷ []

i_frame-IsVideo : IsVideo i_frame
unfolding lm2nv_u32 id_eq_lm32 parse_ext_head parse_loop
i_frame-IsVideo = (
  (
    record {
      long = omega arith;
      small = omega arith;
      head = refl;
      size = refl;
      tail = refl;
      size_again = refl;
    },
    omega arith,
    omega arith,
  ),
  (omega arith, omega arith),
  inr (refl, omega arith, omega arith),
)

p_frame-IsVideo : IsVideo p_frame
unfolding lm2nv_u32 id_eq_lm32
p_frame-IsVideo = (
  (
    record {
      long = omega arith;
      small = omega arith;
      head = refl;
      size = refl;
      tail = refl;
      size_again = refl;
    },
    omega arith,
    omega arith,
  ),
  (omega arith, omega arith),
  inl refl,
)

i_frame_format : identify_mc_format i_frame ≡ mc_form_dhav
unfolding identify_mc_format find_bin_seq_in_mem find_from matches is_found
i_frame_format = refl

by_format :
    (full : Bool) (fmt : McFormat) (d d' : Dstf) (all reads : List (List ℕ))
    (again : McFormat × Dstf × List (List ℕ))
    → fmt ≡ mc_form_dhav
    → let r =
        if full
        then (mc_form_dvr_unknown, d, all)
        else if is_unknown fmt
        then again
        else (fmt, d', reads) in
      (is_unknown r.0 || is_dhav r.0) ≡ true
unfolding is_unknown is_dhav
by_format true fmt d d' all reads again e = refl
by_format false fmt d d' all reads again e =
    ap
      (λ f. let r = if is_unknown f then again else (f, d', reads) in is_unknown r.0 || is_dhav r.0)
      e

-- The first read shows a head and a tail.
identified :
    (block : List ℕ) (reads : List (List ℕ))
    → length block ≡ 1_000_000
    → let fmt = (identify_input (dstf_init block) (i_frame ∷ reads)).0 in
      (is_unknown fmt || is_dhav fmt) ≡ true
unfolding identify_input is_unknown is_dhav dstf_init
identified block reads size =
    let d = dstf_init block in
    let format : identify_mc_format (contents (append d i_frame)) ≡ mc_form_dhav =
      ap identify_mc_format (
        contents-append d i_frame
          (record { whole = size; inside = omega arith; small = omega arith }) (omega arith))
      ∙ i_frame_format in
    by_format (ltb (sub_size d.sq_maxlen d.sq_len) (2 * stream_in_fread_granularity))
      (identify_mc_format (contents (append d i_frame))) d (append d i_frame) (i_frame ∷ reads)
      reads (identify_input (append d i_frame) reads) format

-- The block for the queue.
unfoldable zeros : List ℕ
zeros = replicate 1_000_000 0

length-zeros : length zeros ≡ 1_000_000
unfolding zeros
length-zeros = length-replicate {0} {A = ℕ} 1_000_000 0

abbrev mc_block : McParms
mc_block = record {
  v_first_frame = false;
  ntsc_exact_60hz = true;
  frame_type = ft_undefined;
  has_v_parms = true;
  v_width = 1;
  v_height = 2;
  v_aspect_x = 3;
  v_aspect_y = 4;
  dhav_epoch = 5;
  v_timestamp = 6;
  v_dhav_ts = 7;
  ntsc_timings = true;
  dhav_fps = 8;
  v_dhav_ts_prev = 9;
  body_p = 10;
  body_len = 11;
}

abbrev tsc_block : McTsproc
tsc_block = record {
  v_first_frame = false;
  v_dhav_timestamp = 1;
  v_timestamp = 2;
  sdc_t_dhav = 3;
  sdc_t_ref = 4;
  sdc_t_eff = 5;
  sdc_t_frames = 6;
  v_dhav_ts = 7;
  v_dhav_ts_prev = 8;
  dhav_epoch = 9;
  dhav_epoch_prev = 10;
}

-- A file that takes everything.
abbrev takes_all : List ℕ → List ℕ → ℕ
takes_all w xs = length xs

abbrev flushed : List ℕ → ℤ
flushed w = pos 0

abbrev fps_29_97 : ℕ → Bool → Bool → ℕ
fps_29_97 fps ntsc exact = 1106231034

process_dhav_stream-MkvFile_example :
    (d' : Dstf) × (c' : Conversion) × (process_dhav_stream
        (b'v' ∷ [])
        fps_29_97
        takes_all
        flushed
        1_000_001
        true
        true
        (some zeros)
        mc_block
        tsc_block
        false
        true
        (i_frame ∷ p_frame ∷ [])
      ≡ inr (end_of_input d' (going c')))
    × (contents d' ≡ [])
    × MkvFile (b'v' ∷ []) fps_29_97 (i_frame ∷ p_frame ∷ []) c'.written
process_dhav_stream-MkvFile_example =
    process_dhav_stream-MkvFile (b'v' ∷ []) fps_29_97 takes_all flushed (λ w xs. refl) (λ w. refl)
      1_000_001 zeros mc_block tsc_block false true (i_frame ∷ p_frame ∷ [])
      (i_frame ∷ p_frame ∷ []) length-zeros (omega arith) (omega arith)
      (omega arith, (omega arith, tt)) refl (i_frame-IsVideo, (p_frame-IsVideo, tt))
      (identified zeros (p_frame ∷ []) length-zeros)
