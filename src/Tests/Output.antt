-- ===== src/Tests/Output.antt =====
-- The theorems on media data at concrete inputs.
use tani_dvr.Prelude.Int.{pos}
use tani_dvr.FrameInfo.{McParms, ft_video_frame, collected, collect_dhav_frame_info}
use tani_dvr.FrameInfo.Body.{collect_dhav_frame_info-convert}
use tani_dvr.Mkv.{is_video, convert_frame_to_mkv}
use tani_dvr.Mkv.ReadBack.{Readable, Flagged, convert_frame_to_mkv-Readable}
use tani_dvr.Mkv.Header.{mcodec_v_mpeg4_iso_avc, dt_convert_frame_to_mkv}
use tani_dvr.Mkv.FirstFrame.{HasHeader, dt_convert_frame_to_mkv-HasHeader}
use tani_dvr.TsProc.{processed, McTsproc, ref_period_of}
use tani_dvr.TsProc.Run.{HasPeriod, process_all}
use tani_dvr.TsProc.Elapsed.{elapsed, process_all-elapsed}
use tani_dvr.Prelude.{
  Bool, List, [], arith, false, get_or, length, none, refl, replicate, set, true, window, ℕ, ◌+◌,
  ◌∷◌, ◌≡◌, ◌≤◌,
}

-- Behind the first I-frame; the body is the five bytes at 24.
abbrev parms : McParms
parms = record {
  v_first_frame = false;
  ntsc_exact_60hz = false;
  frame_type = ft_video_frame;
  has_v_parms = true;
  v_width = 704;
  v_height = 480;
  v_aspect_x = 4;
  v_aspect_y = 3;
  dhav_epoch = 0;
  v_timestamp = 5000000;
  v_dhav_ts = 100;
  ntsc_timings = true;
  dhav_fps = 30;
  v_dhav_ts_prev = 100;
  body_p = 24;
  body_len = 5;
}

-- A video frame of 37 bytes.
abbrev video : List ℕ
video = set (set (replicate 37 0) 4 252) 20 133

collect_dhav_frame_info-convert_example :
    (mc' : McParms) × (out : List ℕ) × (collect_dhav_frame_info parms video ≡ collected mc' (pos 0))
    × (convert_frame_to_mkv [] mc' video 40 ≡ (out, length out, pos 0))
    × Readable out mc'.v_timestamp (window video 24 5)
collect_dhav_frame_info-convert_example =
    collect_dhav_frame_info-convert parms video 40 refl refl (omega arith) (omega arith)
      (omega arith)

convert_frame_to_mkv-Readable_example :
    (out : List ℕ) × (convert_frame_to_mkv (1 ∷ []) parms video 41
      ≡ (1 ∷ out, 1 + length out, pos 0))
    × Flagged parms.frame_type (get_or out 34 0)
    × Readable out 5000000 (window video 24 5)
unfolding is_video
convert_frame_to_mkv-Readable_example =
    convert_frame_to_mkv-Readable (1 ∷ []) parms video 41 refl refl (omega arith) (omega arith)
      (omega arith) (omega arith) (omega arith) (omega arith)

abbrev software : List ℕ
software =
    b'T' ∷ b'a' ∷ b'n' ∷ b'i' ∷ b'D' ∷ b'V' ∷ b'R' ∷ b' ' ∷ b'1' ∷ b'.' ∷ b'4' ∷ b'.' ∷ b'1' ∷ []

-- 29.97 frames per second, as a `float`.
abbrev mkvfps : ℕ → Bool → Bool → ℕ
mkvfps fps ntsc exact = 1106231034

dt_convert_frame_to_mkv-HasHeader_example :
    (file : List ℕ) × (out : List ℕ) × (dt_convert_frame_to_mkv software mkvfps parms video 500 true
        mcodec_v_mpeg4_iso_avc
      ≡ (file, 420 + length out, pos 0))
    × HasHeader software mkvfps parms mcodec_v_mpeg4_iso_avc out file
    × Readable out 5000000 (window video 24 5)
unfolding is_video
dt_convert_frame_to_mkv-HasHeader_example =
    dt_convert_frame_to_mkv-HasHeader software mkvfps mcodec_v_mpeg4_iso_avc parms video 500 refl
      refl (omega arith) (omega arith) (omega arith) (omega arith) (omega arith)

abbrev tsproc : McTsproc
tsproc = record {
  v_first_frame = true;
  v_dhav_timestamp = 0;
  v_timestamp = 0;
  sdc_t_dhav = 0;
  sdc_t_ref = 0;
  sdc_t_eff = 0;
  sdc_t_frames = 0;
  v_dhav_ts = 0;
  v_dhav_ts_prev = 0;
  dhav_epoch = 0;
  dhav_epoch_prev = 0;
}

parms-HasPeriod : (ts : ℕ) → HasPeriod 33366666 (record parms { v_dhav_ts = ts })
unfolding HasPeriod is_video ref_period_of
parms-HasPeriod ts = (refl, refl, omega arith, refl)

-- The second frame 33 ms behind the first, the third 500 ms behind that.
process_all-elapsed_example :
    (t' : McTsproc) × (process_all
        (record parms { v_dhav_ts = 100 }
          ∷ record parms { v_dhav_ts = 133 }
          ∷ record parms { v_dhav_ts = 633 }
          ∷ [])
        tsproc
      ≡ processed t' none)
    × (533_000_000 ≤ t'.v_timestamp + 166_833_330)
    × (t'.v_timestamp ≤ 699_833_330)
unfolding elapsed
process_all-elapsed_example =
    process_all-elapsed 33366666 (record parms { v_dhav_ts = 100 })
      (record parms { v_dhav_ts = 133 } ∷ record parms { v_dhav_ts = 633 } ∷ []) tsproc refl
      (omega arith) (omega arith) (omega arith)
      (parms-HasPeriod 100, (parms-HasPeriod 133, (parms-HasPeriod 633, tt)))
      (omega arith, omega arith, (omega arith, omega arith, tt))
