-- ===== src/Mkv/FirstFrame.antt =====
-- What a reader of the first frame's output finds: the main header with the parameters of the
-- video, and the cluster behind it.
use tani_dvr.Prelude.Int.{pos}
use tani_dvr.BinTools.{nv2mm_u16, nv2mm_u32}
use tani_dvr.BinTools.RoundTrip.{mm_value}
use tani_dvr.FrameInfo.{McParms}
use tani_dvr.Mkv.{is_video}
use tani_dvr.Mkv.Header.{
  MCodec, mcodec_v_mpeg4_iso_avc, mcodec_v_mpeg4_iso_asp, codec_string, main_header,
  video_parameters, software_strings, dt_convert_frame_to_mkv,
}
use tani_dvr.Mkv.Ebml.{
  segment, info_path, track_path, video_path, element_at, find_element, first_element,
  skip_elements,
}
use tani_dvr.Mkv.ReadBack.{Readable, convert_frame_to_mkv-Readable}
use tani_dvr.Prelude.{
  Bool, List, [], ap, arith, length, refl, some, splice, true, window, ℕ, ◌++◌, ◌+◌, ◌<◌, ◌^◌, ◌∙◌,
  ◌∷◌, ◌≡◌, ◌≤◌,
}

-- The elements of a file, found by their identifiers. The scale of the times is 1000 ns, and the
-- segment goes on with `rest` behind Void, Info and Tracks.
pub record HasHeader (sw : List ℕ) (fps : ℕ → Bool → Bool → ℕ) (mc : McParms) (vcodec : MCodec)
    (rest file : List ℕ) : Type 0 where
  pub timecode_scale : element_at (info_path ++ 2807729 ∷ []) file ≡ some (0 ∷ 3 ∷ 232 ∷ [])
  pub muxing_app : element_at (info_path ++ 19840 ∷ []) file ≡ some (window sw 0 13)
  pub writing_app : element_at (info_path ++ 22337 ∷ []) file ≡ some (window sw 0 13)
  pub track_number : element_at (track_path ++ 215 ∷ []) file ≡ some (1 ∷ [])
  pub language : element_at (track_path ++ 2274716 ∷ []) file ≡ some (b'u' ∷ b'n' ∷ b'd' ∷ [])
  pub codec_id : element_at (track_path ++ 134 ∷ []) file ≡ some (codec_string vcodec)
  pub pixel_width : element_at (video_path ++ 176 ∷ []) file ≡ some (nv2mm_u16 mc.v_width)
  pub pixel_height : element_at (video_path ++ 186 ∷ []) file ≡ some (nv2mm_u16 mc.v_height)
  pub display_width : element_at (video_path ++ 21680 ∷ []) file ≡ some (nv2mm_u16 mc.v_aspect_x)
  pub display_height : element_at (video_path ++ 21690 ∷ []) file ≡ some (nv2mm_u16 mc.v_aspect_y)
  pub frame_rate :
      element_at (video_path ++ 2327523 ∷ []) file
      ≡ some (nv2mm_u32 (fps mc.dhav_fps mc.ntsc_timings mc.ntsc_exact_60hz))
  pub clusters :
      (body : List ℕ) × (element_at (segment ∷ []) file ≡ some body) × (skip_elements 3 body ≡ rest)

pub main_header-HasHeader :
    (sw : List ℕ) (fps : ℕ → Bool → Bool → ℕ) (mc : McParms) (vcodec : MCodec) (rest : List ℕ)
    → HasHeader sw fps mc vcodec rest (main_header sw fps mc vcodec ++ rest)
unfolding main_header video_parameters software_strings element_at find_element first_element
    mm_value splice skip_elements
main_header-HasHeader sw fps mc mcodec_v_mpeg4_iso_avc rest = record {
  timecode_scale = refl;
  muxing_app = refl;
  writing_app = refl;
  track_number = refl;
  language = refl;
  codec_id = refl;
  pixel_width = refl;
  pixel_height = refl;
  display_width = refl;
  display_height = refl;
  frame_rate = refl;
  clusters = (_, refl, refl);
}
main_header-HasHeader sw fps mc mcodec_v_mpeg4_iso_asp rest = record {
  timecode_scale = refl;
  muxing_app = refl;
  writing_app = refl;
  track_number = refl;
  language = refl;
  codec_id = refl;
  pixel_width = refl;
  pixel_height = refl;
  display_width = refl;
  display_height = refl;
  frame_rate = refl;
  clusters = (_, refl, refl);
}

pub length-main_header :
    (sw : List ℕ) (fps : ℕ → Bool → Bool → ℕ) (mc : McParms) (vcodec : MCodec)
    → length (main_header sw fps mc vcodec) ≡ 420
unfolding main_header video_parameters software_strings splice
length-main_header sw fps mc mcodec_v_mpeg4_iso_avc = refl
length-main_header sw fps mc mcodec_v_mpeg4_iso_asp = refl

-- For the first frame (video, its body inside it and below 2^32 bytes) and a destination with 455
-- bytes more than the body, dt_convert_frame_to_mkv returns 0 and the number of bytes it wrote; a
-- reader of EBML that looks elements up by their identifiers finds in them the codec, the size, the
-- aspect, the frame rate, the programs' names, the language and a time scale of 1000 ns, and behind
-- these elements exactly the cluster, with its sizes, time and body.
pub dt_convert_frame_to_mkv-HasHeader :
    (sw : List ℕ) (fps : ℕ → Bool → Bool → ℕ) (vcodec : MCodec) (mc : McParms) (src : List ℕ)
    (max_dst_len : ℕ)
    → is_video mc.frame_type ≡ true
    → mc.has_v_parms ≡ true
    → 0 < length src
    → mc.body_p + mc.body_len ≤ length src
    → mc.body_len < 2 ^ 32
    → mc.v_timestamp < 2 ^ 64
    → mc.body_len + 455 ≤ max_dst_len
    → (file : List ℕ) × (out : List ℕ) × (dt_convert_frame_to_mkv sw fps mc src max_dst_len true
          vcodec
        ≡ (file, 420 + length out, pos 0))
      × HasHeader sw fps mc vcodec out file
      × Readable out mc.v_timestamp (window src mc.body_p mc.body_len)
unfolding dt_convert_frame_to_mkv
dt_convert_frame_to_mkv-HasHeader sw fps vcodec mc src max_dst_len vid parms some_src inside small
      time room =
    let main = main_header sw fps mc vcodec in
    let size = length-main_header sw fps mc vcodec in
    let (out, e, _, r) =
      convert_frame_to_mkv-Readable main mc src max_dst_len vid parms some_src inside small time
        (omega arith) (omega arith) in
    (
      main ++ out,
      out,
      e ∙ ap (λ n. (main ++ out, n + length out, pos 0)) size,
      main_header-HasHeader sw fps mc vcodec out,
      r,
    )
