-- ===== src/FrameInfo/Video.antt =====
-- What dt_collect_dhav_frame_info finds in a frame of video, an I-frame or one behind it.
use tani_dvr.Prelude.Int.{pos}
use tani_dvr.BinTools.{byte_at}
use tani_dvr.FrameInfo.{
  McParms, ft_undefined, ft_video_frame, ft_video_i_frame, collected, collect_dhav_frame_info,
  collect_i_frame, finish_video, set_geometry, parse_ext_head, sf_data,
}
use tani_dvr.FrameInfo.Body.{VideoInfo, finish_video-VideoInfo}
use tani_dvr.Mkv.{is_video}
use tani_dvr.Prelude.{
  List, ap, arith, false, if_false, if_true, if◌then◌else◌, length, refl, true, window, ℕ, ◌*◌, ◌+◌,
  ◌-◌, ◌<◌, ◌==◌, ◌^◌, ◌∙◌, ◌≡◌, ◌≤◌,
}

-- The extended header's fields.
abbrev pub width_field : List ℕ → ℕ
width_field src = sf_data (parse_ext_head src 24 (byte_at src 22)) 128 2 * 8

abbrev pub height_field : List ℕ → ℕ
height_field src = sf_data (parse_ext_head src 24 (byte_at src 22)) 128 3 * 8

abbrev pub fps_field : List ℕ → ℕ
fps_field src = sf_data (parse_ext_head src 24 (byte_at src 22)) 129 3

abbrev pub media : List ℕ → List ℕ
media src = window src (byte_at src 22 + 24) (length src - byte_at src 22 - 32)

-- Room for the headers and the trailer.
abbrev pub HasRoom : List ℕ → Type 0
HasRoom src = (byte_at src 22 + 32 ≤ length src) × (length src < 2 ^ 32)

-- An I-frame that says its height and frame rate.
abbrev pub IsFirst : List ℕ → Type 0
IsFirst src = (byte_at src 4 ≡ 253) × (0 < height_field src) × (0 < fps_field src)

abbrev pub IsNext : List ℕ → Type 0
IsNext src = byte_at src 4 ≡ 252

-- Parameters that show the video of the frame.
pub record Shows (mc : McParms) (src : List ℕ) : Type 0 where
  pub video : is_video mc.frame_type ≡ true
  pub parms : mc.has_v_parms ≡ true
  pub rate : 0 < mc.dhav_fps
  pub time : mc.v_timestamp < 2 ^ 64
  pub starts : mc.body_p ≡ byte_at src 22 + 24
  pub size : mc.body_len ≡ length src - byte_at src 22 - 32

Shows-VideoInfo :
    (mc mc' : McParms) (src : List ℕ)
    → VideoInfo mc src mc'
    → is_video mc.frame_type ≡ true
    → mc.has_v_parms ≡ true
    → 0 < mc.dhav_fps
    → Shows mc' src
Shows-VideoInfo mc mc' src v h k l = record {
  video = ap is_video v.same_type ∙ h;
  parms = v.same_parms ∙ k;
  rate = omega (arith, v.same_rate);
  time = v.time;
  starts = v.starts;
  size = v.size;
}

some_bytes : (src : List ℕ) → HasRoom src → (length src == 0) ≡ false
some_bytes src room = ground arith

pub collect-Next :
    (mc : McParms) (src : List ℕ)
    → HasRoom src
    → IsNext src
    → mc.has_v_parms ≡ true
    → 0 < mc.dhav_fps
    → (mc' : McParms) × (collect_dhav_frame_info mc src ≡ collected mc' (pos 0)) × Shows mc' src
unfolding collect_dhav_frame_info is_video
collect-Next mc src room next parms rate =
    let mc0 : McParms = record mc { frame_type = ft_video_frame } in
    let (mc', e, v) = finish_video-VideoInfo mc0 src room.1 room.0 in
    let is_252 : (byte_at src 4 == 252) ≡ true = ground arith in
    (
      mc',
      rw (some_bytes src room, is_252)
          (λ i.
            if parms i then e i else collected (record mc { frame_type = ft_undefined }) (pos 0)),
      Shows-VideoInfo mc0 mc' src v refl parms rate,
    )

-- Before the first I-frame nothing is known.
pub collect-early :
    (mc : McParms) (src : List ℕ)
    → HasRoom src
    → IsNext src
    → mc.has_v_parms ≡ false
    → collect_dhav_frame_info mc src ≡ collected (record mc { frame_type = ft_undefined }) (pos 0)
unfolding collect_dhav_frame_info
collect-early mc src room next parms =
    let is_252 : (byte_at src 4 == 252) ≡ true = ground arith in
    rw (some_bytes src room, is_252)
      (λ i.
        if parms i
        then finish_video (record mc { frame_type = ft_video_frame }) src
        else collected (record mc { frame_type = ft_undefined }) (pos 0))

pub collect-First :
    (mc : McParms) (src : List ℕ)
    → HasRoom src
    → IsFirst src
    → (mc' : McParms) × (collect_dhav_frame_info mc src ≡ collected mc' (pos 0))
      × Shows mc' src
      × (mc'.v_width ≡ width_field src)
      × (mc'.v_height ≡ height_field src)
unfolding collect_dhav_frame_info collect_i_frame is_video set_geometry
collect-First mc src room (type_i, height, rate) =
    let mc0 : McParms =
      record (set_geometry (record mc {
        v_width = width_field src;
        v_height = height_field src;
        dhav_fps = fps_field src;
      })) { frame_type = ft_video_i_frame } in
    let (mc', e, v) = finish_video-VideoInfo mc0 src room.1 room.0 in
    let not_252 : (byte_at src 4 == 252) ≡ false = ground arith in
    let is_253 : (byte_at src 4 == 253) ≡ true = ground arith in
    let some_rate : (fps_field src == 0) ≡ false = ground arith in
    let some_height : (height_field src == 0) ≡ false = ground arith in
    (
      mc',
      if_false _ _ _ (some_bytes src room)
          ∙ (if_false _ _ _ not_252
              ∙ (if_true _ _ _ is_253
                  ∙ (if_false _ _ _ some_rate ∙ (if_false _ _ _ some_height ∙ e)))),
      Shows-VideoInfo mc0 mc' src v refl refl rate,
      v.same_width,
      v.same_height,
    )
