-- ===== src/FrameInfo/Body.antt =====
-- Where the media data of a DHAV frame lie, and that they reach the Matroska cluster unchanged.
use tani_dvr.Mkv.ReadBack.{convert_cluster-Readable, Readable}
use tani_dvr.Mkv.{convert_frame_to_mkv, is_video}
use tani_dvr.FrameInfo.{
  ft_undefined, ft_video_frame, lm2nv_u32, lm2nv_u16, pos, collected, byte_at,
  collect_dhav_frame_info, finish_video, McParms, stamp,
}
use mathlib.Core.Path.{subst}
use tani_dvr.Prelude.{
  Bool, List, [], ap, arith, false, if◌then◌else◌, length, ltb, refl, sub_size, true, window, ℕ,
  ◌%◌, ◌*◌, ◌+◌, ◌-◌, ◌<◌, ◌==◌, ◌^◌, ◌∙◌, ◌≡◌, ◌≤◌,
}

-- A stamp changes only times.
stamp_keeps :
    (ts : ℕ) (mc : McParms)
    → ((stamp ts mc).frame_type ≡ mc.frame_type)
      × ((stamp ts mc).has_v_parms ≡ mc.has_v_parms)
      × ((stamp ts mc).v_timestamp < 2 ^ 64)
      × ((stamp ts mc).dhav_fps ≡ mc.dhav_fps)
      × ((stamp ts mc).v_width ≡ mc.v_width)
      × ((stamp ts mc).v_height ≡ mc.v_height)
unfolding stamp
stamp_keeps ts mc = either mc.v_first_frame
  where
    later : McParms
    later = record mc {
      v_dhav_ts = ts;
      v_timestamp =
          (mc.v_timestamp
            + (if ltb mc.v_dhav_ts_prev ts
                then ts - mc.v_dhav_ts_prev
                else (ts + 2 ^ 16 - mc.v_dhav_ts_prev) % 2 ^ 16)
              * 1000000)
          % 2 ^ 64;
      v_dhav_ts_prev = ts;
    }

    first : McParms
    first = record mc {
      v_dhav_ts = ts;
      v_first_frame = false;
      v_dhav_ts_prev = ts;
      v_timestamp = 0;
    }

    either :
        (b : Bool)
        → ((if b then first else later).frame_type ≡ mc.frame_type)
          × ((if b then first else later).has_v_parms ≡ mc.has_v_parms)
          × ((if b then first else later).v_timestamp < 2 ^ 64)
          × ((if b then first else later).dhav_fps ≡ mc.dhav_fps)
          × ((if b then first else later).v_width ≡ mc.v_width)
          × ((if b then first else later).v_height ≡ mc.v_height)
    either true = (refl, refl, omega arith, refl, refl, refl)
    either false = (refl, refl, omega arith, refl, refl, refl)

-- What is known of a video frame behind the switch.
pub record VideoInfo (mc : McParms) (src : List ℕ) (mc' : McParms) : Type 0 where
  pub same_type : mc'.frame_type ≡ mc.frame_type
  pub same_parms : mc'.has_v_parms ≡ mc.has_v_parms
  pub time : mc'.v_timestamp < 2 ^ 64
  pub starts : mc'.body_p ≡ byte_at src 22 + 24
  pub size : mc'.body_len ≡ length src - byte_at src 22 - 32
  pub same_rate : mc'.dhav_fps ≡ mc.dhav_fps
  pub same_width : mc'.v_width ≡ mc.v_width
  pub same_height : mc'.v_height ≡ mc.v_height

pub finish_video-VideoInfo :
    (mc : McParms) (src : List ℕ)
    → length src < 2 ^ 32
    → byte_at src 22 + 32 ≤ length src
    → (mc' : McParms) × (finish_video mc src ≡ collected mc' (pos 0)) × VideoInfo mc src mc'
unfolding finish_video
finish_video-VideoInfo mc src small room =
    let stamped = stamp (lm2nv_u16 src 20) (record mc { dhav_epoch = lm2nv_u32 src 16 }) in
    let keeps = stamp_keeps (lm2nv_u16 src 20) (record mc { dhav_epoch = lm2nv_u32 src 16 }) in
    let offset = byte_at src 22 + 24 in
    let body = sub_size (sub_size (length src) offset) 8 in
    (
      record stamped { body_p = offset; body_len = body },
      refl,
      record {
        same_type = keeps.0;
        same_parms = keeps.1;
        time = keeps.2;
        same_rate = keeps.3;
        same_width = keeps.4;
        same_height = keeps.5;
        starts = refl;
        size = omega arith;
      },
    )

-- For a DHAV video frame (type 0xfc) behind the first I-frame, with room for its headers and
-- trailer, below 2^32 bytes, and a destination with 3 bytes more than the frame:
-- dt_collect_dhav_frame_info returns 0, and dt_convert_frame_to_mkv on its result returns 0 with a
-- cluster from which a reader gets consistent sizes, the frame's time and, unchanged, exactly the
-- bytes between the extended header and the trailer.
pub collect_dhav_frame_info-convert :
    (mc : McParms) (src : List ℕ) (max_dst_len : ℕ)
    → mc.has_v_parms ≡ true
    → byte_at src 4 ≡ 252
    → byte_at src 22 + 32 ≤ length src
    → length src < 2 ^ 32
    → length src + 3 ≤ max_dst_len
    → (mc' : McParms) × (out : List ℕ) × (collect_dhav_frame_info mc src ≡ collected mc' (pos 0))
      × (convert_frame_to_mkv [] mc' src max_dst_len ≡ (out, length out, pos 0))
      × Readable out mc'.v_timestamp
          (window src (byte_at src 22 + 24) (length src - byte_at src 22 - 32))
unfolding collect_dhav_frame_info is_video
collect_dhav_frame_info-convert mc src max_dst_len parms type_video room small large =
    let mc0 : McParms = record mc { frame_type = ft_video_frame } in
    let (mc', e, v) = finish_video-VideoInfo mc0 src small room in
    let some_bytes : (length src == 0) ≡ false = ground arith in
    let is_252 : (byte_at src 4 == 252) ≡ true = ground arith in
    let (out, q, r) =
      convert_cluster-Readable mc' src max_dst_len (ap is_video v.same_type) (v.same_parms ∙ parms)
        (omega arith) (omega (arith, v.starts, v.size)) (omega (arith, v.size)) v.time
        (omega (arith, v.size)) in
    (
      mc',
      out,
      rw (some_bytes, is_252)
          (λ i.
            if parms i then e i else collected (record mc { frame_type = ft_undefined }) (pos 0)),
      q,
      subst (λ o. Readable out mc'.v_timestamp (window src o (length src - byte_at src 22 - 32)))
          v.starts (subst (λ n. Readable out mc'.v_timestamp (window src mc'.body_p n)) v.size r),
    )
