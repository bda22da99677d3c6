-- ===== src/FrameInfo.antt =====
-- src/mctools.h and src/mctools.c: what a whole frame says of its video, `t_mc_parms`,
-- dt_collect_dhav_frame_info and dt_collect_raw_h264_frame_info. A read behind the frame gives 0.
pub mod Clock
pub mod Body
pub mod Video
use tani_dvr.Prelude.Int.{ℤ, pos, minus}
use tani_dvr.BinTools.{byte_at, lm2nv_u16, lm2nv_u32}
use tani_dvr.Prelude.{
  ==_iff, All, All-append, All-get_or, All-split, Bool, Bool-cases, List, Option, [], add-one, ap,
  append-nil, append_assoc, append_inj, arith, dec_lt, drop, drop-drop, drop-length_append,
  drop-past, false, flatten, get_or, get_or-append, get_or-cons, get_or-past, get_or-set,
  get_or-splice, get_or-splice_in, get_or-splice_out, get_or-tabulate, if◌then◌else◌, inl, inr, leb,
  leb→le, length, length-append, length-drop, length-replicate, length-set, length-splice,
  length-tabulate, length-take, list_ext, ltb, ltb→le, ltb→lt, lt→ltb, map, none, not, refl,
  replicate, set, some, splice, sub_size, suc, sym, tabulate, tabulate-add, tabulate-get_or,
  tabulate_congr, take, take-append-drop, take-length_append, take-past, true, window, window-front,
  window_cut, window_split, window_total, zero, ℕ, ◌%◌, ◌&&◌, ◌*◌, ◌++◌, ◌+◌, ◌-◌, ◌/◌, ◌<◌, ◌==◌,
  ◌^◌, ◌||◌, ◌↔◌, ◌∙◌, ◌∷◌, ◌≡◌, ◌≢◌, ◌≤◌, ◌⊎◌,
}

pub data FrameType : Type 0 where
  ft_undefined ft_video_frame ft_video_i_frame ft_audio_frame : FrameType

-- `body_p` is the place in the frame.
pub record McParms : Type 0 where
  pub v_first_frame : Bool
  pub ntsc_exact_60hz : Bool
  pub frame_type : FrameType
  pub has_v_parms : Bool
  pub v_width : ℕ
  pub v_height : ℕ
  pub v_aspect_x : ℕ
  pub v_aspect_y : ℕ
  pub dhav_epoch : ℕ
  pub v_timestamp : ℕ
  pub v_dhav_ts : ℕ
  pub ntsc_timings : Bool
  pub dhav_fps : ℕ
  pub v_dhav_ts_prev : ℕ
  pub body_p : ℕ
  pub body_len : ℕ

-- The call returned, or divided by a height of 0.
pub data Info : Type 0 where
  collected : McParms → ℤ → Info
  division_by_zero : Info

-- `mc_init` on what `malloc` returned; the container format is not used here.
unfoldable pub mc_init : McParms → Bool → McParms
mc_init block ntsc_exact_60hz = record block {
  frame_type = ft_undefined;
  has_v_parms = false;
  v_width = 0;
  v_height = 0;
  v_timestamp = 0;
  dhav_epoch = 0;
  ntsc_exact_60hz = ntsc_exact_60hz;
  v_dhav_ts_prev = 0;
  v_first_frame = true;
}

-- The loop of dhav_sf_parse_ext_head with `hl` bytes to go.
unfoldable pub parse_loop : ℕ → List ℕ → ℕ → ℕ → ℕ → ℕ → List ℕ → List ℕ
parse_loop zero src p id id_len id_pos fields = fields
parse_loop (suc hl) src p id id_len id_pos fields =
    let starts = id_len == 0 in
    let id' = if starts then byte_at src p else id in
    let len' = if starts then (if id' == 136 then 8 else 4) else id_len in
    let pos' = if starts then 0 else id_pos in
    parse_loop hl src (p + 1) id' (len' - 1) (pos' + 1)
      (set fields (id' * 8 + pos') (byte_at src p))

-- The extended header stands at `p`.
unfoldable pub parse_ext_head : List ℕ → ℕ → ℕ → List ℕ
parse_ext_head src p ext_head_len = parse_loop ext_head_len src p 0 0 0 (replicate 2048 0)

-- DHAV_SF_DATA.
abbrev pub sf_data : List ℕ → ℕ → ℕ → ℕ
sf_data fields f d = byte_at fields (f * 8 + d)

unfoldable pub is_ntsc_height : ℕ → Bool
is_ntsc_height h = h == 60 || (h == 120) || (h == 160) || (h == 240) || (h == 480)

unfoldable pub is_pal_height : ℕ → Bool
is_pal_height h = h == 72 || (h == 144) || (h == 192) || (h == 288) || (h == 576)

unfoldable pub guess_ntsc : ℕ → ℕ → Bool
guess_ntsc height fps =
    if is_ntsc_height height
    then true
    else if is_pal_height height
    then false
    else fps == 60 || (fps == 30) || (fps == 15)

-- The aspect ratio, the timings, and that there are such data now.
unfoldable pub set_geometry : McParms → McParms
set_geometry mc =
    let wide = mc.v_width * 1000 / mc.v_height == 1777 in
    record mc {
      v_aspect_x = if wide then 16 else 4;
      v_aspect_y = if wide then 9 else 3;
      ntsc_timings = guess_ntsc mc.v_height mc.dhav_fps;
      has_v_parms = true;
    }

-- The direct-from-DHAV timestamp. `v_dhav_period` is a `uint16_t`.
unfoldable pub stamp : ℕ → McParms → McParms
stamp ts mc =
    let prev = mc.v_dhav_ts_prev in
    let v_dhav_period = if ltb prev ts then ts - prev else (ts + 2 ^ 16 - prev) % 2 ^ 16 in
    if mc.v_first_frame
    then record mc { v_dhav_ts = ts; v_first_frame = false; v_dhav_ts_prev = ts; v_timestamp = 0 }
    else record mc {
      v_dhav_ts = ts;
      v_timestamp = (mc.v_timestamp + v_dhav_period * 1000000) % 2 ^ 64;
      v_dhav_ts_prev = ts;
    }

-- Behind the switch, for video frames.
unfoldable pub finish_video : McParms → List ℕ → Info
finish_video mc src =
    let body_offset = byte_at src 22 + 24 in
    let mc' = stamp (lm2nv_u16 src 20) (record mc { dhav_epoch = lm2nv_u32 src 16 }) in
    let body = sub_size (sub_size (length src) body_offset) 8 in
    collected (record mc' { body_p = body_offset; body_len = body }) (pos 0)

unfoldable pub collect_i_frame : McParms → List ℕ → Info
collect_i_frame mc src =
    let fields = parse_ext_head src 24 (byte_at src 22) in
    let mc' = record mc {
      v_width = sf_data fields 128 2 * 8;
      v_height = sf_data fields 128 3 * 8;
      dhav_fps = sf_data fields 129 3;
    } in
    if mc'.dhav_fps == 0
    then collected mc' (minus 1)
    else if mc'.v_height == 0
    then division_by_zero
    else finish_video (record (set_geometry mc') { frame_type = ft_video_i_frame }) src

-- `dt_collect_dhav_frame_info` on the frame `src`.
unfoldable pub collect_dhav_frame_info : McParms → List ℕ → Info
collect_dhav_frame_info mc src =
    let mc0 = record mc { frame_type = ft_undefined } in
    let dhav_type = byte_at src 4 in
    if length src == 0
    then collected mc0 (pos 0)
    else if dhav_type == 252
    then if mc0.has_v_parms
      then finish_video (record mc0 { frame_type = ft_video_frame }) src
      else collected mc0 (pos 0)
    else if dhav_type == 253
    then collect_i_frame mc0 src
    else if dhav_type == 240
    then collected (record mc0 { frame_type = ft_audio_frame }) (pos 0)
    else collected mc0 (pos 0)

-- The end of dt_collect_raw_h264_frame_info; its test is an assignment, so it always holds.
unfoldable pub finish_raw : McParms → Info
finish_raw mc =
    if mc.v_first_frame
    then collected (record mc { v_timestamp = 0; v_first_frame = false }) (pos 0)
    else collected (record mc { v_timestamp = (mc.v_timestamp + 60000000) % 2 ^ 64 }) (pos 0)

unfoldable pub collect_config : McParms → List ℕ → Info
collect_config mc src =
    let mc' = record mc {
      v_width = byte_at src 6 * 8;
      v_height = byte_at src 7 * 8;
      dhav_fps = 20;
    } in
    if mc'.v_height == 0 then division_by_zero else finish_raw (set_geometry mc')

-- `dt_collect_raw_h264_frame_info` on the frame `src`.
unfoldable pub collect_raw_h264_frame_info : McParms → List ℕ → Info
collect_raw_h264_frame_info mc src =
    let mc0 = record mc { frame_type = ft_undefined } in
    let mc1 = record mc0 { body_p = 0; body_len = length src } in
    let nal_type = byte_at src 3 in
    if length src == 0
    then collected mc0 (pos 0)
    else if nal_type == 182
    then finish_raw (record mc1 {
      frame_type = if byte_at src 4 / 2 ^ 6 % 4 == 0 then ft_video_i_frame else ft_video_frame;
    })
    else if nal_type == 240
    then collected (record mc1 { frame_type = ft_audio_frame }) (pos 0)
    else if nal_type == 251
    then collect_config mc1 src
    else collected mc1 (pos 0)
