-- ===== src/Mkv/Header.antt =====
-- src/mctools.c: the main header that dt_convert_frame_to_mkv puts in front of the first frame.
-- VERSION, which the build sets, and transform_fps_to_mkvfps, which works with `double`, are
-- parameters.
use tani_dvr.Prelude.Int.{ℤ}
use tani_dvr.BinTools.{nv2mm_u16, nv2mm_u32}
use tani_dvr.FrameInfo.{McParms}
use tani_dvr.Mkv.{convert_frame_to_mkv}
use tani_dvr.Prelude.{Bool, List, [], if◌then◌else◌, splice, window, ℕ, ◌++◌, ◌∷◌}

pub data MCodec : Type 0 where
  mcodec_v_mpeg4_iso_avc mcodec_v_mpeg4_iso_asp : MCodec

abbrev pub ebml : List ℕ
ebml =
    26 ∷ 69 ∷ 223 ∷ 163 ∷ 1 ∷ 0 ∷ 0 ∷ 0 ∷ 0 ∷ 0 ∷ 0 ∷ 35 ∷ 66 ∷ 134 ∷ 129 ∷ 1 ∷ 66 ∷ 247 ∷ 129 ∷ 1
    ∷ 66 ∷ 242 ∷ 129 ∷ 4 ∷ 66 ∷ 243 ∷ 129 ∷ 8 ∷ 66 ∷ 130 ∷ 136 ∷ 109 ∷ 97 ∷ 116 ∷ 114 ∷ 111 ∷ 115
    ∷ 107 ∷ 97 ∷ 66 ∷ 135 ∷ 129 ∷ 2 ∷ 66 ∷ 133 ∷ 129 ∷ 2 ∷ []

abbrev pub segment_and_void : List ℕ
segment_and_void =
    24 ∷ 83 ∷ 128 ∷ 103 ∷ 1 ∷ 255 ∷ 255 ∷ 255 ∷ 255 ∷ 255 ∷ 255 ∷ 255 ∷ 236 ∷ 1 ∷ 0 ∷ 0 ∷ 0 ∷ 0 ∷ 0
    ∷ 0 ∷ 147 ∷ 0 ∷ 0 ∷ 0 ∷ 0 ∷ 0 ∷ 0 ∷ 0 ∷ 0 ∷ 0 ∷ 0 ∷ 0 ∷ 0 ∷ 0 ∷ 0 ∷ 0 ∷ 0 ∷ 0 ∷ 0 ∷ 0 ∷ 0 ∷ 0
    ∷ 0 ∷ 0 ∷ 0 ∷ 0 ∷ 0 ∷ 0 ∷ 0 ∷ 0 ∷ 0 ∷ 0 ∷ 0 ∷ 0 ∷ 0 ∷ 0 ∷ 0 ∷ 0 ∷ 0 ∷ 0 ∷ 0 ∷ 0 ∷ 0 ∷ 0 ∷ 0 ∷ 0
    ∷ 0 ∷ 0 ∷ 0 ∷ 0 ∷ 0 ∷ 0 ∷ 0 ∷ 0 ∷ 0 ∷ 0 ∷ 0 ∷ 0 ∷ 0 ∷ 0 ∷ 0 ∷ 0 ∷ 0 ∷ 0 ∷ 0 ∷ 0 ∷ 0 ∷ 0 ∷ 0 ∷ 0
    ∷ 0 ∷ 0 ∷ 0 ∷ 0 ∷ 0 ∷ 0 ∷ 0 ∷ 0 ∷ 0 ∷ 0 ∷ 0 ∷ 0 ∷ 0 ∷ 0 ∷ 0 ∷ 0 ∷ 0 ∷ 0 ∷ 0 ∷ 0 ∷ 0 ∷ 0 ∷ 0 ∷ 0
    ∷ 0 ∷ 0 ∷ 0 ∷ 0 ∷ 0 ∷ 0 ∷ 0 ∷ 0 ∷ 0 ∷ 0 ∷ 0 ∷ 0 ∷ 0 ∷ 0 ∷ 0 ∷ 0 ∷ 0 ∷ 0 ∷ 0 ∷ 0 ∷ 0 ∷ 0 ∷ 0 ∷ 0
    ∷ 0 ∷ 0 ∷ 0 ∷ 0 ∷ 0 ∷ 0 ∷ 0 ∷ 0 ∷ 0 ∷ 0 ∷ 0 ∷ 0 ∷ 0 ∷ 0 ∷ 0 ∷ 0 ∷ 0 ∷ 0 ∷ 0 ∷ 0 ∷ 0 ∷ 0 ∷ 0 ∷ 0
    ∷ 0 ∷ 0 ∷ 0 ∷ 0 ∷ 0 ∷ 0 ∷ []

abbrev pub info : List ℕ
info =
    21 ∷ 73 ∷ 169 ∷ 102 ∷ 1 ∷ 0 ∷ 0 ∷ 0 ∷ 0 ∷ 0 ∷ 0 ∷ 69 ∷ 42 ∷ 215 ∷ 177 ∷ 131 ∷ 15 ∷ 66 ∷ 64 ∷ 77
    ∷ 128 ∷ 141 ∷ 84 ∷ 97 ∷ 110 ∷ 105 ∷ 68 ∷ 86 ∷ 82 ∷ 32 ∷ 48 ∷ 46 ∷ 48 ∷ 46 ∷ 48 ∷ 87 ∷ 65 ∷ 141
    ∷ 84 ∷ 97 ∷ 110 ∷ 105 ∷ 68 ∷ 86 ∷ 82 ∷ 32 ∷ 48 ∷ 46 ∷ 48 ∷ 46 ∷ 48 ∷ 115 ∷ 164 ∷ 144 ∷ 34 ∷ 216
    ∷ 123 ∷ 241 ∷ 228 ∷ 199 ∷ 255 ∷ 130 ∷ 190 ∷ 80 ∷ 134 ∷ 15 ∷ 18 ∷ 158 ∷ 118 ∷ 194 ∷ 68 ∷ 137
    ∷ 136 ∷ 65 ∷ 16 ∷ 58 ∷ 96 ∷ 0 ∷ 0 ∷ 0 ∷ 0 ∷ []

abbrev pub tracks : List ℕ
tracks =
    22 ∷ 84 ∷ 174 ∷ 107 ∷ 1 ∷ 0 ∷ 0 ∷ 0 ∷ 0 ∷ 0 ∷ 0 ∷ 112 ∷ 174 ∷ 1 ∷ 0 ∷ 0 ∷ 0 ∷ 0 ∷ 0 ∷ 0 ∷ 103
    ∷ 215 ∷ 129 ∷ 1 ∷ 115 ∷ 197 ∷ 129 ∷ 1 ∷ 156 ∷ 129 ∷ 0 ∷ 34 ∷ 181 ∷ 156 ∷ 131 ∷ 117 ∷ 110 ∷ 100
    ∷ 136 ∷ 129 ∷ 0 ∷ 134 ∷ 143 ∷ 86 ∷ 95 ∷ 77 ∷ 80 ∷ 69 ∷ 71 ∷ 52 ∷ 47 ∷ 73 ∷ 83 ∷ 79 ∷ 47 ∷ 65
    ∷ 86 ∷ 67 ∷ 131 ∷ 129 ∷ 1 ∷ 224 ∷ 1 ∷ 0 ∷ 0 ∷ 0 ∷ 0 ∷ 0 ∷ 0 ∷ 26 ∷ 176 ∷ 130 ∷ 1 ∷ 96 ∷ 186
    ∷ 130 ∷ 0 ∷ 240 ∷ 84 ∷ 176 ∷ 130 ∷ 0 ∷ 4 ∷ 84 ∷ 186 ∷ 130 ∷ 0 ∷ 3 ∷ 35 ∷ 131 ∷ 227 ∷ 132 ∷ 63
    ∷ 128 ∷ 0 ∷ 16 ∷ 99 ∷ 162 ∷ 153 ∷ 0 ∷ 0 ∷ 0 ∷ 0 ∷ 0 ∷ 1 ∷ 103 ∷ 66 ∷ 224 ∷ 20 ∷ 218 ∷ 5 ∷ 130
    ∷ 23 ∷ 137 ∷ 64 ∷ 0 ∷ 0 ∷ 0 ∷ 1 ∷ 104 ∷ 206 ∷ 48 ∷ 164 ∷ 128 ∷ []

abbrev pub mkv_head : List ℕ
mkv_head = ebml ++ segment_and_void ++ info ++ tracks

abbrev pub codec_string : MCodec → List ℕ
codec_string mcodec_v_mpeg4_iso_avc =
    86 ∷ 95 ∷ 77 ∷ 80 ∷ 69 ∷ 71 ∷ 52 ∷ 47 ∷ 73 ∷ 83 ∷ 79 ∷ 47 ∷ 65 ∷ 86 ∷ 67 ∷ []
codec_string mcodec_v_mpeg4_iso_asp =
    86 ∷ 95 ∷ 77 ∷ 80 ∷ 69 ∷ 71 ∷ 52 ∷ 47 ∷ 73 ∷ 83 ∷ 79 ∷ 47 ∷ 65 ∷ 83 ∷ 80 ∷ []

-- `memset` and `strncpy` of 13 bytes.
abbrev pub clen_app : ℕ
clen_app = 13

module _ (tanidvr_sw_str : List ℕ) (transform_fps_to_mkvfps : ℕ → Bool → Bool → ℕ) where
  -- Each step of the update, on the header so far.
  unfoldable pub video_parameters : McParms → List ℕ → List ℕ
  video_parameters mc dst =
      let fps_dhav_f = transform_fps_to_mkvfps mc.dhav_fps mc.ntsc_timings mc.ntsc_exact_60hz in
      let dst1 = splice dst 368 (nv2mm_u16 mc.v_width) in
      let dst2 = splice dst1 372 (nv2mm_u16 mc.v_height) in
      let dst3 = splice dst2 377 (nv2mm_u16 mc.v_aspect_x) in
      let dst4 = splice dst3 382 (nv2mm_u16 mc.v_aspect_y) in splice dst4 388 (nv2mm_u32 fps_dhav_f)

  unfoldable pub software_strings : List ℕ → List ℕ
  software_strings dst =
      let app = window tanidvr_sw_str 0 clen_app in splice (splice dst 237 app) 253 app

  unfoldable pub main_header : McParms → MCodec → List ℕ
  main_header mc vcodec =
      let dst1 = splice mkv_head 339 (codec_string vcodec) in
      let dst2 = software_strings (video_parameters mc dst1) in
      let dst3 = splice dst2 331 (b'u' ∷ b'n' ∷ b'd' ∷ []) in splice dst3 231 (0 ∷ 3 ∷ 232 ∷ [])

  unfoldable pub dt_convert_frame_to_mkv : McParms → List ℕ → ℕ → Bool → MCodec → List ℕ × ℕ × ℤ
  dt_convert_frame_to_mkv mc src max_dst_len first_frame vcodec =
      convert_frame_to_mkv (if first_frame then main_header mc vcodec else []) mc src max_dst_len
