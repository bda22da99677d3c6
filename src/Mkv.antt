-- ===== src/Mkv.antt =====
-- src/mctools.c, dt_convert_frame_to_mkv: a Matroska cluster with one block, and `main` in front of
-- it, which is the main header (the child Header) for the first frame and empty for the others.
pub mod ReadBack
pub mod Header
pub mod Ebml
pub mod FirstFrame
use tani_dvr.Prelude.Int.{ℤ, pos, minus}
use tani_dvr.BinTools.{nv2mm_u64}
use tani_dvr.FrameInfo.{
  FrameType, ft_undefined, ft_video_frame, ft_video_i_frame, ft_audio_frame, McParms,
}
use tani_dvr.Prelude.{
  ==_iff, All, All-append, All-get_or, All-split, Bool, Bool-cases, List, Option, [], add-one, ap,
  append-nil, append_assoc, append_inj, arith, dec_lt, drop, drop-drop, drop-length_append,
  drop-past, false, flatten, get_or, get_or-append, get_or-cons, get_or-past, get_or-set,
  get_or-splice, get_or-splice_in, get_or-splice_out, get_or-tabulate, if_cases, if◌then◌else◌, inl,
  inr, leb, leb→le, length, length-append, length-drop, length-replicate, length-set, length-splice,
  length-tabulate, length-take, list_ext, ltb, ltb→le, ltb→lt, lt→ltb, map, none, not, refl,
  replicate, set, some, splice, sub_size, suc, sym, tabulate, tabulate-add, tabulate-get_or,
  tabulate_congr, take, take-append-drop, take-length_append, take-past, true, window, window-front,
  window_cut, window_split, window_total, zero, ℕ, ◌%◌, ◌&&◌, ◌*◌, ◌++◌, ◌+◌, ◌-◌, ◌/◌, ◌<◌, ◌==◌,
  ◌^◌, ◌||◌, ◌↔◌, ◌∙◌, ◌∷◌, ◌≡◌, ◌≢◌, ◌≤◌, ◌⊎◌,
}

-- Seven bytes, the most significant first.
abbrev pub bytes_56 : ℕ → List ℕ
bytes_56 v =
    (v / 2 ^ 48 % 256)
    ∷ (v / 2 ^ 40 % 256)
    ∷ (v / 2 ^ 32 % 256)
    ∷ (v / 2 ^ 24 % 256)
    ∷ (v / 2 ^ 16 % 256)
    ∷ (v / 2 ^ 8 % 256)
    ∷ (v % 256)
    ∷ []

abbrev pub whole_cluster_header_load : ℕ
whole_cluster_header_load = 22

abbrev pub whole_simpleblock_header_load : ℕ
whole_simpleblock_header_load = 13

unfoldable pub is_video : FrameType → Bool
is_video ft_undefined = false
is_video ft_video_frame = true
is_video ft_video_i_frame = true
is_video ft_audio_frame = false

unfoldable pub block_flags : FrameType → ℕ
block_flags ft_undefined = 0
block_flags ft_video_frame = 0
block_flags ft_video_i_frame = 1
block_flags ft_audio_frame = 0

-- The bytes behind `dst_p`, for the body `body` of `src_len` bytes.
unfoldable pub cluster : McParms → ℕ → List ℕ → List ℕ
cluster mc src_len body =
    let headers = whole_cluster_header_load + whole_simpleblock_header_load in
    let mkv_cluster_len = (src_len + headers - 12) % 2 ^ 64 in
    let mkv_simpleblock_len = (src_len + whole_simpleblock_header_load - 9) % 2 ^ 64 in
    31
    ∷ 67
    ∷ 182
    ∷ 117
    ∷ 1
    ∷ (bytes_56 mkv_cluster_len
        ++ 231
          ∷ 136
          ∷ (nv2mm_u64 (mc.v_timestamp / 1000)
              ++ 163
                ∷ 1
                ∷ (bytes_56 mkv_simpleblock_len ++ 129 ∷ 0 ∷ 0 ∷ block_flags mc.frame_type ∷ body)))

-- The bytes written, `*dst_len` and the return value.
unfoldable pub convert_frame_to_mkv : List ℕ → McParms → List ℕ → ℕ → List ℕ × ℕ × ℤ
convert_frame_to_mkv main mc src max_dst_len =
    let src_len = mc.body_len in
    let whole_payload =
      (whole_cluster_header_load + whole_simpleblock_header_load + src_len + length main)
      % 2 ^ 64 in
    if length src == 0
    then ([], 0, pos 3)
    else if not (is_video mc.frame_type)
    then ([], 0, pos 2)
    else if not mc.has_v_parms
    then ([], 0, pos 1)
    else if ltb max_dst_len whole_payload
    then (main, 0, minus 4)
    else (main ++ cluster mc src_len (window src mc.body_p src_len), whole_payload, pos 0)
