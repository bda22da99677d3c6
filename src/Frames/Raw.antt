-- ===== src/Frames/Raw.antt =====
-- src/mctools.c, search_mpeg_NAL and dstf_process_raw_h264_stream_to_frames: frames of the raw
-- stream, each of which goes from one NAL prefix (00 00 01) to the next.
pub mod Sound
use tani_dvr.Prelude.{
  sub_size, ℕ, zero, suc, ◌+◌, ◌-◌, Bool, true, false, ◌&&◌, List, [], Option, none, some, ltb,
  ◌==◌, if◌then◌else◌, window,
}
use tani_dvr.Prelude.Int.{pos, minus}
use tani_dvr.BinTools.{byte_at}
use tani_dvr.Frames.{Dstf, load, Outcome, done}

abbrev pub is_nal : List ℕ → ℕ → Bool
is_nal mem p = byte_at mem p == 0 && (byte_at mem (p + 1) == 0) && (byte_at mem (p + 2) == 1)

-- The loop of search_mpeg_NAL at index `i`, with `n` rounds left; `none` is -1.
unfoldable pub search_from : List ℕ → ℕ → ℕ → ℕ → Option ℕ
search_from mem src i zero = none
search_from mem src i (suc n) = elim (is_nal mem (src + i)) [
  | true ↦ some i
  | false ↦ search_from mem src (i + 1) n
]

-- `len - 2` is computed in `size_t`.
unfoldable pub search_mpeg_nal : List ℕ → ℕ → ℕ → Option ℕ
search_mpeg_nal mem src len = search_from mem src 0 (sub_size len 2)

-- With the place of the second prefix (counted from `framep + 4`): hand the frame over. Without it
-- the frame is incomplete yet.
unfoldable pub deliver : Dstf → ℕ → Option ℕ → Outcome
deliver d max_dst_len none = done d [] (pos 0)
deliver d max_dst_len (some next) =
    let frame_len = next + 4 in
    if ltb max_dst_len frame_len
    then done d [] (minus 3)
    else done (record d { sq_len = d.sq_len - frame_len; sq_offs = d.sq_offs + frame_len })
        (window d.sq d.sq_offs frame_len) (pos 1)

unfoldable pub second_nal : Dstf → ℕ → Outcome
second_nal d max_dst_len =
    if ltb d.sq_len 8
    then done d [] (pos 0)
    else deliver d max_dst_len (search_mpeg_nal d.sq (d.sq_offs + 4) (d.sq_len - 4))

-- With the place of the first prefix: drop what stands before it. Without one the whole queue goes.
unfoldable pub seek : Dstf → ℕ → Option ℕ → Outcome
seek d max_dst_len none = done (record d { sq_offs = d.sq_offs + d.sq_len; sq_len = 0 }) [] (pos 0)
seek d max_dst_len (some next) =
    second_nal (record d { sq_offs = d.sq_offs + next; sq_len = d.sq_len - next }) max_dst_len

unfoldable pub first_nal : Dstf → ℕ → Outcome
first_nal d max_dst_len =
    if ltb d.sq_len 8
    then done d [] (pos 0)
    else seek d max_dst_len (search_mpeg_nal d.sq d.sq_offs d.sq_len)

unfoldable pub process_raw_h264 : Dstf → List ℕ → ℕ → Outcome
process_raw_h264 d src max_dst_len = elim (load d src) [
  | none ↦ done d [] (minus 1)
  | some q ↦ first_nal q max_dst_len
]
