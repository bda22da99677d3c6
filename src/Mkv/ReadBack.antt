-- ===== src/Mkv/ReadBack.antt =====
-- A reader of the cluster finds the sizes, the time and the body.
use tani_dvr.Prelude.Int.{pos, minus}
use tani_dvr.BinTools.RoundTrip.{mm_value, mm_value-nv2mm_u64}
use tani_dvr.FrameInfo.{McParms, FrameType, ft_video_i_frame, ft_video_frame}
use tani_dvr.BinTools.{nv2mm_u64}
use tani_dvr.Mkv.Ebml.{first_element, find_element}
use tani_dvr.Mkv.{bytes_56, block_flags, is_video, cluster, convert_frame_to_mkv}
use mathlib.Core.Path.{subst}
use tani_dvr.Prelude.{
  Bool, List, Option, [], ap, arith, drop, drop-past, false, get_or, if◌then◌else◌, length,
  length-tabulate, ltb, none, not, refl, some, take, take-past, true, window, ℕ, ◌%◌, ◌++◌, ◌+◌,
  ◌-◌, ◌/◌, ◌<◌, ◌==◌, ◌^◌, ◌∙◌, ◌∷◌, ◌≡◌, ◌≤◌,
}

-- The value of the `n` bytes at `p`, most significant first.
abbrev pub read_at : List ℕ → ℕ → ℕ → ℕ
read_at xs p n = mm_value 0 (take n (drop p xs))

mm_value-bytes_56 : (v : ℕ) → v < 2 ^ 56 → mm_value 0 (bytes_56 v) ≡ v
unfolding mm_value
mm_value-bytes_56 v h = omega arith

-- What a reader of the cluster `out` finds. By places: both size fields count the bytes behind them,
-- the time is that of the frame in microseconds, and the rest is the body. By identifiers, as a
-- reader of EBML: the whole is one Cluster; in it are a Timecode and a SimpleBlock, which belongs to
-- track 1 (129), is at the time of the cluster (0, 0), and ends with the body.
pub record Readable (out : List ℕ) (v_timestamp : ℕ) (body : List ℕ) : Type 0 where
  pub cluster_size : read_at out 5 7 ≡ length (drop 12 out)
  pub time : read_at out 14 8 ≡ v_timestamp / 1000
  pub block_size : read_at out 24 7 ≡ length (drop 31 out)
  pub payload : drop 35 out ≡ body
  pub is_cluster : first_element out ≡ (524_531_317, drop 12 out, [])
  pub timecode : List ℕ
  pub has_timecode : find_element 2 231 (drop 12 out) ≡ some timecode
  pub timecode_value : mm_value 0 timecode ≡ v_timestamp / 1000
  pub flags : ℕ
  pub flags_byte : flags ≡ get_or out 34 0
  pub has_block : find_element 2 163 (drop 12 out) ≡ some (129 ∷ 0 ∷ 0 ∷ flags ∷ body)

-- An element that is cut from what is behind its size.
abbrev cut_at : ℕ → List ℕ → ℕ → ℕ × List ℕ × List ℕ
cut_at id rest size = (
  id,
  if size == 2 ^ 56 - 1 then rest else take size rest,
  if size == 2 ^ 56 - 1 then [] else drop size rest,
)

-- With a size of eight bytes that counts the rest, it is all the rest.
sized :
    (id v : ℕ) (rest : List ℕ)
    → v < 2 ^ 33
    → length rest ≡ v
    → cut_at id rest (mm_value 0 (1 ∷ bytes_56 v) % 2 ^ 56) ≡ (id, rest, [])
unfolding mm_value
sized id v rest small len =
    let value : mm_value 0 (1 ∷ bytes_56 v) % 2 ^ 56 ≡ v = omega arith in
    let known : (v == 2 ^ 56 - 1) ≡ false = ground (arith, small) in
    ap (cut_at id rest) value
    ∙ (ap {B = ℕ × List ℕ × List ℕ}
          (λ (b : Bool). (id, if b then rest else take v rest, if b then [] else drop v rest)) known
        ∙ (ap {B = ℕ × List ℕ × List ℕ} (λ a. (id, a, drop v rest)) (take-past v rest (omega arith))
            ∙ ap {B = ℕ × List ℕ × List ℕ} (λ a. (id, rest, a)) (drop-past v rest (omega arith))))

-- The two elements of the cluster.
abbrev inside_cluster : ℕ → ℕ → ℕ → List ℕ → List ℕ
inside_cluster time v flags body =
    231 ∷ 136 ∷ (nv2mm_u64 time ++ 163 ∷ 1 ∷ (bytes_56 v ++ 129 ∷ 0 ∷ 0 ∷ flags ∷ body))

first_cluster :
    (v : ℕ) (rest : List ℕ)
    → v < 2 ^ 33
    → length rest ≡ v
    → first_element (31 ∷ 67 ∷ 182 ∷ 117 ∷ 1 ∷ (bytes_56 v ++ rest)) ≡ (524_531_317, rest, [])
unfolding first_element mm_value
first_cluster v rest small len = sized 524_531_317 v rest small len

first_block :
    (v : ℕ) (rest : List ℕ)
    → v < 2 ^ 33
    → length rest ≡ v
    → first_element (163 ∷ 1 ∷ (bytes_56 v ++ rest)) ≡ (163, rest, [])
unfolding first_element mm_value
first_block v rest small len = sized 163 v rest small len

find_timecode :
    (time v flags : ℕ) (body : List ℕ)
    → find_element 2 231 (inside_cluster time v flags body) ≡ some (nv2mm_u64 time)
unfolding find_element first_element mm_value
find_timecode time v flags body = refl

find_block :
    (time v flags : ℕ) (body : List ℕ)
    → v < 2 ^ 33
    → length body + 4 ≡ v
    → find_element 2 163 (inside_cluster time v flags body) ≡ some (129 ∷ 0 ∷ 0 ∷ flags ∷ body)
unfolding find_element first_element mm_value
find_block time v flags body small len =
    ap {B = Option (List ℕ)}
      (λ (e : ℕ × List ℕ × List ℕ). elim (e.0 == 163) [ true ↦ some e.1 | false ↦ none ])
      (first_block v (129 ∷ 0 ∷ 0 ∷ flags ∷ body) small (omega arith))

cluster-Readable :
    (mc : McParms) (body : List ℕ)
    → length body < 2 ^ 32
    → mc.v_timestamp < 2 ^ 64
    → Readable (cluster mc (length body) body) mc.v_timestamp body
unfolding cluster
cluster-Readable mc body small time =
    let n = length body in
    let v = (n + 13 - 9) % 2 ^ 64 in
    let t = mc.v_timestamp / 1000 in
    let flags = block_flags mc.frame_type in
    let cluster_bytes : (n + 35 - 12) % 2 ^ 64 ≡ n + 23 = omega arith in
    record {
      cluster_size = mm_value-bytes_56 ((n + 35 - 12) % 2 ^ 64) (omega arith) ∙ omega arith;
      time = mm_value-nv2mm_u64 t (omega arith);
      block_size = mm_value-bytes_56 v (omega arith) ∙ omega arith;
      payload = refl;
      is_cluster =
          first_cluster ((n + 35 - 12) % 2 ^ 64) (inside_cluster t v flags body) (omega arith)
            (omega (arith, cluster_bytes));
      timecode = nv2mm_u64 t;
      has_timecode = find_timecode t v flags body;
      timecode_value = mm_value-nv2mm_u64 t (omega arith);
      flags = flags;
      flags_byte = refl;
      has_block = find_block t v flags body (omega arith) (omega arith);
    }

length-cluster :
    (mc : McParms) (src_len : ℕ) (body : List ℕ)
    → length body < 2 ^ 32
    → length (cluster mc src_len body) ≡ (35 + length body) % 2 ^ 64
unfolding cluster
length-cluster mc src_len body small = omega arith

-- The flags of a frame's block.
abbrev pub Flagged : FrameType → ℕ → Type 0
Flagged type flags = (type ≡ ft_video_i_frame → flags ≡ 1) × (type ≡ ft_video_frame → flags ≡ 0)

block_flags-Flagged : (type : FrameType) → Flagged type (block_flags type)
unfolding block_flags
block_flags-Flagged type = (λ e. ap block_flags e, λ e. ap block_flags e)

-- For a video frame whose body lies inside it, with a body below 2^32 bytes, a front `main` below
-- 2^32 bytes and a destination that can take both and 35 bytes: dt_convert_frame_to_mkv returns 0
-- and the number of bytes it wrote, and these are `main` and one more element. A reader of EBML
-- finds it to be a Cluster, with a Timecode of the time in microseconds and a SimpleBlock of track 1
-- at that time, with flags 1 for an I-frame and 0 for another, and the body; both of its size fields
-- count the bytes behind them.
pub convert_frame_to_mkv-Readable :
    (main : List ℕ) (mc : McParms) (src : List ℕ) (max_dst_len : ℕ)
    → is_video mc.frame_type ≡ true
    → mc.has_v_parms ≡ true
    → 0 < length src
    → mc.body_p + mc.body_len ≤ length src
    → mc.body_len < 2 ^ 32
    → mc.v_timestamp < 2 ^ 64
    → length main + mc.body_len + 35 ≤ max_dst_len
    → length main < 2 ^ 32
    → (out : List ℕ) × (convert_frame_to_mkv main mc src max_dst_len
        ≡ (main ++ out, length main + length out, pos 0))
      × Flagged mc.frame_type (get_or out 34 0)
      × Readable out mc.v_timestamp (window src mc.body_p mc.body_len)
unfolding convert_frame_to_mkv cluster
convert_frame_to_mkv-Readable main mc src max_dst_len video parms some_src inside small time room
      front =
    let body = window src mc.body_p mc.body_len in
    let size : length body ≡ mc.body_len =
      length-tabulate mc.body_len (λ i. get_or src (mc.body_p + i) 0) in
    let out = cluster mc mc.body_len body in
    let size_out = length-cluster mc mc.body_len body (omega arith) in
    let whole : (35 + mc.body_len + length main) % 2 ^ 64 ≡ length main + length out =
      omega arith in
    let some_bytes : (length src == 0) ≡ false = ground arith in
    let fits : ltb max_dst_len ((35 + mc.body_len + length main) % 2 ^ 64) ≡ false = ground arith in
    (
      out,
      (λ i.
          if some_bytes i
          then ([], 0, pos 3)
          else if not (video i)
          then ([], 0, pos 2)
          else if not (parms i)
          then ([], 0, pos 1)
          else if fits i
          then (main, 0, minus 4)
          else (main ++ out, whole i, pos 0)),
      block_flags-Flagged mc.frame_type,
      subst (λ n. Readable (cluster mc n body) mc.v_timestamp body) size
          (cluster-Readable mc body (omega arith) time),
    )

-- With nothing in front.
pub convert_cluster-Readable :
    (mc : McParms) (src : List ℕ) (max_dst_len : ℕ)
    → is_video mc.frame_type ≡ true
    → mc.has_v_parms ≡ true
    → 0 < length src
    → mc.body_p + mc.body_len ≤ length src
    → mc.body_len < 2 ^ 32
    → mc.v_timestamp < 2 ^ 64
    → mc.body_len + 35 ≤ max_dst_len
    → (out : List ℕ) × (convert_frame_to_mkv [] mc src max_dst_len ≡ (out, length out, pos 0))
      × Readable out mc.v_timestamp (window src mc.body_p mc.body_len)
convert_cluster-Readable mc src max_dst_len video parms some_src inside small time room =
    let (out, e, flagged, r) =
      convert_frame_to_mkv-Readable [] mc src max_dst_len video parms some_src inside small time
        (omega arith) (omega arith) in
    (out, e ∙ ap (λ n. (out, n, pos 0)) (let h : 0 + length out ≡ length out = omega arith in h), r)
