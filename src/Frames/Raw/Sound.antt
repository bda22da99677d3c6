-- ===== src/Frames/Raw/Sound.antt =====
-- The search finds the first NAL prefix, and a call on the raw stream accounts for every byte.
use mathlib.Core.Path.{subst}
use tani_dvr.Prelude.{
  sub_size, Bool-cases, List, Option, [], ap, append-nil, arith, dec_lt, false, inl, inr, length,
  ltb, ltb→le, none, refl, some, suc, sym, true, window, window_cut, zero, ℕ, ◌++◌, ◌+◌, ◌-◌, ◌<◌,
  ◌^◌, ◌∙◌, ◌≡◌, ◌≤◌, ◌⊎◌,
}
use tani_dvr.Prelude.Int.{ℤ, pos, minus}
use tani_dvr.Frames.{Dstf, IsValid, contents, Outcome, done, wild, no_fuel}
use tani_dvr.Frames.Queue.{Loaded, load_lem}
use tani_dvr.Frames.Raw.{
  is_nal, search_from, search_mpeg_nal, deliver, seek, first_nal, second_nal, process_raw_h264,
}

-- What the search says of the places `src + i` for `i` from `lo` up to `hi`.
abbrev pub Found : List ℕ → ℕ → ℕ → ℕ → Option ℕ → Type 0
Found mem src lo hi none = (j : ℕ) → lo ≤ j → j < hi → is_nal mem (src + j) ≡ false
Found mem src lo hi (some r) =
    (lo ≤ r)
    × (r < hi)
    × (is_nal mem (src + r) ≡ true)
    × ((j : ℕ) → lo ≤ j → j < r → is_nal mem (src + j) ≡ false)

one_more :
    (mem : List ℕ) (src i hi : ℕ)
    → is_nal mem (src + i) ≡ false
    → ((j : ℕ) → i + 1 ≤ j → j < hi → is_nal mem (src + j) ≡ false)
    → (j : ℕ) → i ≤ j
    → j < hi
    → is_nal mem (src + j) ≡ false
one_more mem src i hi e later j h k = elim (dec_lt i j) [
  | yes p ↦ later j (omega arith) k
  | no p ↦ ap (λ x. is_nal mem (src + x)) (let q : j ≡ i = omega arith in q) ∙ e
]

Found-step :
    (mem : List ℕ) (src i hi : ℕ) (r : Option ℕ)
    → is_nal mem (src + i) ≡ false
    → Found mem src (i + 1) hi r
    → Found mem src i hi r
Found-step mem src i hi none e f = one_more mem src i hi e f
Found-step mem src i hi (some r) e (a, b, c, f) = (omega arith, b, c, one_more mem src i r e f)

search_hit :
    (mem : List ℕ) (src i n : ℕ)
    → is_nal mem (src + i) ≡ true
    → search_from mem src i (suc n) ≡ some i
unfolding search_from
search_hit mem src i n e = ground (arith, e)

search_miss :
    (mem : List ℕ) (src i n : ℕ)
    → is_nal mem (src + i) ≡ false
    → search_from mem src i (suc n) ≡ search_from mem src (i + 1) n
unfolding search_from
search_miss mem src i n e = ground (arith, e)

search_from-Found :
    (mem : List ℕ) (src i n hi : ℕ) → i + n ≡ hi → Found mem src i hi (search_from mem src i n)
search_from-Found mem src i zero hi e = unfold search_from in λ j h k. absurd (omega arith)
search_from-Found mem src i (suc n) hi e = elim (Bool-cases (is_nal mem (src + i))) [
  | inl hit ↦
      subst (Found mem src i hi) (sym (search_hit mem src i n hit))
        (omega arith, omega arith, hit, λ j h k. absurd (omega arith))
  | inr miss ↦ subst (Found mem src i hi) (sym (search_miss mem src i n miss)) (
      Found-step mem src i hi (search_from mem src (i + 1) n) miss
        (search_from-Found mem src (i + 1) n hi (omega arith)))
]

-- Over a block of at least two bytes search_mpeg_NAL returns the first place where a whole NAL
-- prefix stands, and none exactly when no place in the block has one.
pub search_mpeg_nal-Found :
    (mem : List ℕ) (src len : ℕ)
    → 2 ≤ len
    → len < 2 ^ 31
    → Found mem src 0 (len - 2) (search_mpeg_nal mem src len)
unfolding search_mpeg_nal
search_mpeg_nal-Found mem src len h k =
    search_from-Found mem src 0 (sub_size len 2) (len - 2) (omega arith)

-- A frame that was handed over: it begins with a prefix, and the next prefix in the queue is the
-- first one behind it.
pub record NalFrame (mem : List ℕ) (o n : ℕ) : Type 0 where
  pub starts : is_nal mem o ≡ true
  pub long : 4 ≤ n
  pub next : is_nal mem (o + n) ≡ true
  pub none_inside : (j : ℕ) → 4 ≤ j → j < n → is_nal mem (o + j) ≡ false

-- What a call leaves for the bytes in the queue: each is skipped, handed over or kept, in order,
-- and what is handed over is a frame.
abbrev pub KeptRaw : Dstf → Outcome → Type 0
KeptRaw q (done d' out ret) =
    IsValid d'
    × (d'.sq_maxlen ≡ q.sq_maxlen)
    × (skipped : List ℕ) × (contents q ≡ skipped ++ (out ++ contents d'))
    × (((out ≡ []) × ((ret ≡ pos 0) ⊎ (ret ≡ minus 3)))
        ⊎ ((o n : ℕ) × (out ≡ window q.sq o n) × (ret ≡ pos 1) × NalFrame q.sq o n))
KeptRaw q wild = ⊥
KeptRaw q no_fuel = ⊥

abbrev behind : Dstf → ℕ → Dstf
behind q n = record q { sq_offs = q.sq_offs + n; sq_len = q.sq_len - n }

skipped_only :
    (q : Dstf) (n : ℕ) (ret : ℤ)
    → IsValid q
    → n ≤ q.sq_len
    → (ret ≡ pos 0) ⊎ (ret ≡ minus 3)
    → KeptRaw q (done (behind q n) [] ret)
skipped_only q n ret v h e = (
  omega arith,
  refl,
  window q.sq q.sq_offs n,
  window_cut q.sq q.sq_offs q.sq_len n h,
  inl (refl, e),
)

deliver-KeptRaw :
    (q : Dstf) (n max_dst_len : ℕ) (r : Option ℕ)
    → IsValid q
    → n + 8 ≤ q.sq_len
    → is_nal q.sq (q.sq_offs + n) ≡ true
    → Found q.sq (q.sq_offs + n + 4) 0 (q.sq_len - n - 4 - 2) r
    → KeptRaw q (deliver (behind q n) max_dst_len r)
unfolding deliver
deliver-KeptRaw q n max_dst_len none v h e f = skipped_only q n (pos 0) v (omega arith) (inl refl)
deliver-KeptRaw q n max_dst_len (some next) v h e (_, b, c, f) =
    let o = q.sq_offs + n in
    let len = next + 4 in
    elim (Bool-cases (ltb max_dst_len (next + 4))) [
      | inl small ↦ rw small (skipped_only q n (minus 3) v (omega arith) (inr refl))
      | inr fits ↦ rw fits (
        omega arith,
        refl,
        window q.sq q.sq_offs n,
        window_cut q.sq q.sq_offs q.sq_len n (omega arith)
            ∙ ap (◌++◌ (window q.sq q.sq_offs n))
                (window_cut q.sq o (q.sq_len - n) len (omega arith)),
        inr (
          o,
          len,
          refl,
          refl,
          record {
            starts = e;
            long = omega arith;
            next = ap (is_nal q.sq) (let p : o + len ≡ o + 4 + next = omega arith in p) ∙ c;
            none_inside = λ j g k.
                ap (is_nal q.sq) (let p : o + j ≡ o + 4 + (j - 4) = omega arith in p)
                ∙ f (j - 4) (omega arith) (omega arith);
          },
        ),
      )
    ]

second_nal-KeptRaw :
    (q : Dstf) (n max_dst_len : ℕ)
    → IsValid q
    → n ≤ q.sq_len
    → is_nal q.sq (q.sq_offs + n) ≡ true
    → KeptRaw q (second_nal (behind q n) max_dst_len)
unfolding second_nal
second_nal-KeptRaw q n max_dst_len v h e = elim (Bool-cases (ltb (q.sq_len - n) 8)) [
  | inl short ↦ rw short (skipped_only q n (pos 0) v h (inl refl))
  | inr long ↦
      let enough = ltb→le (q.sq_len - n) 8 long in
      rw long (
        deliver-KeptRaw q n max_dst_len
          (search_mpeg_nal q.sq (q.sq_offs + n + 4) (q.sq_len - n - 4)) v (omega (arith, enough)) e
          (search_mpeg_nal-Found q.sq (q.sq_offs + n + 4) (q.sq_len - n - 4) (omega (arith, enough))
            (omega arith)))
]

seek-KeptRaw :
    (q : Dstf) (max_dst_len : ℕ) (r : Option ℕ)
    → IsValid q
    → Found q.sq q.sq_offs 0 (q.sq_len - 2) r
    → KeptRaw q (seek q max_dst_len r)
unfolding seek
seek-KeptRaw q max_dst_len none v f =
    (omega arith, refl, contents q, sym (append-nil (contents q)), inl (refl, inl refl))
seek-KeptRaw q max_dst_len (some next) v (_, b, c, f) =
    second_nal-KeptRaw q next max_dst_len v (omega arith) c

first_nal-KeptRaw : (q : Dstf) (max_dst_len : ℕ) → IsValid q → KeptRaw q (first_nal q max_dst_len)
unfolding first_nal
first_nal-KeptRaw q max_dst_len v = elim (Bool-cases (ltb q.sq_len 8)) [
  | inl short ↦ rw short (v, refl, [], refl, inl (refl, inl refl))
  | inr long ↦
      let enough = ltb→le q.sq_len 8 long in
      rw long (
        seek-KeptRaw q max_dst_len (search_mpeg_nal q.sq q.sq_offs q.sq_len) v
          (search_mpeg_nal-Found q.sq q.sq_offs q.sq_len (omega (arith, enough)) (omega arith)))
]

-- A call of dstf_process_raw_h264_stream_to_frames on a valid queue and any bytes either refuses
-- them for want of room and leaves the queue, or takes them, leaves a valid queue of the same size
-- and accounts for every byte in order; what is handed over begins with a NAL prefix and ends before
-- the next one, with 1 returned; without a frame the call returns 0, or -3 for one that does not
-- fit.
pub process_raw_h264-Kept :
    (d : Dstf) (src : List ℕ) (max_dst_len : ℕ)
    → IsValid d
    → length src < 2 ^ 32
    → ((d.sq_maxlen < d.sq_len + length src)
        × (process_raw_h264 d src max_dst_len ≡ done d [] (minus 1)))
      ⊎ ((q : Dstf) × Loaded d src q × KeptRaw q (process_raw_h264 d src max_dst_len))
unfolding process_raw_h264
process_raw_h264-Kept d src max_dst_len v h = elim (load_lem d src v h) [
  | inl (full, e) ↦ inl (full, rw (e, process_raw_h264))
  | inr (q, e, loaded) ↦
      inr (q, loaded, rw (e, process_raw_h264) (first_nal-KeptRaw q max_dst_len loaded.valid))
]
