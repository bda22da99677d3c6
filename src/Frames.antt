-- ===== src/Frames.antt =====
-- src/mctools.h and src/mctools.c: the byte queue `dstf_t` that turns a stream into frames, and the
-- part that dstf_process_dhav_stream_to_frames and dstf_process_raw_h264_stream_to_frames share,
-- loading new data. `sq_p` always points at `sq[0]`; `malloc` leaves the array with any bytes.
pub mod Queue
pub mod Dhav
pub mod Raw
use tani_dvr.Prelude.{
  sub_size, ℕ, zero, suc, ◌+◌, ◌-◌, ◌%◌, ◌^◌, ◌≤◌, ◌<◌, ◌≡◌, List, [], ◌∷◌, Option, none, some, ltb,
  ◌==◌, if◌then◌else◌, length, set, splice, window,
}
use tani_dvr.Prelude.Int.{ℤ}
use tani_dvr.BinTools.{byte_at}

pub record Dstf : Type 0 where
  pub sq : List ℕ
  pub sq_offs : ℕ
  pub sq_len : ℕ
  pub sq_maxlen : ℕ

abbrev pub t_mc_parms_dhav_stf : ℕ
t_mc_parms_dhav_stf = 1_000_000

-- `dstf_init` on a block that `malloc` returned.
unfoldable pub dstf_init : List ℕ → Dstf
dstf_init block = record { sq = block; sq_offs = 0; sq_len = 0; sq_maxlen = t_mc_parms_dhav_stf }

-- The loop of memcpy_overlap, with `n` rounds left.
unfoldable pub memcpy_overlap : List ℕ → ℕ → ℕ → ℕ → List ℕ
memcpy_overlap mem dst src zero = mem
memcpy_overlap mem dst src (suc n) =
    memcpy_overlap (set mem dst (byte_at mem src)) (dst + 1) (src + 1) n

unfoldable pub pack : Dstf → Dstf
pack d = record d { sq = memcpy_overlap d.sq 0 d.sq_offs d.sq_len; sq_offs = 0 }

-- The `memcpy` behind the packing.
unfoldable pub append : Dstf → List ℕ → Dstf
append d src = record d {
  sq = splice d.sq (d.sq_offs + d.sq_len) src;
  sq_len = d.sq_len + length src;
}

-- Loading: `none` is the return of -1, which leaves the queue as it was.
unfoldable pub load : Dstf → List ℕ → Option Dstf
load d src =
    let q_free = sub_size d.sq_maxlen (d.sq_len + d.sq_offs) in
    let q_tot_free = sub_size d.sq_maxlen d.sq_len in
    if length src == 0
    then some d
    else if ltb q_tot_free (length src)
    then none
    else if ltb q_free (length src)
    then some (append (pack d) src)
    else some (append d src)

-- What a call leaves: the queue, the bytes put in `dst` (`*dst_len` of them) and the return value.
-- `wild` is an access outside `sq`; `no_fuel` never happens.
pub data Outcome : Type 0 where
  done : Dstf → List ℕ → ℤ → Outcome
  wild : Outcome
  no_fuel : Outcome

-- The bytes that wait in the queue.
abbrev pub contents : Dstf → List ℕ
contents d = window d.sq d.sq_offs d.sq_len

pub record IsValid (d : Dstf) : Type 0 where
  pub whole : length d.sq ≡ d.sq_maxlen
  pub inside : d.sq_offs + d.sq_len ≤ d.sq_maxlen
  pub small : d.sq_maxlen < 2 ^ 31
