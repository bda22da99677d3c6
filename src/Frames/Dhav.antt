-- ===== src/Frames/Dhav.antt =====
-- src/mctools.c, dstf_process_dhav_stream_to_frames: complete DHAV frames out of the queue, with
-- everything else skipped. Positions in `sq` stand for the pointer `framep`.
pub mod Frame
pub mod Pull
pub mod Sound
pub mod ZeroLength
use tani_dvr.Prelude.{
  ℕ, zero, suc, ◌+◌, ◌-◌, Bool, true, false, not, ◌&&◌, List, [], none, some, ltb, leb, ◌==◌,
  if◌then◌else◌, window,
}
use tani_dvr.Prelude.Int.{pos, minus}
use tani_dvr.BinTools.{lm2nv_u32, int_to_size, id_eq_lm32}
use tani_dvr.Frames.{Dstf, load, Outcome, done, wild, no_fuel}

abbrev pub is_head : List ℕ → ℕ → Bool
is_head = id_eq_lm32 b'D' b'H' b'A' b'V'

abbrev pub is_tail : List ℕ → ℕ → Bool
is_tail = id_eq_lm32 b'd' b'h' b'a' b'v'

-- What one look at the front of the queue says. `stray` is a read before `sq[0]`.
pub data Verdict : Type 0 where
  garbage incomplete stray : Verdict
  whole : ℕ → Verdict

-- Behind the header: `rep` is `dhav_rep_len`. `dhav_offset` is `rep - 8` in `size_t`, so for
-- `rep < 8` the trailer is looked for before `framep`.
unfoldable pub judge_length : List ℕ → ℕ → ℕ → ℕ → ℕ → Verdict
judge_length sq maxlen framep len rep =
    if ltb maxlen rep
    then garbage
    else if ltb len rep
    then incomplete
    else if ltb (framep + rep) 8
    then stray
    else if not (is_tail sq (framep + rep - 8))
    then garbage
    else if int_to_size (lm2nv_u32 sq (framep + rep - 4)) == rep
    then whole rep
    else garbage

unfoldable pub judge : List ℕ → ℕ → ℕ → ℕ → Verdict
judge sq maxlen framep len =
    if is_head sq framep
    then judge_length sq maxlen framep len (int_to_size (lm2nv_u32 sq (framep + 12)))
    else garbage

-- The inner loop: on to the next header, or until fewer than 16 bytes are left.
unfoldable pub skip : List ℕ → ℕ → ℕ → ℕ × ℕ
skip sq offs zero = (offs, 0)
skip sq offs (suc n) = elim (leb 16 (suc n) && not (is_head sq offs)) [
  | true ↦ skip sq (offs + 1) n
  | false ↦ (offs, suc n)
]

-- How the outer loop ends, with `sq_offs` and `sq_len` at that point: returns of 0 and 3, or a
-- frame of that length.
pub data Scan : Type 0 where
  need_more : ℕ → ℕ → Scan
  resync : ℕ → ℕ → Scan
  frame : ℕ → ℕ → ℕ → Scan
  off_array out_of_fuel : Scan

-- The outer loop. Each round that comes back has dropped at least one byte.
unfoldable pub scan : List ℕ → ℕ → ℕ → ℕ → ℕ → Scan
scan sq maxlen zero offs len = out_of_fuel
scan sq maxlen (suc fuel) offs len =
    let (offs', len') = skip sq (offs + 1) (len - 1) in
    let again = scan sq maxlen fuel offs' len' in
    let skipped = if ltb len' 16 then resync offs' len' else again in
    if ltb len 16 then need_more offs len else elim (judge sq maxlen offs len) [
      | garbage ↦ skipped
      | incomplete ↦ need_more offs len
      | stray ↦ off_array
      | whole rep ↦ frame offs len rep
    ]

-- Behind the loop: hand the frame over, if `dst` can take it.
unfoldable pub finish : Dstf → ℕ → Scan → Outcome
finish d max_dst_len (need_more offs len) =
    done (record d { sq_offs = offs; sq_len = len }) [] (pos 0)
finish d max_dst_len (resync offs len) = done (record d { sq_offs = offs; sq_len = len }) [] (pos 3)
finish d max_dst_len (frame offs len rep) =
    if ltb max_dst_len rep
    then done (record d { sq_offs = offs; sq_len = len }) [] (minus 3)
    else done (record d { sq_offs = offs + rep; sq_len = len - rep }) (window d.sq offs rep) (pos 1)
finish d max_dst_len off_array = wild
finish d max_dst_len out_of_fuel = no_fuel

-- The loop and what is behind it, on a queue that has its new bytes.
unfoldable pub pull : Dstf → ℕ → Outcome
pull q max_dst_len = finish q max_dst_len (scan q.sq q.sq_maxlen (q.sq_len + 1) q.sq_offs q.sq_len)

unfoldable pub process_dhav : Dstf → List ℕ → ℕ → Outcome
process_dhav d src max_dst_len = elim (load d src) [
  | none ↦ done d [] (minus 1)
  | some q ↦ pull q max_dst_len
]
