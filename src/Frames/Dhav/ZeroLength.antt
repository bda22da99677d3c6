-- ===== src/Frames/Dhav/ZeroLength.antt =====
-- A header with a length of 0 right behind a trailer with a length of 0 is taken for a frame.
use tani_dvr.Prelude.{[], add-one, ap, arith, true, ℕ, ◌+◌, ◌-◌, ◌∙◌, ◌≡◌, ◌≤◌}
use tani_dvr.Prelude.Int.{pos}
use tani_dvr.BinTools.{lm2nv_u32, int_to_size}
use tani_dvr.Frames.{Dstf, done, load}
use tani_dvr.Frames.Dhav.{
  is_head, is_tail, judge, judge_length, whole, scan, frame, finish, pull, process_dhav,
}

-- The front of the queue is such a header.
pub record ZeroFrame (q : Dstf) : Type 0 where
  pub behind : 8 ≤ q.sq_offs
  pub present : 16 ≤ q.sq_len
  pub head : is_head q.sq q.sq_offs ≡ true
  pub size : lm2nv_u32 q.sq (q.sq_offs + 12) ≡ 0
  pub tail : is_tail q.sq (q.sq_offs - 8) ≡ true
  pub size_again : lm2nv_u32 q.sq (q.sq_offs - 4) ≡ 0

judge-zero : (q : Dstf) → ZeroFrame q → judge q.sq q.sq_maxlen q.sq_offs q.sq_len ≡ whole 0
unfolding judge judge_length int_to_size
judge-zero q z =
    rw (z.head, z.size)
      (ground (
        arith,
        z.behind,
        ap (is_tail q.sq) (let e : q.sq_offs + 0 - 8 ≡ q.sq_offs - 8 = omega arith in e) ∙ z.tail,
        ap (lm2nv_u32 q.sq) (let e : q.sq_offs + 0 - 4 ≡ q.sq_offs - 4 = omega arith in e)
            ∙ z.size_again,
      ))

scan-zero :
    (q : Dstf)
    → ZeroFrame q
    → scan q.sq q.sq_maxlen (q.sq_len + 1) q.sq_offs q.sq_len ≡ frame q.sq_offs q.sq_len 0
unfolding scan
scan-zero q z = rw add-one (ground (arith, z.present, judge-zero q z))

-- The call reports a frame, hands over no byte and leaves the queue where it was.
pub pull-zero : (q : Dstf) (max_dst_len : ℕ) → ZeroFrame q → pull q max_dst_len ≡ done q [] (pos 1)
unfolding pull finish
pull-zero q max_dst_len z =
    let same_offs : q.sq_offs + 0 ≡ q.sq_offs = omega arith in
    let same_len : q.sq_len - 0 ≡ q.sq_len = omega arith in
    rw (scan-zero q z, finish) (ground (arith, same_offs, same_len))

pub process_dhav-zero :
    (q : Dstf) (max_dst_len : ℕ) → ZeroFrame q → process_dhav q [] max_dst_len ≡ done q [] (pos 1)
unfolding process_dhav load
process_dhav-zero q max_dst_len z = pull-zero q max_dst_len z
