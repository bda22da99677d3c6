-- ===== src/Frames/Dhav/Pull.antt =====
-- One call on a queue whose bytes begin with a frame, or with the front of one.
use tani_dvr.Prelude.{
  List, [], add-one, append-nil, arith, dec_lt, length, sym, window_total, window_split, ℕ, ◌++◌,
  ◌+◌, ◌-◌, ◌<◌, ◌∙◌, ◌≡◌, ◌≤◌,
}
use tani_dvr.Prelude.Int.{pos}
use tani_dvr.Frames.{Dstf, IsValid, contents, done}
use tani_dvr.Frames.Dhav.{judge, whole, incomplete, scan, frame, need_more, finish, pull}
use tani_dvr.Frames.Dhav.Frame.{IsFrame, judge-whole, judge-incomplete}

-- The queue behind a frame of `n` bytes.
abbrev pub advance : Dstf → ℕ → Dstf
advance d n = record d { sq_offs = d.sq_offs + n; sq_len = d.sq_len - n }

scan-whole :
    (sq : List ℕ) (maxlen fuel offs len n : ℕ)
    → 16 ≤ len
    → judge sq maxlen offs len ≡ whole n
    → scan sq maxlen (fuel + 1) offs len ≡ frame offs len n
unfolding scan
scan-whole sq maxlen fuel offs len n h e = rw add-one (ground (arith, e))

scan-incomplete :
    (sq : List ℕ) (maxlen fuel offs len : ℕ)
    → judge sq maxlen offs len ≡ incomplete
    → scan sq maxlen (fuel + 1) offs len ≡ need_more offs len
unfolding scan
scan-incomplete sq maxlen fuel offs len e = rw add-one (ground (arith, e))

scan-short :
    (sq : List ℕ) (maxlen fuel offs len : ℕ)
    → len < 16
    → scan sq maxlen (fuel + 1) offs len ≡ need_more offs len
unfolding scan
scan-short sq maxlen fuel offs len h = rw add-one (ground arith)

-- A whole frame at the front of a valid queue, no longer than the destination, is handed over
-- unchanged with return value 1; the queue stays valid and holds exactly the bytes behind the frame.
pub pull-frame :
    (d : Dstf) (max_dst_len : ℕ) (f rest : List ℕ)
    → IsValid d
    → contents d ≡ f ++ rest
    → IsFrame f
    → length f ≤ max_dst_len
    → (pull d max_dst_len ≡ done (advance d (length f)) f (pos 1))
      × IsValid (advance d (length f))
      × (contents (advance d (length f)) ≡ rest)
unfolding pull finish
pull-frame d max_dst_len f rest v e w h =
    let room = window_total d.sq d.sq_offs d.sq_len f rest e in
    let parts = window_split d.sq d.sq_offs d.sq_len f rest e in
    let found =
      scan-whole d.sq d.sq_maxlen d.sq_len d.sq_offs d.sq_len (length f) (omega (arith, w.long))
        (judge-whole d.sq d.sq_maxlen d.sq_offs d.sq_len f rest e w (omega arith)) in
    (ground (arith, found, parts.0), omega arith, parts.1)

-- While the queue holds only a proper front of a frame that its array can take, the call returns 0,
-- hands nothing over and leaves the queue as it was.
pub pull-partial :
    (d : Dstf) (max_dst_len : ℕ) (p more : List ℕ)
    → contents d ≡ p
    → IsFrame (p ++ more)
    → 0 < length more
    → length (p ++ more) ≤ d.sq_maxlen
    → pull d max_dst_len ≡ done d [] (pos 0)
unfolding pull finish
pull-partial d max_dst_len p more e w m h =
    let room = window_total d.sq d.sq_offs d.sq_len p [] (e ∙ sym (append-nil p)) in
    elim (dec_lt d.sq_len 16) [
      | yes short ↦ ground (arith, scan-short d.sq d.sq_maxlen d.sq_len d.sq_offs d.sq_len short)
      | no long ↦ ground (
        arith,
        scan-incomplete d.sq d.sq_maxlen d.sq_len d.sq_offs d.sq_len
            (judge-incomplete d.sq d.sq_maxlen d.sq_offs d.sq_len p more e w (omega arith) m h),
      )
    ]

pub pull-empty :
    (d : Dstf) (max_dst_len : ℕ) → contents d ≡ [] → pull d max_dst_len ≡ done d [] (pos 0)
unfolding pull finish
pull-empty d max_dst_len e =
    let room = window_total d.sq d.sq_offs d.sq_len [] [] e in
    ground (arith, scan-short d.sq d.sq_maxlen d.sq_len d.sq_offs d.sq_len (omega arith))
