-- ===== src/Frames/Dhav/Sound.antt =====
-- What a call does on any bytes at all: it ends, loses and invents nothing, and what it hands over
-- has a header, a trailer and its own length in both.
use tani_dvr.Frames.Queue.{load_lem, Loaded}
use tani_dvr.Prelude.Int.{minus}
use tani_dvr.Frames.{Dstf, IsValid, contents, Outcome, done, wild, no_fuel}
use mathlib.Core.Path.{ap₂}
use tani_dvr.Prelude.{
  Bool-cases, List, [], ap, arith, if◌then◌else◌, inl, inr, length, ltb, ltb→le, ltb→lt, refl, suc,
  true, window, window_cut, zero, ℕ, ◌++◌, ◌+◌, ◌-◌, ◌<◌, ◌^◌, ◌∙◌, ◌≡◌, ◌≤◌, ◌⊎◌,
}
use tani_dvr.BinTools.{lm2nv_u32, int_to_size}
use tani_dvr.Frames.Dhav.{
  done, Outcome, finish, Dstf, pull, process_dhav, is_head, is_tail, Verdict, garbage, incomplete,
  stray, whole, judge, judge_length, skip, Scan, need_more, resync, frame, off_array, out_of_fuel,
  scan,
}

-- The front of the queue went on; its end is where it was.
abbrev pub Moved : ℕ → ℕ → ℕ → ℕ → Type 0
Moved offs len o l = (offs + len ≡ o + l) × (offs ≤ o)

skip-Moved : (sq : List ℕ) (offs n : ℕ) → Moved offs n (skip sq offs n).0 (skip sq offs n).1
unfolding skip
skip-Moved sq offs zero = omega arith
skip-Moved sq offs (suc n) = ground (arith, skip-Moved sq (offs + 1) n)

abbrev ScanOk : List ℕ → ℕ → ℕ → ℕ → Scan → Type 0
ScanOk sq maxlen offs len (need_more o l) = Moved offs len o l
ScanOk sq maxlen offs len (resync o l) = Moved offs len o l × (l < 16)
ScanOk sq maxlen offs len (frame o l rep) = Moved offs len o l × (judge sq maxlen o l ≡ whole rep)
ScanOk sq maxlen offs len off_array = (o l : ℕ) × Moved offs len o l × (judge sq maxlen o l ≡ stray)
ScanOk sq maxlen offs len out_of_fuel = ⊥

Moved-ScanOk :
    (sq : List ℕ) (maxlen offs len offs' len' : ℕ) (r : Scan)
    → Moved offs len offs' len'
    → ScanOk sq maxlen offs' len' r
    → ScanOk sq maxlen offs len r
Moved-ScanOk sq maxlen offs len offs' len' (need_more o l) m h = omega arith
Moved-ScanOk sq maxlen offs len offs' len' (resync o l) m h = omega arith
Moved-ScanOk sq maxlen offs len offs' len' (frame o l rep) m h = (omega arith, h.1)
Moved-ScanOk sq maxlen offs len offs' len' off_array m (o, l, n, s) = (o, l, omega arith, s)
Moved-ScanOk sq maxlen offs len offs' len' out_of_fuel m h = h

-- One round, by what it saw at the front.
round-ScanOk :
    (sq : List ℕ) (maxlen offs len : ℕ) (skipped : Scan) (v : Verdict)
    → judge sq maxlen offs len ≡ v
    → ScanOk sq maxlen offs len skipped
    → ScanOk sq maxlen offs len (elim v [
      | garbage ↦ skipped
      | incomplete ↦ need_more offs len
      | stray ↦ off_array
      | whole rep ↦ frame offs len rep
    ])
round-ScanOk sq maxlen offs len skipped garbage e h = h
round-ScanOk sq maxlen offs len skipped incomplete e h = omega arith
round-ScanOk sq maxlen offs len skipped stray e h = (offs, len, omega arith, e)
round-ScanOk sq maxlen offs len skipped (whole rep) e h = (omega arith, e)

-- With more fuel than bytes the loop ends, and says what it saw.
scan-ScanOk :
    (sq : List ℕ) (maxlen fuel offs len : ℕ)
    → len < fuel
    → ScanOk sq maxlen offs len (scan sq maxlen fuel offs len)
unfolding scan
scan-ScanOk sq maxlen zero offs len h = elim h [ ]
scan-ScanOk sq maxlen (suc fuel) offs len h = elim (Bool-cases (ltb len 16)) [
  | inl short ↦ rw short (omega arith)
  | inr long ↦
      let offs' = (skip sq (offs + 1) (len - 1)).0 in
      let len' = (skip sq (offs + 1) (len - 1)).1 in
      let moved : Moved offs len offs' len' =
        ground (arith, skip-Moved sq (offs + 1) (len - 1), ltb→le len 16 long) in
      let left : len' < fuel =
        ground (arith, skip-Moved sq (offs + 1) (len - 1), ltb→le len 16 long) in
      let later =
        Moved-ScanOk sq maxlen offs len offs' len' (scan sq maxlen fuel offs' len') moved
          (scan-ScanOk sq maxlen fuel offs' len' left) in
      rw long (
        round-ScanOk sq maxlen offs len
          (if ltb len' 16 then resync offs' len' else scan sq maxlen fuel offs' len')
          (judge sq maxlen offs len) refl
          (elim (Bool-cases (ltb len' 16)) [
            | inl few ↦ rw few (moved, ltb→lt len' 16 few)
            | inr enough ↦ rw enough later
          ]))
]

-- What a frame that was accepted has.
pub record Accepted (sq : List ℕ) (maxlen offs len rep : ℕ) : Type 0 where
  pub head : is_head sq offs ≡ true
  pub size : int_to_size (lm2nv_u32 sq (offs + 12)) ≡ rep
  pub fits : rep ≤ maxlen
  pub present : rep ≤ len
  pub after_start : 8 ≤ offs + rep
  pub tail : is_tail sq (offs + rep - 8) ≡ true
  pub size_again : int_to_size (lm2nv_u32 sq (offs + rep - 4)) ≡ rep

judge-Accepted :
    (sq : List ℕ) (maxlen offs len rep : ℕ)
    → judge sq maxlen offs len ≡ whole rep
    → Accepted sq maxlen offs len rep
unfolding judge judge_length
judge-Accepted sq maxlen offs len rep e = record {
  head = ground arith;
  size = ground arith;
  fits = ground arith;
  present = ground arith;
  after_start = ground arith;
  tail = ground arith;
  size_again = ground arith;
}

-- What a call leaves for the bytes `bytes` in the queue: a valid queue, and every byte is skipped, or
-- handed over, or still there, in that order. `wild` means a header that asks for a trailer before
-- the array.
abbrev pub Kept : Dstf → Outcome → Type 0
Kept q (done d' out ret) =
    IsValid d'
    × (d'.sq_maxlen ≡ q.sq_maxlen)
    × (skipped : List ℕ) × (contents q ≡ skipped ++ (out ++ contents d'))
Kept q wild = (o l : ℕ) × Moved q.sq_offs q.sq_len o l × (judge q.sq q.sq_maxlen o l ≡ stray)
Kept q no_fuel = ⊥

Moved-contents :
    (q : Dstf) (o l : ℕ)
    → Moved q.sq_offs q.sq_len o l
    → contents q ≡ window q.sq q.sq_offs (o - q.sq_offs) ++ window q.sq o l
Moved-contents q o l m =
    window_cut q.sq q.sq_offs q.sq_len (o - q.sq_offs) (omega arith)
    ∙ ap (◌++◌ (window q.sq q.sq_offs (o - q.sq_offs)))
        (ap₂ (window q.sq) (omega arith) (omega arith))

finish-Kept :
    (q : Dstf) (max_dst_len : ℕ) (r : Scan)
    → IsValid q
    → ScanOk q.sq q.sq_maxlen q.sq_offs q.sq_len r
    → Kept q (finish q max_dst_len r)
unfolding finish
finish-Kept q max_dst_len (need_more o l) v m =
    (omega arith, refl, window q.sq q.sq_offs (o - q.sq_offs), Moved-contents q o l m)
finish-Kept q max_dst_len (resync o l) v (m, few) =
    (omega arith, refl, window q.sq q.sq_offs (o - q.sq_offs), Moved-contents q o l m)
finish-Kept q max_dst_len (frame o l rep) v (m, e) =
    let seen = judge-Accepted q.sq q.sq_maxlen o l rep e in
    let skipped = window q.sq q.sq_offs (o - q.sq_offs) in
    elim (Bool-cases (ltb max_dst_len rep)) [
      | inl small ↦ rw small (omega arith, refl, skipped, Moved-contents q o l m)
      | inr fits ↦ rw fits (
        omega (arith, seen.present),
        refl,
        skipped,
        Moved-contents q o l m ∙ ap (◌++◌ skipped) (window_cut q.sq o l rep seen.present),
      )
    ]
finish-Kept q max_dst_len off_array v (o, l, m, s) = (o, l, m, s)
finish-Kept q max_dst_len out_of_fuel v h = h

pub pull-Kept : (q : Dstf) (max_dst_len : ℕ) → IsValid q → Kept q (pull q max_dst_len)
unfolding pull
pull-Kept q max_dst_len v =
    finish-Kept q max_dst_len (scan q.sq q.sq_maxlen (q.sq_len + 1) q.sq_offs q.sq_len) v
      (scan-ScanOk q.sq q.sq_maxlen (q.sq_len + 1) q.sq_offs q.sq_len (omega arith))

-- A call of dstf_process_dhav_stream_to_frames on a valid queue and any bytes either refuses them
-- for want of room and leaves the queue, or takes them and terminates: the queue is valid, its size
-- is the same, and its bytes are skipped bytes, then those handed over, then those kept; the only
-- other outcome is a header whose length sends the trailer's place before the array.
pub process_dhav-Kept :
    (d : Dstf) (src : List ℕ) (max_dst_len : ℕ)
    → IsValid d
    → length src < 2 ^ 32
    → ((d.sq_maxlen < d.sq_len + length src)
        × (process_dhav d src max_dst_len ≡ done d [] (minus 1)))
      ⊎ ((q : Dstf) × Loaded d src q × Kept q (process_dhav d src max_dst_len))
unfolding process_dhav
process_dhav-Kept d src max_dst_len v h = elim (load_lem d src v h) [
  | inl (full, e) ↦ inl (full, rw (e, process_dhav))
  | inr (q, e, loaded) ↦
      inr (q, loaded, rw (e, process_dhav) (pull-Kept q max_dst_len loaded.valid))
]
