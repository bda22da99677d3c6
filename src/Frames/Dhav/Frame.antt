-- ===== src/Frames/Dhav/Frame.antt =====
-- What a DHAV frame is, as the queue's loop recognises it, and that the loop does recognise it.
use tani_dvr.Prelude.{
  List, [], ap, append-nil, arith, get_or-append, length, length-append, refl, sym, true, window,
  window-front, window_total, ℕ, ◌++◌, ◌+◌, ◌-◌, ◌<◌, ◌^◌, ◌∙◌, ◌≡◌, ◌≤◌,
}
use tani_dvr.BinTools.{byte_at, lm2nv_u32, int_to_size, id_eq_lm32}
use tani_dvr.Frames.Dhav.{is_head, is_tail, judge, judge_length, whole, incomplete}

-- A whole frame: header, trailer, and its length in both.
pub record IsFrame (f : List ℕ) : Type 0 where
  pub long : 16 ≤ length f
  pub small : length f < 2 ^ 31
  pub head : is_head f 0 ≡ true
  pub size : lm2nv_u32 f 12 ≡ length f
  pub tail : is_tail f (length f - 8) ≡ true
  pub size_again : lm2nv_u32 f (length f - 4) ≡ length f

-- Four bytes of one array stand in another.
pub record Same4 (xs : List ℕ) (p : ℕ) (ys : List ℕ) (q : ℕ) : Type 0 where
  pub at0 : byte_at xs p ≡ byte_at ys q
  pub at1 : byte_at xs (p + 1) ≡ byte_at ys (q + 1)
  pub at2 : byte_at xs (p + 2) ≡ byte_at ys (q + 2)
  pub at3 : byte_at xs (p + 3) ≡ byte_at ys (q + 3)

module _ (xs : List ℕ) (p : ℕ) (ys : List ℕ) (q : ℕ) (s : Same4 xs p ys q) where
  pub lm2nv_u32-Same4 : lm2nv_u32 xs p ≡ lm2nv_u32 ys q
  unfolding lm2nv_u32
  lm2nv_u32-Same4 = omega (arith, s.at0, s.at1, s.at2, s.at3)

  pub id_eq_lm32-Same4 : (a b c d : ℕ) → id_eq_lm32 a b c d xs p ≡ id_eq_lm32 a b c d ys q
  unfolding id_eq_lm32
  id_eq_lm32-Same4 a b c d = rw (s.at0, s.at1, s.at2, s.at3)

module _ (sq : List ℕ) (offs len : ℕ) (f rest : List ℕ) (e : window sq offs len ≡ f ++ rest) where
  pub Same4-front : (i j : ℕ) → i + 4 ≤ length f → j ≡ offs + i → Same4 sq j f i
  Same4-front i j h q =
      let front = window-front sq offs len f rest e in
      record {
        at0 = front i j (omega arith) q;
        at1 = front (i + 1) (j + 1) (omega arith) (omega arith);
        at2 = front (i + 2) (j + 2) (omega arith) (omega arith);
        at3 = front (i + 3) (j + 3) (omega arith) (omega arith);
      }

pub Same4-append : (p more : List ℕ) (i : ℕ) → i + 4 ≤ length p → Same4 (p ++ more) i p i
Same4-append p more i h = record {
  at0 = ground (arith, get_or-append p more i 0);
  at1 = ground (arith, get_or-append p more (i + 1) 0);
  at2 = ground (arith, get_or-append p more (i + 2) 0);
  at3 = ground (arith, get_or-append p more (i + 3) 0);
}

int_to_size_small : (n : ℕ) → n < 2 ^ 31 → int_to_size n ≡ n
unfolding int_to_size
int_to_size_small n h = ground arith

-- A whole frame at the front is seen as such.
pub judge-whole :
    (sq : List ℕ) (maxlen offs len : ℕ) (f rest : List ℕ)
    → window sq offs len ≡ f ++ rest
    → IsFrame f
    → len ≤ maxlen
    → judge sq maxlen offs len ≡ whole (length f)
unfolding judge judge_length
judge-whole sq maxlen offs len f rest e v h =
    let same = Same4-front sq offs len f rest e in
    let n = length f in
    let at_tail = offs + n - 8 in
    let room : len ≡ n + length rest = window_total sq offs len f rest e in
    let head : is_head sq offs ≡ true =
      id_eq_lm32-Same4 sq offs f 0 (same 0 offs (omega arith) (omega arith)) b'D' b'H' b'A' b'V'
      ∙ v.head in
    let tail : is_tail sq at_tail ≡ true =
      id_eq_lm32-Same4 sq at_tail f (n - 8) (same (n - 8) at_tail (omega arith) (omega arith)) b'd'
        b'h' b'a' b'v'
      ∙ v.tail in
    let size : int_to_size (lm2nv_u32 sq (offs + 12)) ≡ n =
      ap int_to_size
        (lm2nv_u32-Same4 sq (offs + 12) f 12 (same 12 (offs + 12) (omega arith) refl) ∙ v.size)
      ∙ int_to_size_small n v.small in
    let again : int_to_size (lm2nv_u32 sq (offs + n - 4)) ≡ n =
      ap int_to_size (
        lm2nv_u32-Same4 sq (offs + n - 4) f (n - 4)
          (same (n - 4) (offs + n - 4) (omega arith) (omega arith))
        ∙ v.size_again)
      ∙ int_to_size_small n v.small in
    rw (head, size) (ground (arith, tail, again))

-- The front of a frame, long enough to show its length and not the whole of it.
pub judge-incomplete :
    (sq : List ℕ) (maxlen offs len : ℕ) (p more : List ℕ)
    → window sq offs len ≡ p
    → IsFrame (p ++ more)
    → 16 ≤ length p
    → 0 < length more
    → length (p ++ more) ≤ maxlen
    → judge sq maxlen offs len ≡ incomplete
unfolding judge judge_length
judge-incomplete sq maxlen offs len p more e v l m h =
    let e' : window sq offs len ≡ p ++ [] = e ∙ sym (append-nil p) in
    let room : len ≡ length p + 0 = window_total sq offs len p [] e' in
    let total = length-append p more in
    let same = Same4-front sq offs len p [] e' in
    let head : is_head sq offs ≡ true =
      id_eq_lm32-Same4 sq offs p 0 (same 0 offs (omega arith) (omega arith)) b'D' b'H' b'A' b'V'
      ∙ sym (
          id_eq_lm32-Same4 (p ++ more) 0 p 0 (Same4-append p more 0 (omega arith)) b'D' b'H' b'A'
            b'V')
      ∙ v.head in
    let size : int_to_size (lm2nv_u32 sq (offs + 12)) ≡ length (p ++ more) =
      ap int_to_size (
        lm2nv_u32-Same4 sq (offs + 12) p 12 (same 12 (offs + 12) (omega arith) refl)
        ∙ sym (lm2nv_u32-Same4 (p ++ more) 12 p 12 (Same4-append p more 12 (omega arith)))
        ∙ v.size)
      ∙ int_to_size_small (length (p ++ more)) v.small in
    rw (head, size) (ground (arith, total, room))
