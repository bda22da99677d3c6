-- ===== src/Stream/Cut.antt =====
-- Where a stream of frames is cut: the whole frames before the cut, and the front of the next one.
use tani_dvr.Prelude.{
  List, [], ap, append_assoc, append_inj, arith, dec_lt, drop, flatten, length, length-drop,
  length-take, refl, sym, take, take-append-drop, ℕ, ◌++◌, ◌<◌, ◌∙◌, ◌∷◌, ◌≡◌, ◌≤◌,
}

-- `p` is the front of the first of `fs`, and not all of it.
pub data Front (p : List ℕ) (fs : List (List ℕ)) : Type 0 where
  at_end : p ≡ [] → fs ≡ [] → Front p fs
  inside :
      (g more : List ℕ) (rest : List (List ℕ))
      → fs ≡ g ∷ rest
      → g ≡ p ++ more
      → 0 < length more
      → Front p fs

pub record Cut (xs ys : List ℕ) (fs : List (List ℕ)) : Type 0 where
  pub before : List (List ℕ)
  pub after : List (List ℕ)
  pub part : List ℕ
  pub splits : fs ≡ before ++ after
  pub left : xs ≡ flatten before ++ part
  pub right : part ++ ys ≡ flatten after
  pub front : Front part after

-- A stream that begins with `g`, cut behind it.
cut_behind :
    (g xs ys c : List ℕ)
    → xs ++ ys ≡ g ++ c
    → length g ≤ length xs
    → (xs ≡ g ++ drop (length g) xs) × (drop (length g) xs ++ ys ≡ c)
cut_behind g xs ys c e h =
    let n = length g in
    let whole : take n xs ++ drop n xs ≡ xs = take-append-drop n xs in
    let parts =
      append_inj (take n xs) (drop n xs ++ ys) g c (omega (arith, length-take n xs))
        (sym (append_assoc (take n xs) (drop n xs) ys) ∙ ap (λ w. w ++ ys) whole ∙ e) in
    (sym whole ∙ ap (λ w. w ++ drop n xs) parts.0, parts.1)

-- The same, cut inside it.
cut_inside :
    (g xs ys c : List ℕ) → xs ++ ys ≡ g ++ c → length xs ≤ length g → g ≡ xs ++ drop (length xs) g
cut_inside g xs ys c e h = (cut_behind xs g c ys (sym e) h).0

pub cut : (fs : List (List ℕ)) (xs ys : List ℕ) → xs ++ ys ≡ flatten fs → Cut xs ys fs
unfolding flatten
cut [] [] ys e = record {
  before = [];
  after = [];
  part = [];
  splits = refl;
  left = refl;
  right = e;
  front = at_end refl refl;
}
cut [] (x ∷ xs) ys e = cc
cut (g ∷ gs) xs ys e = elim (dec_lt (length xs) (length g)) [
  | yes p ↦ record {
    before = [];
    after = g ∷ gs;
    part = xs;
    splits = refl;
    left = refl;
    right = e;
    front =
        inside g (drop (length xs) g) gs refl (cut_inside g xs ys (flatten gs) e (omega arith))
          (omega (arith, length-drop (length xs) g));
  }
  | no p ↦
      let parts = cut_behind g xs ys (flatten gs) e (omega arith) in
      let later = cut gs (drop (length g) xs) ys parts.1 in
      record {
        before = g ∷ later.before;
        after = later.after;
        part = later.part;
        splits = ap (◌∷◌ g) later.splits;
        left =
            parts.0
            ∙ ap (◌++◌ g) later.left
            ∙ sym (append_assoc g (flatten later.before) later.part);
        right = later.right;
        front = later.front;
      }
]
