-- ===== src/Protocol/Channels/Lines.antt =====
-- The conversion in place gives the lines that one would write into another block.
use mathlib.Core.Path.{subst}
use tani_dvr.BinTools.{byte_at}
use tani_dvr.Protocol.Channels.{names_loop, close_names, format_names}
use tani_dvr.Prelude.{
  All, Bool, Bool-cases, List, Option, [], ap, append-nil, append_assoc, arith, false,
  if◌then◌else◌, inl, inr, length, length-append, length-set, ltb, refl, set, some, suc, sym, true,
  zero, ℕ, ◌++◌, ◌+◌, ◌<◌, ◌==◌, ◌∙◌, ◌∷◌, ◌≡◌,
}

-- Each run of '&' is one line end.
unfoldable pub to_lines : Bool → List ℕ → List ℕ
to_lines prev [] = []
to_lines prev (c ∷ cs) =
    let skipped = to_lines true cs in
    let copied = to_lines false cs in
    if c == b'&' then if prev then skipped else 10 ∷ skipped else c ∷ copied

-- No terminator inside.
abbrev pub NonZero : ℕ → Type 0
NonZero c = (c == 0) ≡ false

byte_behind : (xs ys : List ℕ) (c : ℕ) → byte_at (xs ++ c ∷ ys) (length xs) ≡ c
byte_behind [] ys c = refl
byte_behind (x ∷ xs) ys c = byte_behind xs ys c

set_behind : (xs ys : List ℕ) (c v : ℕ) → set (xs ++ c ∷ ys) (length xs) v ≡ xs ++ v ∷ ys
set_behind [] ys c v = refl
set_behind (x ∷ xs) ys c v = ap (◌∷◌ x) (set_behind xs ys c v)

-- The bytes between `dst` and `src` once `dst` is written and both move on.
moved_gap : List ℕ → ℕ → List ℕ
moved_gap [] c = []
moved_gap (g ∷ gs) c = gs ++ c ∷ []

length-moved_gap : (gap : List ℕ) (c : ℕ) → length (moved_gap gap c) ≡ length gap
unfolding moved_gap
length-moved_gap [] c = refl
length-moved_gap (g ∷ gs) c = omega (arith, length-append gs (c ∷ []))

set-moved_gap :
    (out gap more : List ℕ) (c v : ℕ)
    → set (out ++ (gap ++ c ∷ more)) (length out) v ≡ (out ++ v ∷ []) ++ (moved_gap gap c ++ more)
unfolding moved_gap
set-moved_gap out [] more c v = set_behind out more c v ∙ sym (append_assoc out (v ∷ []) more)
set-moved_gap out (g ∷ gs) more c v =
    set_behind out (gs ++ c ∷ more) g v
    ∙ sym (append_assoc out (v ∷ []) (gs ++ c ∷ more))
    ∙ ap (◌++◌ (out ++ v ∷ [])) (sym (append_assoc gs (c ∷ []) more))

-- What the loop leaves: the lines, and other bytes up to the end of the block.
abbrev Left : List ℕ → ℕ → Option (List ℕ × ℕ) → Type 0
Left lines size r =
    (rest : List ℕ) × (r ≡ some (lines ++ rest, length lines)) × (length (lines ++ rest) ≡ size)

same-Left :
    (lines lines' : List ℕ) (size size' : ℕ) (r : Option (List ℕ × ℕ))
    → lines ≡ lines'
    → size ≡ size'
    → Left lines size r
    → Left lines' size' r
same-Left lines lines' size size' r p q l =
    subst (λ x. Left x size' r) p (subst (λ n. Left lines n r) q l)

byte_seen :
    (out gap more mem : List ℕ) (c src : ℕ)
    → mem ≡ out ++ (gap ++ c ∷ more)
    → src ≡ length (out ++ gap)
    → byte_at mem src ≡ c
byte_seen out gap more mem c src e es =
    (λ i. byte_at (e i) (es i))
    ∙ ap (λ m. byte_at m (length (out ++ gap))) (sym (append_assoc out gap (c ∷ more)))
    ∙ byte_behind (out ++ gap) more c

names_loop-lines :
    (s : List ℕ) (k : ℕ) (out gap tail : List ℕ) (mem : List ℕ) (src dst : ℕ) (prev : Bool)
    → mem ≡ out ++ (gap ++ (s ++ 0 ∷ tail))
    → src ≡ length (out ++ gap)
    → dst ≡ length out
    → length s < k
    → All NonZero s
    → Left (out ++ to_lines prev s) (length mem) (names_loop k mem src dst prev)
unfolding names_loop to_lines
names_loop-lines s zero out gap tail mem src dst prev e es ed h a = absurd (omega arith)
names_loop-lines [] (suc k) out gap tail mem src dst prev e es ed h a =
    let seen = byte_seen out gap tail mem 0 src e es in
    let whole : mem ≡ (out ++ []) ++ (gap ++ 0 ∷ tail) =
      e ∙ ap (λ o. o ++ (gap ++ 0 ∷ tail)) (sym (append-nil out)) in
    (
      gap ++ 0 ∷ tail,
      rw seen (λ i. some (whole i, (ed ∙ ap length (sym (append-nil out))) i)),
      ap length (sym whole),
    )
names_loop-lines (c ∷ s) (suc k) out gap tail mem src dst prev e es ed h a =
    let more = s ++ 0 ∷ tail in
    let seen = byte_seen out gap more mem c src e es in
    let put : ℕ → List ℕ = λ v. set mem dst v in
    let step : (v : ℕ) (p : Bool)
        → Left (out ++ v ∷ to_lines p s) (length mem) (names_loop k (put v) (src + 1) (dst + 1) p) =
      λ v p.
        same-Left ((out ++ v ∷ []) ++ to_lines p s) (out ++ v ∷ to_lines p s) (length (put v))
          (length mem) (names_loop k (put v) (src + 1) (dst + 1) p)
          (append_assoc out (v ∷ []) (to_lines p s)) (length-set mem dst v)
          (names_loop-lines s k (out ++ v ∷ []) (moved_gap gap c) tail (put v) (src + 1) (dst + 1) p
            ((λ i. set (e i) (ed i) v) ∙ set-moved_gap out gap more c v)
            (omega (
              arith,
              length-append (out ++ v ∷ []) (moved_gap gap c),
              length-append out (v ∷ []),
              length-append out gap,
              length-moved_gap gap c,
            ))
            (omega (arith, length-append out (v ∷ []))) (omega arith) a.1) in
    elim (Bool-cases (c == b'&')) [
      | inl amp ↦ elim (Bool-cases prev) [
        | inl p ↦
            rw (seen, p)
              (rw (a.0, amp)
                (names_loop-lines s k out (gap ++ c ∷ []) tail mem (src + 1) dst true
                  (e ∙ ap (◌++◌ out) (sym (append_assoc gap (c ∷ []) more)))
                  (omega (
                    arith,
                    length-append out (gap ++ c ∷ []),
                    length-append gap (c ∷ []),
                    length-append out gap,
                  ))
                  ed (omega arith) a.1))
        | inr p ↦ rw (seen, p) (rw (a.0, amp) (step 10 true))
      ]
      | inr plain ↦ rw seen (rw (a.0, plain) (step c false))
    ]

closed :
    (lines rest : List ℕ) (next : ℕ)
    → next ≡ suc (length lines)
    → 1 < length rest
    → (left : List ℕ) × (set (set (lines ++ rest) (length lines) 10) next 0
        ≡ lines ++ 10 ∷ 0 ∷ left)
closed lines [] next e h = absurd (omega arith)
closed lines (x ∷ []) next e h = absurd (omega arith)
closed [] (x ∷ y ∷ rest) next e h = (rest, ap (λ n. set (10 ∷ y ∷ rest) n 0) e)
closed (l ∷ lines) (x ∷ y ∷ rest) next e h =
    let (left, q) = closed lines (x ∷ y ∷ rest) (suc (length lines)) refl (omega arith) in
    (left, ap (λ n. set (l ∷ set (lines ++ x ∷ y ∷ rest) (length lines) 10) n 0) e ∙ ap (◌∷◌ l) q)

-- On a block that holds names without a terminator inside, and a terminator, with room for the lines
-- and two more bytes: the conversion in place stays inside the block and leaves the names with each
-- run of '&' made one line end, then a line end and a terminator.
pub format_names-lines :
    (s tail : List ℕ)
    → All NonZero s
    → length (to_lines false s) + 1 < length (s ++ 0 ∷ tail)
    → (rest : List ℕ) × (format_names (s ++ 0 ∷ tail) ≡ some (to_lines false s ++ 10 ∷ 0 ∷ rest))
unfolding format_names close_names
format_names-lines s tail a room =
    let mem = s ++ 0 ∷ tail in
    let (rest, e, size) =
      names_loop-lines s (length mem) [] [] tail mem 0 0 false refl refl refl
        (omega (arith, length-append s (0 ∷ tail))) a in
    let lines = to_lines false s in
    let fits : ltb (length lines + 1) (length (lines ++ rest)) ≡ true = ground (arith, size) in
    let (left, q) =
      closed lines rest (length lines + 1) (omega arith)
        (omega (arith, size, length-append lines rest)) in
    (left, ap close_names e ∙ (rw fits (λ i. some (q i))))
