-- ===== src/TsProc/Correction.antt =====
-- What a correction by whole frames does: `v` moves to the place on its grid that is nearest to
-- the wanted one, on the side of 0.
use tani_dvr.Prelude.Int.{abs_ℤ, quot, pos, minus, negsuc, sub_ℕ, u64_add}
use tani_dvr.TsProc.{plus_frames}
use native.Mathlib.Nat.{div-add-mod', mod-lt, mul-le-mul_right}
use tani_dvr.Prelude.{ap, arith, refl, suc, zero, ℕ, ◌*◌, ◌+◌, ◌-◌, ◌/◌, ◌<◌, ◌^◌, ◌∙◌, ◌≡◌, ◌≤◌}

-- A quotient and what is left.
quot_bounds : (n r : ℕ) → 0 < r → (n / r * r ≤ n) × (n < n / r * r + r)
quot_bounds n r h = let e = div-add-mod' n r in let f = mod-lt n h in (omega arith, omega arith)

three_frames : (q r : ℕ) → 2 < q → 3 * r ≤ q * r
three_frames q r h = mul-le-mul_right r h

pub suc_frames : (n r : ℕ) → suc n * r ≡ r + n * r
suc_frames n r = grind arith

u64_add-minus : (v m : ℕ) → m ≤ v → v < 2 ^ 64 → u64_add v (minus m) + m ≡ v
unfolding u64_add
u64_add-minus v zero h k = omega arith
u64_add-minus v (suc m) h k = ground arith

u64_add-forward :
    (v r q : ℕ) → v + r + q * r < 2 ^ 64 → u64_add v (plus_frames r (pos q)) ≡ v + r + q * r
unfolding u64_add plus_frames
u64_add-forward v r q h = omega arith

u64_add-backward :
    (v r q : ℕ)
    → q * r ≤ v + r
    → v + r < 2 ^ 64
    → u64_add v (plus_frames r (minus q)) + q * r ≡ v + r
unfolding u64_add plus_frames
u64_add-backward v r zero h k = omega arith
u64_add-backward v r (suc n) h k =
    let e = suc_frames n r in
    let f = u64_add-minus v (n * r) (omega arith) (omega arith) in omega arith

sub_ℕ-ge : (x y : ℕ) → y ≤ x → sub_ℕ x y ≡ pos (x - y)
sub_ℕ-ge x y h = ground arith

sub_ℕ-lt : (x y : ℕ) → x < y → sub_ℕ x y ≡ negsuc (y - x - 1)
sub_ℕ-lt x y h = ground arith

abs_ℤ-minus : (n : ℕ) → abs_ℤ (minus n) ≡ n
abs_ℤ-minus zero = refl
abs_ℤ-minus (suc n) = refl

quot-ahead : (x y r : ℕ) → y ≤ x → quot (sub_ℕ x y) r ≡ pos ((x - y) / r)
quot-ahead x y r h = ap (λ d. quot d r) (sub_ℕ-ge x y h)

quot-behind : (x y r : ℕ) → x < y → quot (sub_ℕ x y) r ≡ minus ((y - x) / r)
quot-behind x y r h =
    ap (λ d. quot d r) (sub_ℕ-lt x y h)
    ∙ ap (λ d. minus (d / r)) (let e : suc (y - x - 1) ≡ y - x = omega arith in e)

-- The wanted place is `v + r + x - y`; the corrected one is less than a frame away, and at least
-- three frames from `v + r` if the correction is that large.
pub correction-ahead :
    (v r x y : ℕ)
    → 0 < r
    → y ≤ x
    → v + r + x < 2 ^ 64
    → let v' = u64_add v (plus_frames r (quot (sub_ℕ x y) r)) in
      (v' + y ≤ v + r + x)
      × (v + r + x < v' + y + r)
      × (2 < abs_ℤ (quot (sub_ℕ x y) r) → v + r + 3 * r ≤ v')
correction-ahead v r x y hr h k =
    let q = (x - y) / r in
    let b = quot_bounds (x - y) r hr in
    let e =
      ap (λ j. u64_add v (plus_frames r j)) (quot-ahead x y r h)
      ∙ u64_add-forward v r q (omega arith) in
    let f = ap abs_ℤ (quot-ahead x y r h) in
    (omega arith, omega arith, λ l. let g = three_frames q r (omega arith) in omega arith)

pub correction-behind :
    (v r x y : ℕ)
    → 0 < r
    → x < y
    → y ≤ v + r + x
    → v + r < 2 ^ 64
    → let v' = u64_add v (plus_frames r (quot (sub_ℕ x y) r)) in
      (v + r + x ≤ v' + y)
      × (v' + y < v + r + x + r)
      × (2 < abs_ℤ (quot (sub_ℕ x y) r) → v' + 3 * r ≤ v + r)
correction-behind v r x y hr h k l =
    let q = (y - x) / r in
    let b = quot_bounds (y - x) r hr in
    let e =
      ap (λ j. u64_add v (plus_frames r j) + q * r) (quot-behind x y r h)
      ∙ u64_add-backward v r q (omega arith) l in
    let f = ap abs_ℤ (quot-behind x y r h) ∙ abs_ℤ-minus q in
    (omega arith, omega arith, λ m. let g = three_frames q r (omega arith) in omega arith)
