-- ===== src/Prelude/Windows.antt =====
-- Blocks of an array: `memcpy` into it, the overlapping copy, and the bytes of a window read out.
use Prim.Native.Nat.{ℕ, zero, suc, ◌+◌, ◌-◌, ◌≤◌, ◌<◌}
use mathlib.Core.Path.{◌≡◌, refl, sym, ap, ◌∙◌}
use mathlib.Core.List.{List, [], ◌∷◌, ◌++◌}
use Prim.Native.Nat.add
use native.Mathlib.Nat.{zero-add}
use mathlib.Core.Logic.{◌⊎◌}
use native.Mathlib.Omega.{arith}
use tani_dvr.Prelude.Tests.{ltb, if◌then◌else◌}
use tani_dvr.Prelude.Lists.{
  get_or-append, length-append, append_inj, length, get_or, set, length-set, get_or-set,
  get_or-cons,
}

-- `memcpy (mem + pos, xs, length xs)`, byte after byte.
unfoldable pub splice : List ℕ → ℕ → List ℕ → List ℕ
splice mem pos [] = mem
splice mem pos (x ∷ xs) = splice (set mem pos x) (pos + 1) xs

pub length-splice : (mem : List ℕ) (pos : ℕ) (xs : List ℕ) → length (splice mem pos xs) ≡ length mem
unfolding splice
length-splice mem pos [] = refl
length-splice mem pos (x ∷ xs) = length-splice (set mem pos x) (pos + 1) xs ∙ length-set mem pos x

-- The block is written, and nothing else.
pub get_or-splice :
    (mem : List ℕ) (pos : ℕ) (xs : List ℕ) (j : ℕ)
    → pos + length xs ≤ length mem
    → get_or (splice mem pos xs) j 0 ≡ (
        if ltb j pos
        then get_or mem j 0
        else if ltb j (pos + length xs)
        then get_or xs (j - pos) 0
        else get_or mem j 0)
unfolding splice
get_or-splice mem pos [] j h = ground arith
get_or-splice mem pos (x ∷ xs) j h = ground (
  arith,
  get_or-splice (set mem pos x) (pos + 1) xs j,
  length-set mem pos x,
  get_or-set mem pos j x 0,
  get_or-cons x xs (j - pos) 0,
  ap (λ k. get_or xs k 0) (let e : j - pos - 1 ≡ j - (pos + 1) = omega arith in e),
)

pub get_or-splice_in :
    (mem : List ℕ) (pos : ℕ) (xs : List ℕ) (i j : ℕ)
    → pos + length xs ≤ length mem
    → i < length xs
    → j ≡ pos + i
    → get_or (splice mem pos xs) j 0 ≡ get_or xs i 0
get_or-splice_in mem pos xs i j h hi e = ground (
  arith,
  get_or-splice mem pos xs j,
  ap (λ k. get_or xs k 0) (let e' : j - pos ≡ i = omega arith in e'),
)

pub get_or-splice_out :
    (mem : List ℕ) (pos : ℕ) (xs : List ℕ) (j : ℕ)
    → pos + length xs ≤ length mem
    → (j < pos) ⊎ (pos + length xs ≤ j)
    → get_or (splice mem pos xs) j 0 ≡ get_or mem j 0
get_or-splice_out mem pos xs j h out = ground (arith, get_or-splice mem pos xs j)

-- `f 0, f 1, …, f (n - 1)`.
abbrev pub tabulate : ℕ → (ℕ → ℕ) → List ℕ
tabulate zero f = []
tabulate (suc n) f = f 0 ∷ tabulate n (λ i. f (suc i))

-- The bytes `mem[pos .. pos + n)`.
abbrev pub window : List ℕ → ℕ → ℕ → List ℕ
window mem pos n = tabulate n (λ i. get_or mem (pos + i) 0)

pub length-tabulate : (n : ℕ) (f : ℕ → ℕ) → length (tabulate n f) ≡ n
length-tabulate zero f = refl
length-tabulate (suc n) f = ap suc (length-tabulate n (λ i. f (suc i)))

pub tabulate_congr :
    (n : ℕ) (f g : ℕ → ℕ) → ((i : ℕ) → i < n → f i ≡ g i) → tabulate n f ≡ tabulate n g
tabulate_congr zero f g h = refl
tabulate_congr (suc n) f g h =
    let head : f 0 ≡ g 0 = h 0 (omega arith) in
    let rest : tabulate n (λ i. f (suc i)) ≡ tabulate n (λ i. g (suc i)) =
      tabulate_congr n (λ i. f (suc i)) (λ i. g (suc i)) (λ i p. h (suc i) (omega arith)) in
    λ i. head i ∷ rest i

pub tabulate-add :
    (m n : ℕ) (f : ℕ → ℕ) → tabulate (m + n) f ≡ tabulate m f ++ tabulate n (λ i. f (m + i))
tabulate-add zero n f =
    rw zero-add
      (tabulate_congr n f (λ i. f (0 + i)) (λ i p. ap f (let e : i ≡ 0 + i = omega arith in e)))
tabulate-add (suc m) n f = rw add.suc (
    ap (◌∷◌ (f 0)) (
      tabulate-add m n (λ i. f (suc i))
      ∙ ap (◌++◌ (tabulate m (λ i. f (suc i)))) (
          tabulate_congr n (λ i. f (suc (m + i))) (λ i. f (suc m + i))
            (λ i p. ap f (let e : suc (m + i) ≡ suc m + i = omega arith in e)))))

pub tabulate-get_or : (xs : List ℕ) → tabulate (length xs) (λ i. get_or xs i 0) ≡ xs
tabulate-get_or [] = refl
tabulate-get_or (x ∷ xs) = ap (◌∷◌ x) (tabulate-get_or xs)

pub get_or-tabulate : (n : ℕ) (f : ℕ → ℕ) (i : ℕ) → i < n → get_or (tabulate n f) i 0 ≡ f i
get_or-tabulate zero f i h = elim h [ ]
get_or-tabulate (suc n) f zero h = refl
get_or-tabulate (suc n) f (suc i) h = get_or-tabulate n (λ k. f (suc k)) i (omega arith)

-- Two lists with the same bytes at the same places.
pub list_ext :
    (xs ys : List ℕ)
    → length xs ≡ length ys
    → ((i : ℕ) → i < length xs → get_or xs i 0 ≡ get_or ys i 0)
    → xs ≡ ys
list_ext xs ys e h =
    sym (tabulate-get_or xs)
    ∙ tabulate_congr (length xs) (λ i. get_or xs i 0) (λ i. get_or ys i 0) h
    ∙ ap (λ n. tabulate n (λ i. get_or ys i 0)) e
    ∙ tabulate-get_or ys

module _ (mem : List ℕ) (pos len : ℕ) where
  -- A window that begins with `xs` has its bytes at the front.
  pub window-front :
      (xs ys : List ℕ)
      → window mem pos len ≡ xs ++ ys
      → (i j : ℕ) → i < length xs
      → j ≡ pos + i
      → get_or mem j 0 ≡ get_or xs i 0
  window-front xs ys e i j h q =
      let total : len ≡ length xs + length ys =
        sym (length-tabulate len (λ k. get_or mem (pos + k) 0))
        ∙ ap length e
        ∙ length-append xs ys in
      ground (
        arith,
        ap (λ k. get_or mem k 0) q,
        get_or-tabulate len (λ k. get_or mem (pos + k) 0) i (omega arith),
        ap (λ w. get_or w i 0) e,
        get_or-append xs ys i 0,
      )

  pub window_total : (xs ys : List ℕ) → window mem pos len ≡ xs ++ ys → len ≡ length xs + length ys
  window_total xs ys e =
      sym (length-tabulate len (λ k. get_or mem (pos + k) 0)) ∙ ap length e ∙ length-append xs ys

  pub window_cut :
      (m : ℕ) → m ≤ len → window mem pos len ≡ window mem pos m ++ window mem (pos + m) (len - m)
  window_cut m h =
      ap (window mem pos) (let e : len ≡ m + (len - m) = omega arith in e)
      ∙ tabulate-add m (len - m) (λ i. get_or mem (pos + i) 0)
      ∙ ap (◌++◌ (window mem pos m)) (
          tabulate_congr (len - m) (λ i. get_or mem (pos + (m + i)) 0)
            (λ i. get_or mem (pos + m + i) 0)
            (λ i p.
              ap (λ k. get_or mem k 0) (let e : pos + (m + i) ≡ pos + m + i = omega arith in e)))

  pub window_split :
      (xs ys : List ℕ)
      → window mem pos len ≡ xs ++ ys
      → (window mem pos (length xs) ≡ xs) × (window mem (pos + length xs) (len - length xs) ≡ ys)
  window_split xs ys e =
      append_inj (window mem pos (length xs)) (window mem (pos + length xs) (len - length xs)) xs ys
        (length-tabulate (length xs) (λ i. get_or mem (pos + i) 0))
        (sym (window_cut (length xs) (omega (arith, window_total xs ys e))) ∙ e)
