-- ===== src/Devinfo/Text.antt =====
-- The strings that come from the DVR are safe to print and fit their arrays.
use tani_dvr.Devinfo.{clean, extract_string}
use tani_dvr.Prelude.{
  All, Bool-cases, List, [], ap, arith, if◌then◌else◌, inl, inr, leb, length, length-take, ltb, map,
  not, refl, suc, take, true, ℕ, ◌&&◌, ◌-◌, ◌<◌, ◌==◌, ◌||◌, ◌∷◌, ◌≡◌, ◌≤◌, ◌⊎◌,
}

-- A tab, or a printable character or DEL.
abbrev pub IsText : ℕ → Type 0
IsText c = (c ≡ 9) ⊎ ((32 ≤ c) × (c < 128))

clean-IsText : (c : ℕ) → IsText (clean c)
unfolding clean
clean-IsText c = elim (Bool-cases ((ltb c 32 || leb 128 c) && not (c == 9))) [
  | inl bad ↦ rw bad (inr (omega arith, omega arith))
  | inr fine ↦ rw fine (text (ground arith))
]
  where
    text : ((c == 9) ≡ true) ⊎ ((32 ≤ c) × (c < 128)) → IsText c
    text (inl e) = inl (ground arith)
    text (inr h) = inr h

map-clean-IsText : (xs : List ℕ) → All IsText (map clean xs)
map-clean-IsText [] = tt
map-clean-IsText (x ∷ xs) = (clean-IsText x, map-clean-IsText xs)

length-map-clean : (xs : List ℕ) → length (map clean xs) ≡ length xs
length-map-clean [] = refl
length-map-clean (x ∷ xs) = ap suc (length-map-clean xs)

-- For an array of at least one byte extract_string gives only tabs and characters from 32 to 127,
-- fewer than the array has bytes, and one for each byte of the source if they fit.
pub extract_string-IsText :
    (src : List ℕ) (dst_maxlen : ℕ)
    → 0 < dst_maxlen
    → All IsText (extract_string src dst_maxlen)
      × (length (extract_string src dst_maxlen) < dst_maxlen)
      × (length src < dst_maxlen → length (extract_string src dst_maxlen) ≡ length src)
unfolding extract_string
extract_string-IsText src dst_maxlen h =
    let to_do = if ltb (dst_maxlen - 1) (length src) then dst_maxlen - 1 else length src in
    let bounds : (to_do ≤ length src) × (to_do < dst_maxlen) = ground arith in
    let size = length-map-clean (take to_do src) in
    let taken = length-take to_do src in
    (
      map-clean-IsText (take to_do src),
      omega (arith, size, taken, bounds),
      λ fits. ground (arith, size, taken),
    )
