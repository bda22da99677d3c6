-- ===== src/Identify/First.antt =====
-- The search finds the first occurrence.
use tani_dvr.Identify.{matches, find_from, find_bin_seq_in_mem}
use tani_dvr.Prelude.{
  Bool-cases, List, Option, ap, arith, dec_lt, false, inl, inr, length, ltb, none, some, sub_size,
  suc, true, zero, ℕ, ◌+◌, ◌-◌, ◌<◌, ◌^◌, ◌∙◌, ◌≡◌, ◌≤◌,
}

-- What the search says of the places from `lo` up to `hi`.
abbrev pub FirstMatch : List ℕ → List ℕ → ℕ → ℕ → Option ℕ → Type 0
FirstMatch mem seq lo hi none = (j : ℕ) → lo ≤ j → j < hi → matches mem j seq ≡ false
FirstMatch mem seq lo hi (some r) =
    (lo ≤ r)
    × (r < hi)
    × (matches mem r seq ≡ true)
    × ((j : ℕ) → lo ≤ j → j < r → matches mem j seq ≡ false)

with_first :
    (mem seq : List ℕ) (i hi : ℕ) (r : Option ℕ)
    → i < hi
    → matches mem i seq ≡ false
    → FirstMatch mem seq (i + 1) hi r
    → FirstMatch mem seq i hi r
with_first mem seq i hi none h e f = λ j a b. elim (dec_lt i j) [
  | yes p ↦ f j (omega arith) b
  | no p ↦ ap (λ k. matches mem k seq) (let q : j ≡ i = omega arith in q) ∙ e
]
with_first mem seq i hi (some r) h e (lo, up, here, before) = (
  omega arith,
  up,
  here,
  λ j a b. elim (dec_lt i j) [
    | yes p ↦ before j (omega arith) b
    | no p ↦ ap (λ k. matches mem k seq) (let q : j ≡ i = omega arith in q) ∙ e
  ],
)

find_from-FirstMatch :
    (mem seq : List ℕ) (i n hi : ℕ) → i + n ≡ hi → FirstMatch mem seq i hi (find_from mem seq i n)
unfolding find_from
find_from-FirstMatch mem seq i zero hi e = λ j a b. absurd (omega arith)
find_from-FirstMatch mem seq i (suc n) hi e = elim (Bool-cases (matches mem i seq)) [
  | inl here ↦ rw (here, find_from) (omega arith, omega arith, here, λ j a b. absurd (omega arith))
  | inr not_here ↦
      rw (not_here, find_from)
        (with_first mem seq i hi (find_from mem seq (i + 1) n) (omega arith) not_here
          (find_from-FirstMatch mem seq (i + 1) n hi (omega arith)))
]

-- For a sequence of at least one byte in a block below 2^63 bytes find_bin_seq_in_mem gives the
-- first place where the whole sequence stands inside the block, and NULL only if there is no such
-- place.
pub find_bin_seq_in_mem-FirstMatch :
    (mem seq : List ℕ)
    → 0 < length seq
    → length mem < 2 ^ 63
    → FirstMatch mem seq 0 (length mem + 1 - length seq) (find_bin_seq_in_mem mem seq)
unfolding find_bin_seq_in_mem
find_bin_seq_in_mem-FirstMatch mem seq h small = elim (Bool-cases (ltb (length mem) (length seq))) [
  | inl short ↦ rw short (λ j a b. absurd (ground (arith, short)))
  | inr long ↦ rw long (
      find_from-FirstMatch mem seq 0 (sub_size (length mem) (sub_size (length seq) 1))
        (length mem + 1 - length seq) (ground (arith, long)))
]
