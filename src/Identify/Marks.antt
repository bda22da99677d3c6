-- ===== src/Identify/Marks.antt =====
-- What the format says of the marks in the memory, and the format of a stream of DHAV frames.
use tani_dvr.Prelude.{
  Bool, List, Option, ap, arith, false, if◌then◌else◌, inl, inr, length, length-append, none, refl,
  some, sym, true, ℕ, ◌&&◌, ◌++◌, ◌+◌, ◌-◌, ◌<◌, ◌^◌, ◌∙◌, ◌≡◌, ◌≤◌, ◌⊎◌,
}
use mathlib.Core.Path.{subst}
use tani_dvr.BinTools.{byte_at, id_eq_lm32}
use tani_dvr.Frames.Dhav.{is_head, is_tail}
use tani_dvr.Frames.Dhav.Frame.{IsFrame, Same4-append, id_eq_lm32-Same4}
use tani_dvr.Identify.{
  McFormat, mc_form_dhav, mc_form_raw_h264, mc_form_dvr_unknown, matches, find_bin_seq_in_mem,
  is_found, head_mark, tail_mark, maker_mark, identify_mc_format,
}
use tani_dvr.Identify.First.{FirstMatch, find_bin_seq_in_mem-FirstMatch}

-- The whole sequence stands somewhere in the block.
abbrev pub Occurs : List ℕ → List ℕ → Type 0
Occurs mem seq = (j : ℕ) × (j + length seq ≤ length mem) × (matches mem j seq ≡ true)

found_cases :
    (mem seq : List ℕ) (r : Option ℕ)
    → 0 < length seq
    → FirstMatch mem seq 0 (length mem + 1 - length seq) r
    → ((is_found r ≡ true) × Occurs mem seq) ⊎ ((is_found r ≡ false) × (¬ Occurs mem seq))
unfolding is_found
found_cases mem seq none some_seq f =
    inr (refl, λ (j, inside, here). cc (f j (omega arith) (omega arith)))
found_cases mem seq (some p) some_seq (lo, up, here, before) = inl (refl, (p, omega arith, here))

-- What the search finds is there, and what is there is found.
search_cases :
    (mem seq : List ℕ)
    → 0 < length seq
    → length mem < 2 ^ 63
    → ((is_found (find_bin_seq_in_mem mem seq) ≡ true) × Occurs mem seq)
      ⊎ ((is_found (find_bin_seq_in_mem mem seq) ≡ false) × (¬ Occurs mem seq))
search_cases mem seq some_seq small =
    found_cases mem seq (find_bin_seq_in_mem mem seq) some_seq
      (find_bin_seq_in_mem-FirstMatch mem seq some_seq small)

-- The format by the marks.
abbrev pub ByMarks : List ℕ → McFormat → Type 0
ByMarks mem fmt =
    ((fmt ≡ mc_form_dhav) × Occurs mem head_mark × Occurs mem tail_mark)
    ⊎ ((fmt ≡ mc_form_raw_h264)
        × (¬ (Occurs mem head_mark × Occurs mem tail_mark))
        × Occurs mem maker_mark)
    ⊎ ((fmt ≡ mc_form_dvr_unknown)
        × (¬ (Occurs mem head_mark × Occurs mem tail_mark))
        × (¬ Occurs mem maker_mark))

-- A test says whether something holds.
abbrev Tells : Bool → Type 0 → Type 0
Tells b P = ((b ≡ true) × P) ⊎ ((b ≡ false) × (¬ P))

yes_told : {P : Type 0} → Tells true P → P
yes_told (inl (e, p)) = p
yes_told (inr (e, p)) = cc

no_told : {P : Type 0} → Tells false P → ¬ P
no_told (inl (e, p)) = cc
no_told (inr (e, p)) = p

by_tests :
    (mem : List ℕ) (h t m : Bool)
    → Tells h (Occurs mem head_mark)
    → Tells t (Occurs mem tail_mark)
    → Tells m (Occurs mem maker_mark)
    → ByMarks mem
        (if h && t then mc_form_dhav else if m then mc_form_raw_h264 else mc_form_dvr_unknown)
by_tests mem true true m h t maker = inl (refl, yes_told h, yes_told t)
by_tests mem true false true h t m = inr (inl (refl, λ (a, b). no_told t b, yes_told m))
by_tests mem true false false h t m = inr (inr (refl, λ (a, b). no_told t b, no_told m))
by_tests mem false t true h told m = inr (inl (refl, λ (a, b). no_told h a, yes_told m))
by_tests mem false t false h told m = inr (inr (refl, λ (a, b). no_told h a, no_told m))

head-matches : (mem : List ℕ) → is_head mem 0 ≡ true → matches mem 0 head_mark ≡ true
unfolding matches id_eq_lm32
head-matches mem e = ground (arith, e)

tail-matches : (mem : List ℕ) (p : ℕ) → is_tail mem p ≡ true → matches mem p tail_mark ≡ true
unfolding matches id_eq_lm32
tail-matches mem p e = ground (
  arith,
  e,
  ap (byte_at mem) (let q : p + 1 + 1 ≡ p + 2 = omega arith in q),
  ap (byte_at mem) (let q : p + 1 + 1 + 1 ≡ p + 3 = omega arith in q),
)

-- A block that begins with a whole frame.
frame_marks :
    (f rest : List ℕ) → IsFrame f → Occurs (f ++ rest) head_mark × Occurs (f ++ rest) tail_mark
frame_marks f rest frame =
    let long : length (f ++ rest) ≡ length f + length rest = length-append f rest in
    (
      (
        0,
        omega (arith, long, frame.long),
        head-matches (f ++ rest) (
            id_eq_lm32-Same4 (f ++ rest) 0 f 0 (Same4-append f rest 0 (omega (arith, frame.long)))
              b'D' b'H' b'A' b'V'
            ∙ frame.head),
      ),
      (
        length f - 8,
        omega (arith, long, frame.long),
        tail-matches (f ++ rest) (length f - 8) (
            id_eq_lm32-Same4 (f ++ rest) (length f - 8) f (length f - 8)
              (Same4-append f rest (length f - 8) (omega (arith, frame.long))) b'd' b'h' b'a' b'v'
            ∙ frame.tail),
      ),
    )

dhav_by :
    (mem : List ℕ) (fmt : McFormat)
    → ByMarks mem fmt
    → Occurs mem head_mark × Occurs mem tail_mark
    → fmt ≡ mc_form_dhav
dhav_by mem fmt (inl (e, head, tail)) both = e
dhav_by mem fmt (inr (inl (e, not_both, maker))) both = absurd (not_both both)
dhav_by mem fmt (inr (inr (e, not_both, maker))) both = absurd (not_both both)

-- On a block below 2^63 bytes identify_mc_format says DHAV exactly when "DHAV" and "dhav" both stand
-- in it, else raw H.264 exactly when "Dahua_ZH" does, and else unknown; a block that begins with a
-- whole DHAV frame is identified as DHAV.
pub identify_mc_format-ByMarks :
    (mem : List ℕ)
    → length mem < 2 ^ 63
    → ByMarks mem (identify_mc_format mem)
      × ((f rest : List ℕ) → IsFrame f → mem ≡ f ++ rest → identify_mc_format mem ≡ mc_form_dhav)
unfolding identify_mc_format
identify_mc_format-ByMarks mem small =
    let h = search_cases mem head_mark (omega arith) small in
    let t = search_cases mem tail_mark (omega arith) small in
    let m = search_cases mem maker_mark (omega arith) small in
    let by =
      by_tests mem (is_found (find_bin_seq_in_mem mem head_mark))
        (is_found (find_bin_seq_in_mem mem tail_mark))
        (is_found (find_bin_seq_in_mem mem maker_mark)) h t m in
    (
      by,
      λ f rest frame e.
          dhav_by mem _ by (
            subst (λ x. Occurs x head_mark × Occurs x tail_mark) (sym e)
              (frame_marks f rest frame)),
    )
