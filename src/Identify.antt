-- ===== src/Identify.antt =====
-- src/mctools.c, find_bin_seq_in_mem and identify_mc_format.
pub mod First
pub mod Marks
use tani_dvr.BinTools.{byte_at}
use tani_dvr.Prelude.{
  ==_iff, All, All-append, All-get_or, All-split, Bool, Bool-cases, List, Option, [], add-one, ap,
  append-nil, append_assoc, append_inj, arith, dec_lt, drop, drop-drop, drop-length_append,
  drop-past, false, flatten, get_or, get_or-append, get_or-cons, get_or-past, get_or-set,
  get_or-splice, get_or-splice_in, get_or-splice_out, get_or-tabulate, if◌then◌else◌, inl, inr, leb,
  leb→le, length, length-append, length-drop, length-replicate, length-set, length-splice,
  length-tabulate, length-take, list_ext, ltb, ltb→le, ltb→lt, lt→ltb, map, none, not, refl,
  replicate, set, some, splice, sub_size, suc, sym, tabulate, tabulate-add, tabulate-get_or,
  tabulate_congr, take, take-append-drop, take-length_append, take-past, true, window, window-front,
  window_cut, window_split, window_total, zero, ℕ, ◌%◌, ◌&&◌, ◌*◌, ◌++◌, ◌+◌, ◌-◌, ◌/◌, ◌<◌, ◌==◌,
  ◌^◌, ◌||◌, ◌↔◌, ◌∙◌, ◌∷◌, ◌≡◌, ◌≢◌, ◌≤◌, ◌⊎◌,
}

pub data McFormat : Type 0 where
  mc_form_dhav mc_form_mkv mc_form_raw_h264 mc_form_dvr_native mc_form_dvr_unknown : McFormat

-- `memcmp (mem + i, seq, seq_len) == 0`.
unfoldable pub matches : List ℕ → ℕ → List ℕ → Bool
matches mem i [] = true
matches mem i (b ∷ seq) = byte_at mem i == b && matches mem (i + 1) seq

-- The loop at index `i`, with `n` rounds left.
unfoldable pub find_from : List ℕ → List ℕ → ℕ → ℕ → Option ℕ
find_from mem seq i zero = none
find_from mem seq i (suc n) = elim (matches mem i seq) [
  | true ↦ some i
  | false ↦ find_from mem seq (i + 1) n
]

unfoldable pub find_bin_seq_in_mem : List ℕ → List ℕ → Option ℕ
find_bin_seq_in_mem mem seq =
    if ltb (length mem) (length seq)
    then none
    else find_from mem seq 0 (sub_size (length mem) (sub_size (length seq) 1))

unfoldable pub is_found : Option ℕ → Bool
is_found none = false
is_found (some p) = true

abbrev pub head_mark : List ℕ
head_mark = b'D' ∷ b'H' ∷ b'A' ∷ b'V' ∷ []

abbrev pub tail_mark : List ℕ
tail_mark = b'd' ∷ b'h' ∷ b'a' ∷ b'v' ∷ []

abbrev pub maker_mark : List ℕ
maker_mark = b'D' ∷ b'a' ∷ b'h' ∷ b'u' ∷ b'a' ∷ b'_' ∷ b'Z' ∷ b'H' ∷ []

unfoldable pub identify_mc_format : List ℕ → McFormat
identify_mc_format src =
    if is_found (find_bin_seq_in_mem src head_mark) && is_found (find_bin_seq_in_mem src tail_mark)
    then mc_form_dhav
    else if is_found (find_bin_seq_in_mem src maker_mark)
    then mc_form_raw_h264
    else mc_form_dvr_unknown
