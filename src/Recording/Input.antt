-- ===== src/Recording/Input.antt =====
-- What the identification over the pipe leaves: the queue with the bytes it has read.
use tani_dvr.Prelude.{
  Bool, Bool-cases, List, Option, [], ap, arith, false, flatten, if_cases, if_false, if_true,
  if◌then◌else◌, inl, inr, length, none, refl, some, sym, true, ℕ, ◌++◌, ◌==◌, ◌∙◌, ◌∷◌, ◌≡◌,
}
use mathlib.Core.Path.{subst}
use tani_dvr.Frames.{Dstf, contents}
use tani_dvr.Convert.{is_unknown}
use tani_dvr.Convert.Input.{Identified, appended, starts-append}
use tani_dvr.Recording.{
  Activity, Identification, known, lost, awaited, looked_for, format_behind, identify_read,
  is_rather_full, identify_pipe, stream_buffer_maxpiperead,
}
use tani_dvr.Identify.{mc_form_dvr_unknown}
use tani_dvr.Stream.{is_negative}
use tani_dvr.Recording.{poll_pipe_read}
use tani_dvr.Recording.Frames.{Reads}

-- `all` is what the reads give from the start.
abbrev pub Left : List ℕ → Identification → Type 0
Left all (known mc_format_in d activities) =
    (cs : List (List ℕ)) × Reads activities cs × Identified stream_buffer_maxpiperead d cs all
Left all lost = Unit
Left all (awaited d) = Unit

no_bytes : (c : List ℕ) → (length c == 0) ≡ true → c ≡ []
no_bytes [] e = refl
no_bytes (x ∷ xs) e = absurd (ground (arith, e))

pub looked_for-Identified :
    (d : Dstf) (c : List ℕ) (cs : List (List ℕ)) (all : List ℕ)
    → d.sq_offs ≡ 0
    → is_rather_full d ≡ false
    → Identified stream_buffer_maxpiperead d (c ∷ cs) all
    → ((looked_for d c).sq_offs ≡ 0) × Identified stream_buffer_maxpiperead (looked_for d c) cs all
unfolding looked_for is_rather_full flatten
looked_for-Identified d c cs all o room h = elim (Bool-cases (length c == 0)) [
  | inl none_read ↦
      subst (λ x. (x.sq_offs ≡ 0) × Identified stream_buffer_maxpiperead x cs all)
        (sym (if_true _ _ _ none_read))
        (
          o,
          record {
            held = h.held;
            rest = ap (λ x. contents d ++ (x ++ flatten cs)) (sym (no_bytes c none_read)) ∙ h.rest;
            asked = h.asked.1;
          },
        )
  | inr some_read ↦
      subst (λ x. (x.sq_offs ≡ 0) × Identified stream_buffer_maxpiperead x cs all)
        (sym (if_false _ _ _ some_read))
        (starts-append d c ∙ o, appended stream_buffer_maxpiperead d c cs all o h room)
]

pub identify_pipe-Left :
    (activities : List Activity) (cs : List (List ℕ)) (d : Dstf) (all : List ℕ)
    → Reads activities cs
    → d.sq_offs ≡ 0
    → Identified stream_buffer_maxpiperead d cs all
    → Left all (identify_pipe d activities)
unfolding identify_pipe identify_read
identify_pipe-Left [] [] d all reads o h =
    if_cases (Left all) (is_rather_full d) (λ e. ([], tt, h)) (λ e. tt)
identify_pipe-Left [] (c ∷ cs) d all reads o h = elim reads [ ]
identify_pipe-Left (a ∷ activities) [] d all reads o h = elim reads [ ]
identify_pipe-Left (a ∷ activities) (c ∷ cs) d all (polled, got, small, reads) o h =
    let again = λ (d' : Dstf). identify_pipe d' activities in
    if_cases (Left all) (is_rather_full d) (λ e. (c ∷ cs, (polled, got, small, reads), h))
      (λ e.
        let (o', h') = looked_for-Identified d c cs all o e h in
        subst (Left all)
          (sym (if_false _ _ _ polled ∙ ap (λ g. identify_read d g activities again) got))
          (if_cases (Left all) (is_unknown (format_behind (looked_for d c) c))
            (λ f. identify_pipe-Left activities cs (looked_for d c) all reads o' h')
            (λ f. (cs, reads, h'))))

-- The identification goes on with `rest` where it still waits for more.
abbrev pub continued : List Activity → Identification → Identification
continued rest (known mc_format_in d activities) = known mc_format_in d (activities ++ rest)
continued rest lost = lost
continued rest (awaited d) = identify_pipe d rest

continued-if :
    (rest : List Activity) (b : Bool) (x y x' y' : Identification)
    → x' ≡ continued rest x
    → y' ≡ continued rest y
    → (if b then x' else y') ≡ continued rest (if b then x else y)
continued-if rest true x y x' y' p q = p
continued-if rest false x y x' y' p q = q

full_at_once :
    (d : Dstf) (rest : List Activity)
    → is_rather_full d ≡ true
    → identify_pipe d rest ≡ known mc_form_dvr_unknown d rest
unfolding identify_pipe
full_at_once d [] e = if_true _ _ _ e
full_at_once d (a ∷ rest) e = if_true _ _ _ e

identify_read-continued :
    (d : Dstf) (got : Option (List ℕ)) (activities rest : List Activity)
    (again again' : Dstf → Identification)
    → ((d' : Dstf) → again' d' ≡ continued rest (again d'))
    → identify_read d got (activities ++ rest) again'
      ≡ continued rest (identify_read d got activities again)
unfolding identify_read
identify_read-continued d none activities rest again again' e = refl
identify_read-continued d (some c) activities rest again again' e =
    continued-if rest (is_unknown (format_behind (looked_for d c) c)) (again (looked_for d c))
      (known (format_behind (looked_for d c) c) (looked_for d c) activities)
      (again' (looked_for d c))
      (known (format_behind (looked_for d c) c) (looked_for d c) (activities ++ rest))
      (e (looked_for d c)) refl

pub identify_pipe-continued :
    (activities rest : List Activity) (d : Dstf)
    → identify_pipe d (activities ++ rest) ≡ continued rest (identify_pipe d activities)
unfolding identify_pipe
identify_pipe-continued [] rest d = elim (Bool-cases (is_rather_full d)) [
  | inl full ↦ full_at_once d rest full ∙ sym (ap (continued rest) (if_true _ _ _ full))
  | inr room ↦ sym (ap (continued rest) (if_false _ _ _ room))
]
identify_pipe-continued (a ∷ activities) rest d =
    let again = λ (d' : Dstf). identify_pipe d' activities in
    let again' = λ (d' : Dstf). identify_pipe d' (activities ++ rest) in
    continued-if rest (is_rather_full d) (known mc_form_dvr_unknown d (a ∷ activities))
      (if is_negative (poll_pipe_read a) then lost else identify_read d a.got activities again)
      (known mc_form_dvr_unknown d (a ∷ (activities ++ rest)))
      (if is_negative (poll_pipe_read a)
        then lost
        else identify_read d a.got (activities ++ rest) again')
      refl
      (continued-if rest (is_negative (poll_pipe_read a)) lost
        (identify_read d a.got activities again) lost
        (identify_read d a.got (activities ++ rest) again') refl
        (identify_read-continued d a.got activities rest again again'
          (λ d'. identify_pipe-continued activities rest d')))
