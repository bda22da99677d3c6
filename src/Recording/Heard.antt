-- ===== src/Recording/Heard.antt =====
-- What the waits and the reads give until one fails, and what the identification leaves of it.
use tani_dvr.Prelude.{
  Bool-cases, List, Option, [], ap, false, if_cases, if_false, if_true, if◌then◌else◌, inl, inr,
  length, none, refl, some, sym, true, ℕ, ◌||◌, ◌∙◌, ◌∷◌, ◌≡◌, ◌≤◌,
}
use mathlib.Core.Path.{subst}
use tani_dvr.Frames.{Dstf}
use tani_dvr.Convert.{is_unknown, is_dhav}
use tani_dvr.Convert.Input.{Identified}
use tani_dvr.Recording.{
  Activity, Identification, known, lost, awaited, looked_for, format_behind, identify_read,
  is_rather_full, identify_pipe, stream_buffer_maxpiperead, poll_pipe_read,
}
use tani_dvr.Recording.Input.{looked_for-Identified}
use tani_dvr.Stream.{is_negative}

-- What is read, up to the first wait or read that fails.
abbrev pub reads_of : List Activity → List (List ℕ)
reads_of [] = []
reads_of (a ∷ activities) =
    if is_negative (poll_pipe_read a)
    then []
    else elim a.got [ none ↦ [] | some c ↦ c ∷ reads_of activities ]

abbrev pub Small : List ℕ → Type 0
Small c = length c ≤ stream_buffer_maxpiperead

-- A wait or a read that fails, or a read that goes on.
pub data Next (a : Activity) (activities : List Activity) : Type 0 where
  poll_failed : is_negative (poll_pipe_read a) ≡ true → Next a activities
  read_failed : is_negative (poll_pipe_read a) ≡ false → a.got ≡ none → Next a activities
  read_bytes :
      (c : List ℕ)
      → is_negative (poll_pipe_read a) ≡ false
      → a.got ≡ some c
      → reads_of (a ∷ activities) ≡ c ∷ reads_of activities
      → Next a activities

next_of :
    (a : Activity) (activities : List Activity) (got : Option (List ℕ))
    → a.got ≡ got
    → is_negative (poll_pipe_read a) ≡ false
    → Next a activities
next_of a activities none e polled = read_failed polled e
next_of a activities (some c) e polled = read_bytes c polled e (
    if_false _ _ _ polled
    ∙ ap {B = List (List ℕ)} (λ g. elim g [ none ↦ [] | some c ↦ c ∷ reads_of activities ]) e)

pub next : (a : Activity) (activities : List Activity) → Next a activities
next a activities = elim (Bool-cases (is_negative (poll_pipe_read a))) [
  | inl failed ↦ poll_failed failed
  | inr polled ↦ next_of a activities a.got refl polled
]

-- `all` is what is read from the start; it is in the queue and in the reads that are left.
abbrev pub Told : List ℕ → Identification → Type 0
Told all (known mc_format_in d activities) =
    Identified stream_buffer_maxpiperead d (reads_of activities) all
Told all lost = Unit
Told all (awaited d) = Identified stream_buffer_maxpiperead d [] all

-- A format that was identified is DHAV, or none.
abbrev pub IsDhavIn : Identification → Type 0
IsDhavIn (known mc_format_in d activities) =
    (is_unknown mc_format_in || is_dhav mc_format_in) ≡ true
IsDhavIn lost = Unit
IsDhavIn (awaited d) = Unit

pub identify_pipe-Told :
    (activities : List Activity) (d : Dstf) (all : List ℕ)
    → d.sq_offs ≡ 0
    → Identified stream_buffer_maxpiperead d (reads_of activities) all
    → Told all (identify_pipe d activities)
unfolding identify_pipe identify_read
identify_pipe-Told [] d all o h = if_cases (Told all) (is_rather_full d) (λ e. h) (λ e. h)
identify_pipe-Told (a ∷ activities) d all o h =
    let again = λ (d' : Dstf). identify_pipe d' activities in
    if_cases (Told all) (is_rather_full d) (λ e. h)
      (λ e. elim (next a activities) [
        | poll_failed failed ↦ subst (Told all) (sym (if_true _ _ _ failed)) tt
        | read_failed polled got ↦
            subst (Told all)
              (sym (if_false _ _ _ polled ∙ ap (λ g. identify_read d g activities again) got)) tt
        | read_bytes c polled got reads ↦
            let (o', h') =
              looked_for-Identified d c (reads_of activities) all o e
                (subst (λ cs. Identified stream_buffer_maxpiperead d cs all) reads h) in
            subst (Told all)
              (sym (if_false _ _ _ polled ∙ ap (λ g. identify_read d g activities again) got))
              (if_cases (Told all) (is_unknown (format_behind (looked_for d c) c))
                (λ f. identify_pipe-Told activities (looked_for d c) all o' h') (λ f. h'))
      ])
