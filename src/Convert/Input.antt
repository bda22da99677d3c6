-- ===== src/Convert/Input.antt =====
-- What the identification of the input leaves: the queue with the bytes it has read.
use tani_dvr.Frames.{dstf_init}
use tani_dvr.Frames.{Dstf, contents, append}
use tani_dvr.Frames.Queue.{append-IsValid, contents-append}
use tani_dvr.Stream.Handled.{Holds}
use tani_dvr.Identify.{McFormat, identify_mc_format}
use tani_dvr.Convert.{dstf_init, identify_input, is_unknown, stream_in_fread_granularity}
use tani_dvr.Prelude.{
  All, List, [], ap, append_assoc, arith, false, flatten, get_or, if_cases, length, length-append,
  length-tabulate, ltb, refl, sub_size, ℕ, ◌*◌, ◌++◌, ◌+◌, ◌∙◌, ◌∷◌, ◌≡◌, ◌≤◌,
}

-- Every read gives at most what was asked.
abbrev pub AreReads : List (List ℕ) → Type 0
AreReads = All (λ c. length c ≤ stream_in_fread_granularity)

-- The queue `d` and the reads of at most `granularity` bytes that are left, after the bytes `all`.
pub record Identified (granularity : ℕ) (d : Dstf) (reads : List (List ℕ)) (all : List ℕ)
    : Type 0 where
  pub held : Holds 1_000_000 granularity d (contents d)
  pub rest : contents d ++ flatten reads ≡ all
  pub asked : All (λ c. length c ≤ granularity) reads

length-contents : (d : Dstf) → length (contents d) ≡ d.sq_len
length-contents d = length-tabulate d.sq_len (λ i. get_or d.sq (d.sq_offs + i) 0)

pub starts-append : (d : Dstf) (src : List ℕ) → (append d src).sq_offs ≡ d.sq_offs
unfolding append
starts-append d src = refl

size-append : (d : Dstf) (src : List ℕ) → (append d src).sq_maxlen ≡ d.sq_maxlen
unfolding append
size-append d src = refl

pub appended :
    (g : ℕ) (d : Dstf) (c : List ℕ) (cs : List (List ℕ)) (all : List ℕ)
    → d.sq_offs ≡ 0
    → Identified g d (c ∷ cs) all
    → ltb (sub_size d.sq_maxlen d.sq_len) (2 * g) ≡ false
    → Identified g (append d c) cs all
unfolding flatten
appended g d c cs all o h e =
    let v = h.held.valid in
    let room : d.sq_len + 2 * g ≤ d.sq_maxlen = ground (arith, v.inside, v.small) in
    let fits : d.sq_offs + d.sq_len + length c ≤ d.sq_maxlen = omega (arith, h.asked.0) in
    let bytes = contents-append d c v fits in
    record {
      held = record {
        valid = append-IsValid d c v fits;
        size = size-append d c ∙ h.held.size;
        bytes = refl;
        room = omega (
          arith,
          ap length bytes,
          length-append (contents d) c,
          length-contents d,
          h.asked.0,
          h.held.size,
        );
      };
      rest = ap (λ x. x ++ flatten cs) bytes ∙ (append_assoc (contents d) c (flatten cs) ∙ h.rest);
      asked = h.asked.1;
    }

pub identify_input-Identified :
    (d : Dstf) (reads : List (List ℕ)) (all : List ℕ)
    → d.sq_offs ≡ 0
    → Identified stream_in_fread_granularity d reads all
    → let r = identify_input d reads in Identified stream_in_fread_granularity r.1 r.2 all
unfolding identify_input flatten
identify_input-Identified d [] all o h = h
identify_input-Identified d (c ∷ cs) all o h =
    let P : McFormat × Dstf × List (List ℕ) → Type 0 =
      λ r. Identified stream_in_fread_granularity r.1 r.2 all in
    if_cases P (ltb (sub_size d.sq_maxlen d.sq_len) (2 * stream_in_fread_granularity)) (λ e. h)
      (λ e.
        let next = appended stream_in_fread_granularity d c cs all o h e in
        if_cases P (is_unknown (identify_mc_format (contents (append d c))))
          (λ f. identify_input-Identified (append d c) cs all (starts-append d c ∙ o) next)
          (λ f. next))

pub began :
    (g : ℕ) (block : List ℕ) (reads : List (List ℕ)) (all : List ℕ)
    → length block ≡ 1_000_000
    → g ≤ 1_000_000
    → All (λ c. length c ≤ g) reads
    → flatten reads ≡ all
    → Identified g (dstf_init block) reads all
unfolding dstf_init
began g block reads all size few asked e = record {
  held = record {
    valid = record { whole = size; inside = omega arith; small = omega arith };
    size = refl;
    bytes = refl;
    room = omega arith;
  };
  rest = e;
  asked = asked;
}
