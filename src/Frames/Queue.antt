-- ===== src/Frames/Queue.antt =====
-- Loading appends the new bytes to those that wait, whether the queue is packed for it or not.
use tani_dvr.Prelude.{
  sub_size, Bool-cases, ◌⊎◌, ◌^◌, ℕ, zero, suc, ◌+◌, ◌-◌, ◌≤◌, ◌<◌, ◌≡◌, refl, ap, sym, ◌∙◌, List,
  [], ◌∷◌, ◌++◌, arith, some, none, ltb, if◌then◌else◌, length, set, splice, tabulate, length-set,
  get_or-set, length-splice, get_or-splice_out, get_or-splice_in, tabulate_congr, tabulate-add,
  tabulate-get_or, append-nil, inl, inr,
}
use tani_dvr.BinTools.{byte_at}
use tani_dvr.Frames.{Dstf, IsValid, memcpy_overlap, pack, append, load, contents}

pub length-memcpy_overlap :
    (mem : List ℕ) (dst src n : ℕ) → length (memcpy_overlap mem dst src n) ≡ length mem
unfolding memcpy_overlap
length-memcpy_overlap mem dst src zero = refl
length-memcpy_overlap mem dst src (suc n) =
    length-memcpy_overlap (set mem dst (byte_at mem src)) (dst + 1) (src + 1) n
    ∙ length-set mem dst (byte_at mem src)

-- Where the destination is not above the source and the source block lies in the array, the forward
-- copy loop moves the block as it was before, even if the two overlap, and changes no other byte.
pub memcpy_overlap_lem :
    (mem : List ℕ) (dst src n j : ℕ)
    → dst ≤ src
    → src + n ≤ length mem
    → byte_at (memcpy_overlap mem dst src n) j ≡ (
        if ltb j dst
        then byte_at mem j
        else if ltb j (dst + n)
        then byte_at mem (j - dst + src)
        else byte_at mem j)
unfolding memcpy_overlap
memcpy_overlap_lem mem dst src zero j h k = ground arith
memcpy_overlap_lem mem dst src (suc n) j h k =
    let mem' = set mem dst (byte_at mem src) in
    ground (
      arith,
      memcpy_overlap_lem mem' (dst + 1) (src + 1) n j,
      length-set mem dst (byte_at mem src),
      get_or-set mem dst j (byte_at mem src) 0,
      get_or-set mem dst (j - (dst + 1) + (src + 1)) (byte_at mem src) 0,
      λ (p : dst < j).
          ap (byte_at mem) (let e : j - (dst + 1) + (src + 1) ≡ j - dst + src = omega arith in e),
      λ (p : j ≡ dst). ap (byte_at mem) (let e : j - dst + src ≡ src = omega arith in e),
    )

pub contents-pack : (d : Dstf) → IsValid d → contents (pack d) ≡ contents d
unfolding pack
contents-pack d v =
    tabulate_congr d.sq_len (λ i. byte_at (memcpy_overlap d.sq 0 d.sq_offs d.sq_len) (0 + i))
      (λ i. byte_at d.sq (d.sq_offs + i))
      (λ i p. ground (
        arith,
        memcpy_overlap_lem d.sq 0 d.sq_offs d.sq_len (0 + i) (omega arith) (omega arith),
        ap (byte_at d.sq) (let e : 0 + i - 0 + d.sq_offs ≡ d.sq_offs + i = omega arith in e),
      ))

pub pack-IsValid : (d : Dstf) → IsValid d → IsValid (pack d)
unfolding pack
pack-IsValid d v = ground (arith, length-memcpy_overlap d.sq 0 d.sq_offs d.sq_len)

module _ (d : Dstf) (src : List ℕ) (v : IsValid d) where
  pub append-IsValid : d.sq_offs + d.sq_len + length src ≤ d.sq_maxlen → IsValid (append d src)
  unfolding append
  append-IsValid h = ground (arith, length-splice d.sq (d.sq_offs + d.sq_len) src)

  pub contents-append :
      d.sq_offs + d.sq_len + length src ≤ d.sq_maxlen → contents (append d src) ≡ contents d ++ src
  unfolding append
  contents-append h =
      let at = d.sq_offs + d.sq_len in
      let mem = splice d.sq at src in
      let fits : at + length src ≤ length d.sq = omega arith in
      let old : tabulate d.sq_len (λ i. byte_at mem (d.sq_offs + i)) ≡ contents d =
        tabulate_congr d.sq_len (λ i. byte_at mem (d.sq_offs + i))
          (λ i. byte_at d.sq (d.sq_offs + i))
          (λ i p. get_or-splice_out d.sq at src (d.sq_offs + i) fits (inl (omega arith))) in
      let new : tabulate (length src) (λ i. byte_at mem (d.sq_offs + (d.sq_len + i))) ≡ src =
        tabulate_congr (length src) (λ i. byte_at mem (d.sq_offs + (d.sq_len + i))) (byte_at src)
          (λ i p. get_or-splice_in d.sq at src i (d.sq_offs + (d.sq_len + i)) fits p (omega arith))
        ∙ tabulate-get_or src in
      tabulate-add d.sq_len (length src) (λ i. byte_at mem (d.sq_offs + i)) ∙ (λ i. old i ++ new i)

-- What loading leaves behind.
pub record Loaded (d : Dstf) (src : List ℕ) (d' : Dstf) : Type 0 where
  pub valid : IsValid d'
  pub same_size : d'.sq_maxlen ≡ d.sq_maxlen
  pub appended : contents d' ≡ contents d ++ src

maxlen-pack : (d : Dstf) → (pack d).sq_maxlen ≡ d.sq_maxlen
unfolding pack
maxlen-pack d = refl

Loaded-append :
    (d : Dstf) (src : List ℕ)
    → IsValid d
    → d.sq_offs + d.sq_len + length src ≤ d.sq_maxlen
    → Loaded d src (append d src)
Loaded-append d src v h = record {
  valid = append-IsValid d src v h;
  same_size = unfold append in refl;
  appended = contents-append d src v h;
}

Loaded-pack :
    (d : Dstf) (src : List ℕ)
    → IsValid d
    → d.sq_len + length src ≤ d.sq_maxlen
    → Loaded d src (append (pack d) src)
Loaded-pack d src v h =
    let w = pack-IsValid d v in
    let fits : (pack d).sq_offs + (pack d).sq_len + length src ≤ (pack d).sq_maxlen =
      unfold pack in omega arith in
    record {
      valid = append-IsValid (pack d) src w fits;
      same_size = unfold append pack in refl;
      appended = contents-append (pack d) src w fits ∙ ap (λ xs. xs ++ src) (contents-pack d v);
    }

-- Loading new bytes into a valid queue fails exactly when they do not fit beside the old ones,
-- wherever those lie in the array; otherwise the queue is valid, of the same size, and holds the old
-- bytes followed by the new ones.
pub load_lem :
    (d : Dstf) (src : List ℕ)
    → IsValid d
    → length src < 2 ^ 32
    → ((d.sq_maxlen < d.sq_len + length src) × (load d src ≡ none))
      ⊎ ((d' : Dstf) × (load d src ≡ some d') × Loaded d src d')
unfolding load
load_lem d [] v h =
    inr (d, refl, record { valid = v; same_size = refl; appended = sym (append-nil (contents d)) })
load_lem d (x ∷ xs) v h =
    let src = x ∷ xs in
    elim (Bool-cases (ltb (sub_size d.sq_maxlen d.sq_len) (length src))) [
      | inl full ↦ inl (ground arith, ground arith)
      | inr room ↦
          elim (Bool-cases (ltb (sub_size d.sq_maxlen (d.sq_len + d.sq_offs)) (length src))) [
            | inl far ↦ inr (append (pack d) src, ground arith, Loaded-pack d src v (ground arith))
            | inr near ↦ inr (append d src, ground arith, Loaded-append d src v (ground arith))
          ]
    ]
