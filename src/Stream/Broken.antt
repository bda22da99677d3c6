-- ===== src/Stream/Broken.antt =====
-- The inner loop over a stream of frames, with a handler that may break it off behind any frame.
use tani_dvr.Prelude.{
  All, All-split, Bool, Bool-cases, List, [], ap, append_assoc, arith, false, flatten, get_or, inl,
  inr, length, length-append, length-tabulate, none, refl, some, suc, sym, true, zero, ℕ, ◌++◌, ◌+◌,
  ◌<◌, ◌^◌, ◌∙◌, ◌∷◌, ◌≡◌, ◌≤◌, ◌⊎◌,
}
use mathlib.Core.Path.{subst}
use tani_dvr.Prelude.Int.{pos, minus}
use tani_dvr.Frames.{Dstf, IsValid, contents, Outcome, done, load}
use tani_dvr.Frames.Queue.{load_lem}
use tani_dvr.Frames.Dhav.{process_dhav, pull}
use tani_dvr.Frames.Dhav.Pull.{advance, pull-frame}
use tani_dvr.Stream.{ended, write_failed, is_positive, drain, Drained}
use tani_dvr.Stream.Cut.{cut, Front}
use tani_dvr.Stream.Fronts.{pull-Front, length-le-flatten}
use tani_dvr.Stream.Handled.{handle_all, Fits, load-nil}

pub flatten-append : (fs gs : List (List ℕ)) → flatten (fs ++ gs) ≡ flatten fs ++ flatten gs
unfolding flatten
flatten-append [] gs = refl
flatten-append (f ∷ fs) gs =
    ap (◌++◌ f) (flatten-append fs gs) ∙ sym (append_assoc f (flatten fs) (flatten gs))

module _ {S : Type 0} (handle : S → List ℕ → S × Bool) (is_fatal : S → Bool)
    (maxlen max_dst_len granularity : ℕ) (P : List ℕ → Type 0)
    (fits : (f : List ℕ) → P f → Fits maxlen max_dst_len granularity f) where
  abbrev process : Dstf → List ℕ → Outcome
  process d src = process_dhav d src max_dst_len

  abbrev drained : ℕ → Dstf → S → List ℕ → Drained S
  drained k d s src = drain process handle is_fatal k d s src

  -- The first of the frames are handled; the queue holds the others, and `p` behind them.
  abbrev pub Broken : S → List (List ℕ) → List ℕ → Drained S → Type 0
  Broken s fs p x =
      (d' : Dstf) × (before after : List (List ℕ)) × ((x
          ≡ ended d' (handle_all handle s before) (pos 0))
        ⊎ (x ≡ write_failed d' (handle_all handle s before)))
      × IsValid d'
      × (d'.sq_maxlen ≡ maxlen)
      × (contents d' ≡ flatten after ++ p)
      × (fs ≡ before ++ after)

  drain-step :
      (k : ℕ) (d q d1 : Dstf) (s : S) (src : List ℕ) (x : ℕ) (xs : List ℕ)
      → load d src ≡ some q
      → pull q max_dst_len ≡ done d1 (x ∷ xs) (pos 1)
      → (handle s (x ∷ xs)).1 ≡ true
      → drained (suc k) d s src ≡ drained k d1 (handle s (x ∷ xs)).0 []
  unfolding drain process_dhav is_positive
  drain-step k d q d1 s src x xs l pulled written = ground (arith, l, pulled, written)

  drain-stop :
      (k : ℕ) (d q d1 : Dstf) (s : S) (src : List ℕ) (x : ℕ) (xs : List ℕ)
      → load d src ≡ some q
      → pull q max_dst_len ≡ done d1 (x ∷ xs) (pos 1)
      → (handle s (x ∷ xs)).1 ≡ false
      → drained (suc k) d s src ≡ write_failed d1 (handle s (x ∷ xs)).0
  unfolding drain process_dhav is_positive
  drain-stop k d q d1 s src x xs l pulled written = ground (arith, l, pulled, written)

  drain-full :
      (k : ℕ) (d : Dstf) (s : S) (src : List ℕ)
      → load d src ≡ none
      → drained (suc k) d s src ≡ ended d s (minus 1)
  unfolding drain process_dhav is_positive
  drain-full k d s src l = ground (arith, l)

  drain-Broken :
      (fs rest : List (List ℕ)) (p : List ℕ) (k : ℕ) (d q : Dstf) (s : S) (src : List ℕ)
      → load d src ≡ some q
      → IsValid q
      → q.sq_maxlen ≡ maxlen
      → contents q ≡ flatten fs ++ p
      → All P fs
      → All P rest
      → Front p rest
      → length fs < k
      → Broken s fs p (drained k d s src)
  unfolding drain process_dhav handle_all flatten is_positive
  drain-Broken fs rest p zero d q s src l v m e a b c h = elim h [ ]
  drain-Broken [] rest p (suc k) d q s src l v m e a b c h =
      let pulled : pull q max_dst_len ≡ done q [] (pos 0) =
        pull-Front maxlen max_dst_len granularity P fits rest p q e m b c in
      (q, [], [], inl (ground (arith, l, pulled)), v, m, e, refl)
  drain-Broken ([] ∷ fs) rest p (suc k) d q s src l v m e a b c h =
      absurd (omega (arith, (fits [] a.0).0.long))
  drain-Broken ((x ∷ xs) ∷ fs) rest p (suc k) d q s src l v m e a b c h =
      let f = x ∷ xs in
      let d1 = advance q (length f) in
      let (pulled, v', bytes) =
        pull-frame q max_dst_len f (flatten fs ++ p) v (e ∙ append_assoc f (flatten fs) p)
          (fits f a.0).0 (fits f a.0).1 in
      elim (Bool-cases (handle s f).1) [
        | inl written ↦
            let step = drain-step k d q d1 s src x xs l pulled written in
            let (d', before, after, out, w, same, left, split) =
              drain-Broken fs rest p k d1 d1 (handle s f).0 [] (load-nil d1) v' m bytes a.1 b c
                (omega arith) in
            (
              d',
              f ∷ before,
              after,
              elim out [ inl r ↦ inl (step ∙ r) | inr r ↦ inr (step ∙ r) ],
              w,
              same,
              left,
              ap (◌∷◌ f) split,
            )
        | inr failed ↦ (
          d1,
          f ∷ [],
          fs,
          inr (drain-stop k d q d1 s src x xs l pulled failed),
          v',
          m,
          bytes,
          refl,
        )
      ]

  -- Behind a round: of the frames in the queue and in what is still read, the first are handled.
  abbrev pub Round : S → List (List ℕ) → List ℕ → Drained S → Type 0
  Round s fs later x =
      (d' : Dstf) × (before after : List (List ℕ)) × ((x
          ≡ ended d' (handle_all handle s before) (pos 0))
        ⊎ (x ≡ write_failed d' (handle_all handle s before)))
      × IsValid d'
      × (d'.sq_maxlen ≡ maxlen)
      × (contents d' ++ later ≡ flatten after)
      × (fs ≡ before ++ after)

  -- One round, from a queue with the front of a stream of frames; the read may not fit behind it.
  pub drain-Round :
      (k : ℕ) (d : Dstf) (s : S) (c later : List ℕ) (fs : List (List ℕ))
      → IsValid d
      → d.sq_maxlen ≡ maxlen
      → length c < 2 ^ 32
      → contents d ++ (c ++ later) ≡ flatten fs
      → All P fs
      → maxlen < k
      → (drained k d s c ≡ ended d s (minus 1)) ⊎ Round s fs later (drained k d s c)
  drain-Round zero d s c later fs v m n e a h = absurd (omega arith)
  drain-Round (suc k) d s c later fs v m n e a h =
      let p = contents d in
      elim (load_lem d c v n) [
        | inl (full, l) ↦ inl (drain-full k d s c l)
        | inr (q, l, loaded) ↦
            let u = cut fs (p ++ c) later (append_assoc p c later ∙ e) in
            let (fit, fit') = All-split P u.before u.after (subst (All P) u.splits a) in
            let held_len : length (contents q) ≡ q.sq_len =
              length-tabulate q.sq_len (λ i. get_or q.sq (q.sq_offs + i) 0) in
            let few : length u.before ≤ maxlen = omega (
              arith,
              length-le-flatten maxlen max_dst_len granularity P fits u.before fit,
              ap length (sym loaded.appended),
              ap length u.left,
              length-append (flatten u.before) u.part,
              held_len,
              loaded.valid.inside,
              loaded.same_size,
            ) in
            let (d', before, after, out, w, same, left, split) =
              drain-Broken u.before u.after u.part (suc k) d q s c l loaded.valid
                (loaded.same_size ∙ m) (loaded.appended ∙ u.left) fit fit' u.front (omega arith) in
            inr (
              d',
              before,
              after ++ u.after,
              out,
              w,
              same,
              ap (λ x. x ++ later) left
                  ∙ append_assoc (flatten after) u.part later
                  ∙ ap (◌++◌ (flatten after)) u.right
                  ∙ sym (flatten-append after u.after),
              u.splits ∙ ap (λ x. x ++ u.after) split ∙ append_assoc before after u.after,
            )
      ]
