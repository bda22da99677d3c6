-- ===== src/Stream/Reassembly.antt =====
-- A stream of DHAV frames comes out of the loops frame by frame, however it was cut for reading.
use mathlib.Core.Path.{subst}
use tani_dvr.Prelude.{
  All, All-split, Bool, List, [], ap, append-nil, append_assoc, arith, false, flatten, get_or, inl,
  inr, length, length-append, length-tabulate, some, suc, sym, true, zero, ℕ, ◌++◌, ◌+◌, ◌<◌, ◌^◌,
  ◌∙◌, ◌∷◌, ◌≡◌, ◌≤◌,
}
use tani_dvr.Prelude.Int.{pos}
use tani_dvr.Frames.{Dstf, IsValid, contents, Outcome, done, load}
use tani_dvr.Frames.Queue.{load_lem}
use tani_dvr.Frames.Dhav.{process_dhav, pull}
use tani_dvr.Frames.Dhav.Pull.{advance, pull-frame}
use tani_dvr.Stream.{end_of_input, is_negative, run, ended, is_positive, drain}
use tani_dvr.Stream.Cut.{cut, Front}
use tani_dvr.Stream.Fronts.{pull-Front, Front-room, length-le-flatten}
use tani_dvr.Stream.Handled.{handle_all, Fits, Holds, load-nil, handle_all-append, nothing_left}

module _ {ℓ κ} {S : Type ℓ} (handle : S → List ℕ → S × Bool) (is_fatal : S → Bool) (Ok : S → Type κ)
    (maxlen max_dst_len granularity : ℕ) (P : List ℕ → Type 0)
    (fits : (f : List ℕ) → P f → Fits maxlen max_dst_len granularity f)
    (sound : (s : S) (f : List ℕ) → Ok s → P f → ((handle s f).1 ≡ true) × Ok (handle s f).0)
    (not_fatal : (s : S) → Ok s → is_fatal s ≡ false) where
  abbrev process : Dstf → List ℕ → Outcome
  process d src = process_dhav d src max_dst_len

  -- The loop once the new bytes are in the queue: each frame is handled, the front of the next stays.
  drain-frames :
      (fs rest : List (List ℕ)) (p : List ℕ) (k : ℕ) (d q : Dstf) (s : S) (src : List ℕ)
      → load d src ≡ some q
      → IsValid q
      → q.sq_maxlen ≡ maxlen
      → contents q ≡ flatten fs ++ p
      → All P fs
      → All P rest
      → Front p rest
      → length fs < k
      → Ok s
      → (d' : Dstf) × (drain process handle is_fatal k d s src
          ≡ ended d' (handle_all handle s fs) (pos 0))
        × IsValid d'
        × (d'.sq_maxlen ≡ maxlen)
        × (contents d' ≡ p)
  unfolding drain process_dhav handle_all flatten is_positive
  drain-frames fs rest p zero d q s src l v m e a b c h o = elim h [ ]
  drain-frames [] rest p (suc k) d q s src l v m e a b c h o =
      let pulled : pull q max_dst_len ≡ done q [] (pos 0) =
        pull-Front maxlen max_dst_len granularity P fits rest p q e m b c in
      (q, ground (arith, l, pulled), v, m, e)
  drain-frames ([] ∷ fs) rest p (suc k) d q s src l v m e a b c h o =
      absurd (omega (arith, (fits [] a.0).0.long))
  drain-frames ((x ∷ xs) ∷ fs) rest p (suc k) d q s src l v m e a b c h o =
      let f = x ∷ xs in
      let (pulled, v', bytes) =
        pull-frame q max_dst_len f (flatten fs ++ p) v (e ∙ append_assoc f (flatten fs) p)
          (fits f a.0).0 (fits f a.0).1 in
      let (d', drained, w, same, left) =
        drain-frames fs rest p k (advance q (length f)) (advance q (length f)) (handle s f).0 []
          (load-nil (advance q (length f))) v' m bytes a.1 b c (omega arith) (sound s f o a.0).1 in
      (d', ground (arith, l, pulled, (sound s f o a.0).0, drained), w, same, left)

  handle_all-Ok : (fs : List (List ℕ)) (s : S) → All P fs → Ok s → Ok (handle_all handle s fs)
  unfolding handle_all
  handle_all-Ok [] s a o = o
  handle_all-Ok (f ∷ fs) s a o = handle_all-Ok fs (handle s f).0 a.1 (sound s f o a.0).1

  -- One round: what was held, and a read, are the front of a stream of frames.
  pub drain-round :
      (k : ℕ) (d : Dstf) (s : S) (p c later : List ℕ) (fs : List (List ℕ))
      → Holds maxlen granularity d p
      → length c ≤ granularity
      → granularity < 2 ^ 32
      → p ++ (c ++ later) ≡ flatten fs
      → All P fs
      → maxlen < k
      → Ok s
      → (d' : Dstf) × (p' : List ℕ) × (before after : List (List ℕ)) × (drain process handle
            is_fatal k d s c
          ≡ ended d' (handle_all handle s before) (pos 0))
        × Holds maxlen granularity d' p'
        × (fs ≡ before ++ after)
        × (p' ++ later ≡ flatten after)
        × Front p' after
  drain-round k d s p c later fs held n g e a h o =
      let held_len : d.sq_len ≡ length p =
        sym (length-tabulate d.sq_len (λ i. get_or d.sq (d.sq_offs + i) 0))
        ∙ ap length held.bytes in
      let u = cut fs (p ++ c) later (append_assoc p c later ∙ e) in
      let (fit, fit') = All-split P u.before u.after (subst (All P) u.splits a) in
      let few : length u.before ≤ maxlen = omega (
        arith,
        length-le-flatten maxlen max_dst_len granularity P fits u.before fit,
        ap length u.left,
        length-append (flatten u.before) u.part,
        length-append p c,
        held.room,
      ) in
      elim (load_lem d c held.valid (omega arith)) [
        | inl (full, _) ↦ absurd (omega (arith, held.room, held.size))
        | inr (q, l, loaded) ↦
            let (d', drained, v, m, left) =
              drain-frames u.before u.after u.part k d q s c l loaded.valid
                (loaded.same_size ∙ held.size)
                (loaded.appended ∙ ap (λ w. w ++ c) held.bytes ∙ u.left) fit fit' u.front
                (omega arith) o in
            (
              d',
              u.part,
              u.before,
              u.after,
              drained,
              record {
                valid = v;
                size = m;
                bytes = left;
                room =
                    Front-room maxlen max_dst_len granularity P fits u.after u.part
                      (omega (arith, held.room)) fit' u.front;
              },
              u.splits,
              u.right,
              u.front,
            )
      ]

  run-end :
      (k : ℕ) (d : Dstf) (s : S) (d' : Dstf) (s' : S)
      → drain process handle is_fatal k d s [] ≡ ended d' s' (pos 0)
      → Ok s'
      → run process handle is_fatal k d s [] ≡ end_of_input d' s'
  unfolding run is_negative
  run-end k d s d' s' e o = rw (e, run) (rw (not_fatal s' o))

  run-round :
      (k : ℕ) (d : Dstf) (s : S) (c : List ℕ) (cs : List (List ℕ)) (d' : Dstf) (s' : S)
      → drain process handle is_fatal k d s c ≡ ended d' s' (pos 0)
      → Ok s'
      → run process handle is_fatal k d s (c ∷ cs) ≡ run process handle is_fatal k d' s' cs
  unfolding run is_negative
  run-round k d s c cs d' s' e o = rw (e, run) (rw (not_fatal s' o))

  -- Reading a stream of DHAV frames in pieces of any size up to the read granularity, from a queue
  -- that holds the front of it, with buffers that can take each frame and a handler that does not
  -- fail on them: the two loops end with fuel above the queue's size, each frame is handled exactly
  -- once and in order, and the queue is empty at the end.
  pub run-frames :
      (chunks fs : List (List ℕ)) (k : ℕ) (d : Dstf) (s : S) (p : List ℕ)
      → Holds maxlen granularity d p
      → All (λ c. length c ≤ granularity) chunks
      → granularity < 2 ^ 32
      → p ++ flatten chunks ≡ flatten fs
      → All P fs
      → maxlen < k
      → Ok s
      → (d' : Dstf) × (run process handle is_fatal k d s chunks
          ≡ end_of_input d' (handle_all handle s fs))
        × (contents d' ≡ [])
  unfolding flatten
  run-frames [] fs k d s p held n g e a h o =
      let (d', p', before, after, drained, held', split, left, front) =
        drain-round k d s p [] [] fs held (omega arith) g e a h o in
      let (done_p, done_after) = nothing_left after p' left front in
      let all : fs ≡ before = split ∙ ap (◌++◌ before) done_after ∙ append-nil before in
      let (fit, fit') = All-split P before after (subst (All P) split a) in
      let o' = handle_all-Ok before s fit o in
      (
        d',
        run-end k d s d' (handle_all handle s before) drained o'
            ∙ ap (λ l. end_of_input d' (handle_all handle s l)) (sym all),
        held'.bytes ∙ done_p,
      )
  run-frames (c ∷ cs) fs k d s p held n g e a h o =
      let (d', p', before, after, drained, held', split, left, front) =
        drain-round k d s p c (flatten cs) fs held n.0 g e a h o in
      let (fit, fit') = All-split P before after (subst (All P) split a) in
      let o' = handle_all-Ok before s fit o in
      let (end, ran, empty) =
        run-frames cs after k d' (handle_all handle s before) p' held' n.1 g left fit' h o' in
      (
        end,
        run-round k d s c cs d' (handle_all handle s before) drained o'
            ∙ (ran
                ∙ ap (end_of_input end) (
                    sym (handle_all-append handle s before after)
                    ∙ ap (handle_all handle s) (sym split))),
        empty,
      )
