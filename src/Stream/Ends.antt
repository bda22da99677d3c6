-- ===== src/Stream/Ends.antt =====
-- The two loops around the queue on the raw stream come to an end: every frame handed over takes at
-- least four bytes from the queue, and the inner loop stops at the first call without one.
use mathlib.Core.Path.{subst}
use tani_dvr.Prelude.{
  All, Bool, Bool-cases, List, [], ap, arith, false, get_or, if◌then◌else◌, inl, inr, length,
  length-append, length-tabulate, refl, suc, sym, true, window, zero, ℕ, ◌++◌, ◌+◌, ◌<◌, ◌^◌, ◌∙◌,
  ◌∷◌, ◌≡◌, ◌≢◌, ◌⊎◌,
}
use tani_dvr.Prelude.Int.{ℤ, pos, minus}
use tani_dvr.Frames.{Dstf, IsValid, contents, Outcome, done, wild, no_fuel}
use tani_dvr.Frames.Queue.{Loaded}
use tani_dvr.Frames.Raw.{process_raw_h264}
use tani_dvr.Frames.Raw.Sound.{KeptRaw, process_raw_h264-Kept}
use tani_dvr.Stream.{
  is_positive, is_negative, Drained, ended, write_failed, crashed, endless, Stopped, end_of_input,
  queue_failure, convert_failure, write_failure, crash, no_end, drain, run,
}

length-window : (mem : List ℕ) (o n : ℕ) → length (window mem o n) ≡ n
length-window mem o n = length-tabulate n (λ i. get_or mem (o + i) 0)

-- What a call leaves of `n` bytes: either no frame and no reason to go on, or a shorter queue.
abbrev Advances : Dstf → ℕ → Outcome → Type 0
Advances d n (done d' [] ret) =
    IsValid d' × (d'.sq_maxlen ≡ d.sq_maxlen) × (is_positive ret ≡ false)
Advances d n (done d' (b ∷ bs) ret) =
    IsValid d' × (d'.sq_maxlen ≡ d.sq_maxlen) × (d'.sq_len < n) × (d'.sq_len < d.sq_maxlen)
Advances d n wild = ⊥
Advances d n no_fuel = ⊥

stops : (ret : ℤ) → (ret ≡ pos 0) ⊎ (ret ≡ minus 3) → is_positive ret ≡ false
unfolding is_positive
stops ret (inl e) = rw e refl
stops ret (inr e) = rw e refl

queue-Advances :
    (d q : Dstf) (src : List ℕ) (o : Outcome)
    → Loaded d src q
    → KeptRaw q o
    → Advances d (d.sq_len + length src) o
queue-Advances d q src wild l x = elim x [ ]
queue-Advances d q src no_fuel l x = elim x [ ]
queue-Advances d q src (done d' [] ret) l (v, size, skipped, split, inl (_, e)) =
    (v, size ∙ l.same_size, stops ret e)
queue-Advances d q src (done d' [] ret) l (v, size, skipped, split, inr (o, n, e, r, frame)) =
    absurd (omega (arith, ap length e, length-window q.sq o n, frame.long))
queue-Advances d q src (done d' (b ∷ bs) ret) l (v, size, skipped, split, inl (e, _)) =
    absurd (omega (arith, ap length e))
queue-Advances d q src (done d' (b ∷ bs) ret) l (v, size, skipped, split, inr _) =
    let held : q.sq_len ≡ length skipped + (length (b ∷ bs) + d'.sq_len) =
      sym (length-window q.sq q.sq_offs q.sq_len)
      ∙ ap length split
      ∙ length-append skipped ((b ∷ bs) ++ contents d')
      ∙ ap (◌+◌ (length skipped)) (
          length-append (b ∷ bs) (contents d')
          ∙ ap (◌+◌ (length (b ∷ bs))) (length-window d'.sq d'.sq_offs d'.sq_len)) in
    let filled : q.sq_len ≡ d.sq_len + length src =
      sym (length-window q.sq q.sq_offs q.sq_len)
      ∙ ap length l.appended
      ∙ length-append (contents d) src
      ∙ ap (λ n. n + length src) (length-window d.sq d.sq_offs d.sq_len) in
    (
      v,
      size ∙ l.same_size,
      omega (arith, held, filled),
      omega (arith, held, l.valid.inside, l.same_size),
    )

call-Advances :
    (d : Dstf) (src : List ℕ) (max_dst_len : ℕ)
    → IsValid d
    → length src < 2 ^ 32
    → Advances d (d.sq_len + length src) (process_raw_h264 d src max_dst_len)
unfolding is_positive
call-Advances d src max_dst_len v h = elim (process_raw_h264-Kept d src max_dst_len v h) [
  | inl (full, e) ↦ subst (Advances d (d.sq_len + length src)) (sym e) (v, refl, refl)
  | inr (q, l, kept) ↦ queue-Advances d q src (process_raw_h264 d src max_dst_len) l kept
]

-- The inner loop left the queue valid and of the same size.
abbrev Ended {ℓ} : {S : Type ℓ} → Dstf → Drained S → Type 0
Ended d (ended d' s' ret) = IsValid d' × (d'.sq_maxlen ≡ d.sq_maxlen)
Ended d (write_failed d' s') = IsValid d' × (d'.sq_maxlen ≡ d.sq_maxlen)
Ended d crashed = ⊥
Ended d endless = ⊥

Ended-later {ℓ} :
    {S : Type ℓ} (d d' : Dstf) (r : Drained S) → d'.sq_maxlen ≡ d.sq_maxlen → Ended d' r → Ended d r
Ended-later d d' (ended q s' ret) e (v, size) = (v, size ∙ e)
Ended-later d d' (write_failed q s') e (v, size) = (v, size ∙ e)
Ended-later d d' crashed e x = elim x [ ]
Ended-later d d' endless e x = elim x [ ]

-- The outer loop was left by one of its returns.
abbrev Left {ℓ} : {S : Type ℓ} → Stopped S → Type 0
Left crash = ⊥
Left no_end = ⊥
Left (end_of_input d s) = Unit
Left (queue_failure s ret) = Unit
Left (convert_failure s) = Unit
Left (write_failure s) = Unit

module _ {ℓ} {S : Type ℓ} (process : Dstf → List ℕ → Outcome) (handle : S → List ℕ → S × Bool)
    (is_fatal : S → Bool)
    (advances : (d : Dstf) (src : List ℕ)
      → IsValid d
      → length src < 2 ^ 32
      → Advances d (d.sq_len + length src) (process d src)) where
  round-Ended :
      (k : ℕ) (d : Dstf) (s : S) (src : List ℕ) (o : Outcome)
      → process d src ≡ o
      → Advances d (d.sq_len + length src) o
      → (d.sq_len + length src < suc k) ⊎ (d.sq_maxlen < suc k)
      → ((d' : Dstf) (s' : S)
          → IsValid d'
          → d'.sq_len < k
          → Ended d' (drain process handle is_fatal k d' s' []))
      → Ended d (drain process handle is_fatal (suc k) d s src)
  unfolding drain
  round-Ended k d s src wild e x enough later = elim x [ ]
  round-Ended k d s src no_fuel e x enough later = elim x [ ]
  round-Ended k d s src (done d' [] ret) e (v, size, stop) enough later =
      rw (e, drain) (rw stop (v, size))
  round-Ended k d s src (done d' (b ∷ bs) ret) e (v, size, less, small) enough later =
      let s' = (handle s (b ∷ bs)).0 in
      let shorter : d'.sq_len < k = ground arith in
      rw (e, drain)
        (elim (Bool-cases (handle s (b ∷ bs)).1) [
          | inr failed ↦ rw failed (v, size)
          | inl written ↦ rw written (elim (Bool-cases (is_positive ret)) [
            | inr stop ↦ rw stop (v, size)
            | inl more ↦ rw more (
                Ended-later d d' (drain process handle is_fatal k d' s' []) size
                  (later d' s' v shorter))
          ])
        ])

  drain-Ended :
      (k : ℕ) (d : Dstf) (s : S) (src : List ℕ)
      → IsValid d
      → length src < 2 ^ 32
      → (d.sq_len + length src < k) ⊎ (d.sq_maxlen < k)
      → Ended d (drain process handle is_fatal k d s src)
  drain-Ended zero d s src v h enough = absurd (ground arith)
  drain-Ended (suc k) d s src v h enough =
      round-Ended k d s src (process d src) refl (advances d src v h) enough
        (λ d' s' v' g. drain-Ended k d' s' [] v' (omega arith) (inl (omega arith)))

  Left-if : (b : Bool) (x y : Stopped S) → Left x → Left y → Left (if b then x else y)
  Left-if true x y p q = p
  Left-if false x y p q = q

  last_round-Left :
      (k : ℕ) (d : Dstf) (s : S) (r : Drained S)
      → drain process handle is_fatal k d s [] ≡ r
      → Ended d r
      → Left (run process handle is_fatal k d s [])
  unfolding run
  last_round-Left k d s crashed e x = elim x [ ]
  last_round-Left k d s endless e x = elim x [ ]
  last_round-Left k d s (ended d' s' ret) e x =
      rw (e, run)
        (Left-if (is_negative ret) (queue_failure s' ret)
          (if is_fatal s' then convert_failure s' else end_of_input d' s') tt
          (Left-if (is_fatal s') (convert_failure s') (end_of_input d' s') tt tt))
  last_round-Left k d s (write_failed d' s') e x =
      rw (e, run) (Left-if (is_fatal s') (convert_failure s') (end_of_input d' s') tt tt)

  round-Left :
      (k : ℕ) (d : Dstf) (s : S) (c : List ℕ) (cs : List (List ℕ)) (r : Drained S)
      → drain process handle is_fatal k d s c ≡ r
      → Ended d r
      → ((d' : Dstf) (s' : S)
          → IsValid d'
          → d'.sq_maxlen ≡ d.sq_maxlen
          → Left (run process handle is_fatal k d' s' cs))
      → Left (run process handle is_fatal k d s (c ∷ cs))
  unfolding run
  round-Left k d s c cs crashed e x later = elim x [ ]
  round-Left k d s c cs endless e x later = elim x [ ]
  round-Left k d s c cs (ended d' s' ret) e (v, size) later =
      let rest = run process handle is_fatal k d' s' cs in
      rw (e, run)
        (Left-if (is_negative ret) (queue_failure s' ret)
          (if is_fatal s' then convert_failure s' else rest) tt
          (Left-if (is_fatal s') (convert_failure s') rest tt (later d' s' v size)))
  round-Left k d s c cs (write_failed d' s') e x later =
      rw (e, run) (Left-if (is_fatal s') (convert_failure s') (write_failure s') tt tt)

  run-Left :
      (k : ℕ) (d : Dstf) (s : S) (reads : List (List ℕ))
      → IsValid d
      → d.sq_maxlen < k
      → All (λ c. length c < 2 ^ 32) reads
      → Left (run process handle is_fatal k d s reads)
  run-Left k d s [] v enough a =
      last_round-Left k d s (drain process handle is_fatal k d s []) refl
        (drain-Ended k d s [] v (omega arith) (inr enough))
  run-Left k d s (c ∷ cs) v enough (h, a) =
      round-Left k d s c cs (drain process handle is_fatal k d s c) refl
        (drain-Ended k d s c v h (inr enough))
        (λ d' s' v' size. run-Left k d' s' cs v' (omega arith) a)

-- On a valid queue, for any reads of less than 2^32 bytes and whatever is done with the frames, the
-- two loops around dstf_process_raw_h264_stream_to_frames come to an end when the inner loop has
-- more rounds than the queue has places: they are left by one of the code's own exits.
pub run_raw_h264-ends {ℓ} :
    {S : Type ℓ} (handle : S → List ℕ → S × Bool) (is_fatal : S → Bool) (max_dst_len k : ℕ)
    (d : Dstf) (s : S) (reads : List (List ℕ))
    → IsValid d
    → d.sq_maxlen < k
    → All (λ c. length c < 2 ^ 32) reads
    → (run (λ q src. process_raw_h264 q src max_dst_len) handle is_fatal k d s reads ≢ no_end)
      × (run (λ q src. process_raw_h264 q src max_dst_len) handle is_fatal k d s reads ≢ crash)
run_raw_h264-ends handle is_fatal max_dst_len k d s reads v enough a =
    let left =
      run-Left (λ q src. process_raw_h264 q src max_dst_len) handle is_fatal
        (λ q src. call-Advances q src max_dst_len) k d s reads v enough a in
    (λ e. subst Left e left, λ e. subst Left e left)
