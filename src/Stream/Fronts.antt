-- ===== src/Stream/Fronts.antt =====
-- The queue at the front of a frame: there is nothing to hand over, and room for a read.
use mathlib.Core.Path.{subst}
use tani_dvr.Prelude.{
  All, List, [], ap, arith, flatten, length, length-append, ℕ, ◌++◌, ◌+◌, ◌∙◌, ◌∷◌, ◌≡◌, ◌≤◌,
}
use tani_dvr.Prelude.Int.{pos}
use tani_dvr.Frames.{Dstf, contents, done}
use tani_dvr.Frames.Dhav.{pull}
use tani_dvr.Frames.Dhav.Frame.{IsFrame}
use tani_dvr.Frames.Dhav.Pull.{pull-partial, pull-empty}
use tani_dvr.Stream.Cut.{Front, at_end, inside}
use tani_dvr.Stream.Handled.{Fits}

module _ (maxlen max_dst_len granularity : ℕ) (P : List ℕ → Type 0)
    (fits : (f : List ℕ) → P f → Fits maxlen max_dst_len granularity f) where
  pub pull-Front :
      (rest : List (List ℕ)) (p : List ℕ) (q : Dstf)
      → contents q ≡ p
      → q.sq_maxlen ≡ maxlen
      → All P rest
      → Front p rest
      → pull q max_dst_len ≡ done q [] (pos 0)
  pull-Front rest p q e m b (at_end none_left _) = pull-empty q max_dst_len (e ∙ none_left)
  pull-Front rest p q e m b (inside g more later r split some_left) =
      let fit : Fits maxlen max_dst_len granularity g = fits g (subst (All P) r b).0 in
      let w : IsFrame (p ++ more) = subst IsFrame split fit.0 in
      pull-partial q max_dst_len p more e w some_left (omega (arith, fit.2, ap length split))

  pub Front-room :
      (rest : List (List ℕ)) (p : List ℕ)
      → granularity ≤ maxlen
      → All P rest
      → Front p rest
      → length p + granularity ≤ maxlen
  Front-room rest p h b (at_end none_left _) = omega (arith, ap length none_left)
  Front-room rest p h b (inside g more later r split some_left) =
      let fit : Fits maxlen max_dst_len granularity g = fits g (subst (All P) r b).0 in
      omega (arith, fit.2, ap length split, length-append p more)

  -- Frames are not empty, so there are at most as many as bytes.
  pub length-le-flatten : (fs : List (List ℕ)) → All P fs → length fs ≤ length (flatten fs)
  unfolding flatten
  length-le-flatten [] a = omega arith
  length-le-flatten (f ∷ fs) a =
      omega (arith, length-append f (flatten fs), (fits f a.0).0.long, length-le-flatten fs a.1)
