-- ===== src/Stream/Handled.antt =====
-- The handling of a list of frames, and what the queue must hold and have room for.
use tani_dvr.Prelude.{
  Bool, List, [], ap, arith, flatten, length, length-append, refl, some, ℕ, ◌++◌, ◌+◌, ◌∙◌, ◌∷◌,
  ◌≡◌, ◌≤◌,
}
use tani_dvr.Frames.{Dstf, IsValid, contents, load}
use tani_dvr.Frames.Dhav.Frame.{IsFrame}
use tani_dvr.Stream.Cut.{Front, at_end, inside}

-- What is done with each frame of a list, in order.
unfoldable pub handle_all {ℓ} : {S : Type ℓ} → (S → List ℕ → S × Bool) → S → List (List ℕ) → S
handle_all handle s [] = s
handle_all handle s (f ∷ fs) = handle_all handle (handle s f).0 fs

-- Frames that the buffers can take: `max_dst_len` for one frame, and room behind it for a read of
-- `granularity` bytes.
abbrev pub Fits : ℕ → ℕ → ℕ → List ℕ → Type 0
Fits maxlen max_dst_len granularity f =
    IsFrame f × (length f ≤ max_dst_len) × (length f + granularity ≤ maxlen)

-- The queue holds `p` and has room for one more read.
pub record Holds (maxlen granularity : ℕ) (d : Dstf) (p : List ℕ) : Type 0 where
  pub valid : IsValid d
  pub size : d.sq_maxlen ≡ maxlen
  pub bytes : contents d ≡ p
  pub room : length p + granularity ≤ maxlen

pub load-nil : (d : Dstf) → load d [] ≡ some d
unfolding load
load-nil d = refl

pub handle_all-append {ℓ} :
    {S : Type ℓ} (handle : S → List ℕ → S × Bool) (s : S) (fs gs : List (List ℕ))
    → handle_all handle s (fs ++ gs) ≡ handle_all handle (handle_all handle s fs) gs
unfolding handle_all
handle_all-append handle s [] gs = refl
handle_all-append handle s (f ∷ fs) gs = handle_all-append handle (handle s f).0 fs gs

-- At the end of a whole stream no front of a frame is left.
pub nothing_left :
    (after : List (List ℕ)) (p : List ℕ)
    → p ++ [] ≡ flatten after
    → Front p after
    → (p ≡ []) × (after ≡ [])
unfolding flatten
nothing_left after p e (at_end a b) = (a, b)
nothing_left after p e (inside g more rest r split some_left) =
    let total : p ++ [] ≡ g ++ flatten rest = e ∙ ap flatten r in
    absurd (
      omega (
        arith,
        ap length total,
        length-append p [],
        length-append g (flatten rest),
        ap length split,
        length-append p more,
      ))
