-- ===== src/Stream/Hang.antt =====
-- The inner loop never ends on such a header: the call keeps answering that there is a frame.
use tani_dvr.Prelude.{Bool, List, [], refl, some, suc, zero, ℕ, ◌≡◌}
use tani_dvr.Frames.{Dstf, load}
use tani_dvr.Frames.Dhav.{process_dhav}
use tani_dvr.Frames.Dhav.ZeroLength.{ZeroFrame, pull-zero, process_dhav-zero}
use tani_dvr.Stream.{endless, is_positive, drain}

module _ {ℓ} {S : Type ℓ} (handle : S → List ℕ → S × Bool) (is_fatal : S → Bool)
    (max_dst_len : ℕ) where
  drain-zero :
      (k : ℕ) (q : Dstf) (s : S)
      → ZeroFrame q
      → drain (λ d src. process_dhav d src max_dst_len) handle is_fatal k q s [] ≡ endless
  unfolding drain is_positive
  drain-zero zero q s z = refl
  drain-zero (suc k) q s z = rw (process_dhav-zero q max_dst_len z, drain) (drain-zero k q s z)

  -- Once a read leaves a DHAV header of length 0 behind a trailer of length 0 at the front of the
  -- queue, no number of rounds ends the inner loop of process_dhav_stream: it hangs.
  pub drain_hangs :
      (k : ℕ) (d q : Dstf) (s : S) (src : List ℕ)
      → load d src ≡ some q
      → ZeroFrame q
      → drain (λ d src. process_dhav d src max_dst_len) handle is_fatal k d s src ≡ endless
  unfolding drain process_dhav is_positive
  drain_hangs zero d q s src l z = refl
  drain_hangs (suc k) d q s src l z =
      rw (l, drain) (rw (pull-zero q max_dst_len z) (drain-zero k q s z))
