-- ===== src/Stream.antt =====
-- src/dhav2mkv.c, process_dhav_stream: the read-and-convert loop around the queue, over what is done
-- with each frame. stream_media_dvr_to_file of src/dvrcontrol.c has the same two loops.
pub mod Cut
pub mod Handled
pub mod Fronts
pub mod Reassembly
pub mod Broken
pub mod Hang
pub mod Ends
use tani_dvr.Prelude.{
  ==_iff, All, All-append, All-get_or, Bool, Bool-cases, List, Option, [], add-one, ap, append-nil,
  append_assoc, append_inj, arith, dec_lt, drop, drop-length_append, false, flatten, get_or,
  get_or-append, get_or-cons, get_or-past, get_or-set, get_or-splice, get_or-splice_in,
  get_or-splice_out, get_or-tabulate, if◌then◌else◌, inl, inr, leb, leb→le, length, length-append,
  length-drop, length-replicate, length-set, length-splice, length-tabulate, length-take, list_ext,
  ltb, ltb→le, ltb→lt, lt→ltb, map, none, not, refl, replicate, set, some, splice, suc, sym,
  tabulate, tabulate-add, tabulate-get_or, tabulate_congr, take, take-append-drop,
  take-length_append, true, window, window-front, window_cut, window_total, window_split, zero, ℕ,
  ◌%◌, ◌&&◌, ◌*◌, ◌++◌, ◌+◌, ◌-◌, ◌/◌, ◌<◌, ◌==◌, ◌^◌, ◌||◌, ◌↔◌, ◌∙◌, ◌∷◌, ◌≡◌, ◌≢◌, ◌≤◌, ◌⊎◌,
}
use tani_dvr.Prelude.Int.{ℤ, pos, negsuc}
use tani_dvr.Frames.{Dstf, Outcome, done, wild, no_fuel}

unfoldable pub is_positive : ℤ → Bool
is_positive (pos n) = ltb 0 n
is_positive (negsuc n) = false

unfoldable pub is_negative : ℤ → Bool
is_negative (pos n) = false
is_negative (negsuc n) = true

-- How the inner `do … while (dstf_ret > 0)` ends: by its test with the last `dstf_ret`, or by the
-- `break` on a failed write.
pub data Drained {ℓ} (S : Type ℓ) : Type ℓ where
  ended : Dstf → S → ℤ → Drained S
  write_failed : Dstf → S → Drained S
  crashed endless : Drained S

-- How the outer `while (1)` is left.
pub data Stopped {ℓ} (S : Type ℓ) : Type ℓ where
  end_of_input : Dstf → S → Stopped S
  queue_failure : S → ℤ → Stopped S
  convert_failure : S → Stopped S
  write_failure : S → Stopped S
  crash no_end : Stopped S

-- `process` is the call of dstf_process_…_stream_to_frames; `handle` converts a frame and writes it,
-- with `true` if the write succeeded; `is_fatal` is the test `dtconv_ret < 0`.
module _ {ℓ} {S : Type ℓ} (process : Dstf → List ℕ → Outcome) (handle : S → List ℕ → S × Bool)
    (is_fatal : S → Bool) where
  -- The inner loop: only its first call gets the bytes that were read.
  unfoldable pub drain : ℕ → Dstf → S → List ℕ → Drained S
  drain zero d s src = endless
  drain (suc k) d s src = elim (process d src) [
    | done d' [] ret ↦ elim (is_positive ret) [ true ↦ drain k d' s [] | false ↦ ended d' s ret ]
    | done d' (b ∷ bs) ret ↦
        let (s', written) = handle s (b ∷ bs) in
        let again = drain k d' s' [] in
        if written then if is_positive ret then again else ended d' s' ret else write_failed d' s'
    | wild ↦ crashed
    | no_fuel ↦ endless
  ]

  -- The outer loop over the reads that gave bytes; behind them a read of no bytes ends the input,
  -- and still gets its round. A read that fails is not modelled.
  unfoldable pub run : ℕ → Dstf → S → List (List ℕ) → Stopped S
  run k d s [] = elim (drain k d s []) [
    | ended d' s' ret ↦
        if is_negative ret
        then queue_failure s' ret
        else if is_fatal s'
        then convert_failure s'
        else end_of_input d' s'
    | write_failed d' s' ↦ if is_fatal s' then convert_failure s' else end_of_input d' s'
    | crashed ↦ crash
    | endless ↦ no_end
  ]
  run k d s (c ∷ cs) = elim (drain k d s c) [
    | ended d' s' ret ↦
        if is_negative ret
        then queue_failure s' ret
        else if is_fatal s'
        then convert_failure s'
        else run k d' s' cs
    | write_failed d' s' ↦ if is_fatal s' then convert_failure s' else write_failure s'
    | crashed ↦ crash
    | endless ↦ no_end
  ]
