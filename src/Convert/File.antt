-- ===== src/Convert/File.antt =====
-- The file that a stream of DHAV frames is converted to.
use mathlib.Core.Path.{subst}
use tani_dvr.BinTools.{byte_at}
use tani_dvr.Prelude.Int.{ℤ, pos}
use tani_dvr.FrameInfo.{McParms}
use tani_dvr.FrameInfo.Video.{HasRoom, IsFirst, IsNext, media, width_field, height_field}
use tani_dvr.Mkv.ReadBack.{Readable}
use tani_dvr.Mkv.Header.{mcodec_v_mpeg4_iso_avc, main_header}
use tani_dvr.Mkv.FirstFrame.{HasHeader, main_header-HasHeader}
use tani_dvr.Stream.Handled.{Fits, handle_all}
use tani_dvr.Convert.{
  Conversion, State, going, handle_frame, stream_in_buffer_len, stream_in_fread_granularity,
}
use tani_dvr.Convert.Step.{Ready, Waiting, step-Next, step-First, step-again, step-early}
use tani_dvr.Prelude.{
  All, Bool, List, [], ap, append-nil, append_assoc, arith, false, if_false, if_true, if◌then◌else◌,
  inl, inr, length, refl, sym, true, ℕ, ◌++◌, ◌==◌, ◌∙◌, ◌∷◌, ◌≡◌, ◌≤◌, ◌⊎◌,
}

-- A frame of video as a DVR sends it, that the buffers can take.
abbrev pub IsVideo : List ℕ → Type 0
IsVideo f =
    Fits 1_000_000 stream_in_buffer_len stream_in_fread_granularity f
    × HasRoom f
    × (IsNext f ⊎ IsFirst f)

-- One cluster for each frame, in order, with its media data.
unfoldable pub Clusters : List (List ℕ) → List ℕ → Type 0
Clusters [] out = out ≡ []
Clusters (f ∷ fs) out =
    (c cs : List ℕ) × (t : ℕ) × (out ≡ c ++ cs) × Readable c t (media f) × Clusters fs cs

-- The frames before the first I-frame are dropped; from it on there are the header with its size,
-- and the clusters.
unfoldable pub MkvFile : List ℕ → (ℕ → Bool → Bool → ℕ) → List (List ℕ) → List ℕ → Type 0
MkvFile sw fps [] out = out ≡ []
MkvFile sw fps (f ∷ fs) out =
    if byte_at f 4 == 253
    then ((mc : McParms) × (rest : List ℕ) × HasHeader sw fps mc mcodec_v_mpeg4_iso_avc rest out
        × (mc.v_width ≡ width_field f)
        × (mc.v_height ≡ height_field f)
        × Clusters (f ∷ fs) rest)
    else MkvFile sw fps fs out

module _ (sw : List ℕ) (fps : ℕ → Bool → Bool → ℕ) (fwrite : List ℕ → List ℕ → ℕ)
    (fflush : List ℕ → ℤ) (takes : (w xs : List ℕ) → fwrite w xs ≡ length xs)
    (flushes : (w : List ℕ) → fflush w ≡ pos 0) (out_len : ℕ) (roomy : 1_000_000 ≤ out_len) where
  abbrev pub handle : State → List ℕ → State × Bool
  handle = handle_frame sw fps fwrite fflush out_len true

  pub step-Ready :
      (c : Conversion) (f : List ℕ)
      → IsVideo f
      → Ready c
      → (c' : Conversion) × (out : List ℕ) × (t : ℕ) × (handle (going c) f ≡ (going c', true))
        × Ready c'
        × (c'.written ≡ c.written ++ out)
        × Readable out t (media f)
  step-Ready c f (fit, room, inl next) r =
      step-Next sw fps fwrite fflush takes flushes out_len roomy c f room (omega (arith, fit.2))
        next r
  step-Ready c f (fit, room, inr first) r =
      step-again sw fps fwrite fflush takes flushes out_len roomy c f room (omega (arith, fit.2))
        first r

  pub handle_all-Clusters :
      (fs : List (List ℕ)) (c : Conversion)
      → All IsVideo fs
      → Ready c
      → (c' : Conversion) × (out : List ℕ) × (handle_all handle (going c) fs ≡ going c')
        × (c'.written ≡ c.written ++ out)
        × Clusters fs out
  unfolding handle_all Clusters
  handle_all-Clusters [] c a r = (c, [], refl, sym (append-nil c.written), refl)
  handle_all-Clusters (f ∷ fs) c (v, a) r =
      let (c1, out, t, h, r1, w, q) = step-Ready c f v r in
      let (c2, outs, hs, ws, qs) = handle_all-Clusters fs c1 a r1 in
      (
        c2,
        out ++ outs,
        ap (λ s. handle_all handle s.0 fs) h ∙ hs,
        ws ∙ (ap (λ x. x ++ outs) w ∙ append_assoc c.written out outs),
        (out, outs, t, refl, q, qs),
      )

  pub handle_all-MkvFile :
      (fs : List (List ℕ)) (c : Conversion)
      → All IsVideo fs
      → Waiting c
      → (c' : Conversion) × (out : List ℕ) × (handle_all handle (going c) fs ≡ going c')
        × (c'.written ≡ c.written ++ out)
        × MkvFile sw fps fs out
  unfolding handle_all MkvFile Clusters
  handle_all-MkvFile [] c a k = (c, [], refl, sym (append-nil c.written), refl)
  handle_all-MkvFile (f ∷ fs) c ((fit, room, inl next), a) k =
      let (c1, h, k1, w) =
        step-early sw fps fwrite fflush takes flushes out_len roomy c f room next k in
      let (c2, outs, hs, ws, qs) = handle_all-MkvFile fs c1 a k1 in
      let no : (byte_at f 4 == 253) ≡ false = ground arith in
      (
        c2,
        outs,
        ap (λ s. handle_all handle s.0 fs) h ∙ hs,
        ws ∙ ap (λ x. x ++ outs) w,
        subst (λ T. T) (sym (if_false _ _ _ no)) qs,
      )
  handle_all-MkvFile (f ∷ fs) c ((fit, room, inr first), a) k =
      let (c1, out, t, mc, h, r1, w, wd, ht, q) =
        step-First sw fps fwrite fflush takes flushes out_len roomy c f room (omega (arith, fit.2))
          first k in
      let (c2, outs, hs, ws, qs) = handle_all-Clusters fs c1 a r1 in
      let main = main_header sw fps mc mcodec_v_mpeg4_iso_avc in
      let yes : (byte_at f 4 == 253) ≡ true = ground (arith, first.0) in
      (
        c2,
        main ++ (out ++ outs),
        ap (λ s. handle_all handle s.0 fs) h ∙ hs,
        ws
            ∙ (ap (λ x. x ++ outs) w
                ∙ (append_assoc c.written (main ++ out) outs
                    ∙ ap (◌++◌ c.written) (append_assoc main out outs))),
        subst (λ T. T) (sym (if_true _ _ _ yes))
            (
              mc,
              out ++ outs,
              main_header-HasHeader sw fps mc mcodec_v_mpeg4_iso_avc (out ++ outs),
              wd,
              ht,
              (out, outs, t, refl, q, qs),
            ),
      )
