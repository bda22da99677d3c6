-- ===== src/Recording/Output.antt =====
-- What is written for a frame, in the DVR's container or as Matroska.
use tani_dvr.Prelude.{
  All, Bool, List, [], ap, append-nil, append_assoc, arith, false, flatten, inl, inr, length, refl,
  sym, true, ℕ, ◌++◌, ◌∙◌, ◌∷◌, ◌≡◌, ◌⊎◌,
}
use mathlib.Core.Path.{subst}
use tani_dvr.Prelude.Int.{ℤ, pos}
use tani_dvr.FrameInfo.{McParms}
use tani_dvr.FrameInfo.Video.{HasRoom, IsFirst, IsNext}
use tani_dvr.TsProc.{McTsproc}
use tani_dvr.TsProc.Range.{InRange}
use tani_dvr.Stream.{is_negative}
use tani_dvr.Stream.Handled.{handle_all}
use tani_dvr.Session.{stream_buffer_len}
use tani_dvr.Convert.{
  State, going, Conversion, is_unknown, is_dhav, init_conversion, handle_frame, is_zero,
}
use tani_dvr.Convert
use tani_dvr.Convert.Frame.{outfile_write-all}
use tani_dvr.Convert.Fine.{IsFine, init-Waiting, sound}
use tani_dvr.Convert.File.{IsVideo, MkvFile, handle_all-MkvFile}
use tani_dvr.Recording.{Signals, write_native, output_frame}
use tani_dvr.Recording.Frames.{RecordingFits}

-- A frame that the buffers can take; to be converted, it is one of video.
abbrev pub IsRecordable : Bool → List ℕ → Type 0
IsRecordable true f = RecordingFits f × HasRoom f × (IsNext f ⊎ IsFirst f)
IsRecordable false f = RecordingFits f

-- What the file holds for the frames: the Matroska file of Convert, or the frames themselves.
abbrev pub FileOf : Bool → List ℕ → (ℕ → Bool → Bool → ℕ) → List (List ℕ) → List ℕ → Type 0
FileOf true sw fps fs out = MkvFile sw fps fs out
FileOf false sw fps fs out = out ≡ flatten fs

abbrev pub IsGoing : Bool → State → Type 0
IsGoing true s = IsFine s
IsGoing false s = (c : Conversion) × (s ≡ going c) × (is_negative c.dtconv_ret ≡ false)

pub going-fine :
    (mkv : Bool) (s : State)
    → IsGoing mkv s
    → (c : Conversion) × (s ≡ going c) × (is_negative c.dtconv_ret ≡ false)
unfolding IsFine
going-fine true (going c) (inl w) = (c, refl, w.fine)
going-fine true (going c) (inr r) = (c, refl, r.fine)
going-fine true Convert.crashed x = absurd x
going-fine false s h = h

RecordingFits-IsVideo :
    (f : List ℕ) → RecordingFits f → HasRoom f → (IsNext f ⊎ IsFirst f) → IsVideo f
RecordingFits-IsVideo f (frame, a, b) room which = ((frame, omega arith, omega arith), room, which)

All-IsVideo : (fs : List (List ℕ)) → All (IsRecordable true) fs → All IsVideo fs
All-IsVideo [] a = tt
All-IsVideo (f ∷ fs) ((fit, room, which), a) =
    (RecordingFits-IsVideo f fit room which, All-IsVideo fs a)

pub IsRecordable-fits : (mkv : Bool) (f : List ℕ) → IsRecordable mkv f → RecordingFits f
IsRecordable-fits true f (fit, room, which) = fit
IsRecordable-fits false f fit = fit

pub init-IsGoing :
    (mkv : Bool) (mc_block : McParms) (tsc_block : McTsproc) (ntsc do_correct : Bool)
    → InRange tsc_block
    → IsGoing mkv (going (init_conversion mc_block tsc_block ntsc do_correct))
unfolding IsFine init_conversion is_negative
init-IsGoing true mc_block tsc_block ntsc do_correct range =
    inl (init-Waiting mc_block tsc_block ntsc do_correct range)
init-IsGoing false mc_block tsc_block ntsc do_correct range =
    (init_conversion mc_block tsc_block ntsc do_correct, refl, refl)

module _ (sw : List ℕ) (fps : ℕ → Bool → Bool → ℕ) (fwrite : List ℕ → List ℕ → ℕ)
    (fflush : List ℕ → ℤ) (flags : ℕ → Signals) (takes : (w xs : List ℕ) → fwrite w xs ≡ length xs)
    (flushes : (w : List ℕ) → fflush w ≡ pos 0) where
  abbrev pub output : Bool → State → List ℕ → State × Bool
  output mkv = output_frame sw fps fwrite fflush flags mkv true

  native :
      (c : Conversion) (f : List ℕ)
      → output false (going c) f ≡ (going (record c { written = c.written ++ f }), true)
  unfolding output_frame write_native is_zero
  native c f =
      ap (λ (w : List ℕ × ℤ). (going (record c { written = w.0 }), is_zero w.1))
        (outfile_write-all sw fps fwrite fflush takes flushes 1_000_000 (omega arith) c.written f)

  pub output-IsGoing :
      (mkv : Bool) (s : State) (f : List ℕ)
      → IsGoing mkv s
      → IsRecordable mkv f
      → ((output mkv s f).1 ≡ true) × IsGoing mkv (output mkv s f).0
  unfolding output_frame
  output-IsGoing true s f o (fit, room, which) =
      sound sw fps fwrite fflush takes flushes stream_buffer_len (omega arith) s f o
        (RecordingFits-IsVideo f fit room which)
  output-IsGoing false s f (c, e, ok) fit =
      let out = ap (λ s. output false s f) e ∙ native c f in
      subst (λ (u : State × Bool). (u.1 ≡ true) × IsGoing false u.0) (sym out)
        (refl, (record c { written = c.written ++ f }, refl, ok))

  all_native :
      (fs : List (List ℕ)) (c : Conversion)
      → handle_all (output false) (going c) fs
        ≡ going (record c { written = c.written ++ flatten fs })
  unfolding handle_all flatten
  all_native [] c = ap (λ w. going (record c { written = w })) (sym (append-nil c.written))
  all_native (f ∷ fs) c =
      ap (λ (u : State × Bool). handle_all (output false) u.0 fs) (native c f)
      ∙ (all_native fs (record c { written = c.written ++ f })
          ∙ ap (λ w. going (record c { written = w })) (append_assoc c.written f (flatten fs)))

  pub file_of :
      (mkv : Bool) (fs : List (List ℕ)) (mc_block : McParms) (tsc_block : McTsproc)
      (ntsc do_correct : Bool)
      → InRange tsc_block
      → All (IsRecordable mkv) fs
      → (c : Conversion) × (handle_all
            (output mkv)
            (going (init_conversion mc_block tsc_block ntsc do_correct))
            fs
          ≡ going c)
        × FileOf mkv sw fps fs c.written
  unfolding output_frame init_conversion
  file_of true fs mc_block tsc_block ntsc do_correct range a =
      let (c, out, e, w, file) =
        handle_all-MkvFile sw fps fwrite fflush takes flushes stream_buffer_len (omega arith) fs
          (init_conversion mc_block tsc_block ntsc do_correct) (All-IsVideo fs a)
          (init-Waiting mc_block tsc_block ntsc do_correct range) in
      (c, e, subst (MkvFile sw fps fs) (sym w) file)
  file_of false fs mc_block tsc_block ntsc do_correct range a =
      let c = init_conversion mc_block tsc_block ntsc do_correct in
      (record c { written = c.written ++ flatten fs }, all_native fs c, refl)
