-- ===== src/Convert/Step.antt =====
-- One frame through the handler, before and after the main header has been written.
use mathlib.Core.Bool.{and-true, and-false}
use tani_dvr.Prelude.Int.{pos}
use tani_dvr.FrameInfo.{McParms, ft_undefined}
use tani_dvr.FrameInfo.Video.{
  HasRoom, IsFirst, IsNext, Shows, media, width_field, height_field, collect-First, collect-Next,
  collect-early,
}
use tani_dvr.Mkv.{is_video, convert_frame_to_mkv}
use tani_dvr.Mkv.ReadBack.{Readable}
use tani_dvr.Mkv.Header.{mcodec_v_mpeg4_iso_avc, main_header, dt_convert_frame_to_mkv}
use tani_dvr.Mkv.FirstFrame.{length-main_header}
use tani_dvr.TsProc.{McTsproc, dt_tsproc_process}
use tani_dvr.Stream.{is_negative}
use tani_dvr.Convert.{
  collected, collect_dhav_frame_info, ℤ, Conversion, going, correct, corrected, is_zero,
  handle_frame,
}
use tani_dvr.Convert.Frame.{TscInRange, correct-Shows, convert-Shows, handled}
use tani_dvr.Prelude.{
  Bool, List, Option, [], ap, append-nil, arith, false, if_false, if_true, if◌then◌else◌, length,
  none, not, refl, some, true, ℕ, ◌&&◌, ◌++◌, ◌<◌, ◌==◌, ◌∙◌, ◌≡◌, ◌≤◌,
}

-- Behind the first I-frame that could be converted.
pub record Ready (c : Conversion) : Type 0 where
  pub pending : c.main_mkv_header_pending ≡ false
  pub parms : c.mc_parms.has_v_parms ≡ true
  pub rate : 0 < c.mc_parms.dhav_fps
  pub clock : TscInRange c.tsc
  pub fine : is_negative c.dtconv_ret ≡ false

-- Before it.
pub record Waiting (c : Conversion) : Type 0 where
  pub pending : c.main_mkv_header_pending ≡ true
  pub parms : c.mc_parms.has_v_parms ≡ false
  pub clock : TscInRange c.tsc
  pub fine : is_negative c.dtconv_ret ≡ false

correct-early :
    (tsc : Option McTsproc) (mc : McParms)
    → TscInRange tsc
    → is_video mc.frame_type ≡ false
    → (ns : ℕ) × (correct true tsc mc ≡ some (tsc, record mc { v_timestamp = ns }))
unfolding correct corrected dt_tsproc_process
correct-early none mc h e = (mc.v_timestamp, refl)
correct-early (some t) mc h e = (t.v_timestamp, ap (corrected mc) (if_true _ _ _ (ap not e)))

front_small :
    (sw : List ℕ) (fps : ℕ → Bool → Bool → ℕ) (mc : McParms) (b : Bool)
    → length (if b then main_header sw fps mc mcodec_v_mpeg4_iso_avc else []) ≤ 420
front_small sw fps mc true = omega (arith, length-main_header sw fps mc mcodec_v_mpeg4_iso_avc)
front_small sw fps mc false = omega arith

module _ (sw : List ℕ) (fps : ℕ → Bool → Bool → ℕ) (fwrite : List ℕ → List ℕ → ℕ)
    (fflush : List ℕ → ℤ) (takes : (w xs : List ℕ) → fwrite w xs ≡ length xs)
    (flushes : (w : List ℕ) → fflush w ≡ pos 0) (out_len : ℕ) (roomy : 1_000_000 ≤ out_len) where
  -- A frame whose video is known, with or without the header in front.
  shown :
      (c : Conversion) (src : List ℕ) (mc : McParms)
      → HasRoom src
      → length src ≤ 990_000
      → TscInRange c.tsc
      → collect_dhav_frame_info c.mc_parms src ≡ collected mc (pos 0)
      → Shows mc src
      → (c' : Conversion) × (out : List ℕ) × (t ns : ℕ) × (handle_frame sw fps fwrite fflush out_len
            true
            (going c)
            src
          ≡ (going c', true))
        × (c'.mc_parms ≡ record mc { v_timestamp = ns })
        × Ready c'
        × (c'.written
            ≡ c.written
              ++ ((if c.main_mkv_header_pending
                    then main_header sw fps (record mc { v_timestamp = ns }) mcodec_v_mpeg4_iso_avc
                    else [])
                  ++ out))
        × Readable out t (media src)
  unfolding dt_convert_frame_to_mkv is_zero is_negative
  shown c src mc room small clock e v =
      let (tsc', ns, e2, clock', v') = correct-Shows c.tsc mc src clock v in
      let mc' : McParms = record mc { v_timestamp = ns } in
      let main =
        if c.main_mkv_header_pending then main_header sw fps mc' mcodec_v_mpeg4_iso_avc else [] in
      let (out, e3, r) =
        convert-Shows out_len main mc' src roomy v' room small
          (front_small sw fps mc' c.main_mkv_header_pending) in
      let c' : Conversion = record c {
        mc_parms = mc';
        tsc = tsc';
        main_mkv_header_pending = c.main_mkv_header_pending && false;
        dtconv_ret = pos 0;
        written = c.written ++ (main ++ out);
      } in
      (
        c',
        out,
        ns,
        ns,
        handled sw fps fwrite fflush takes flushes out_len roomy c src mc mc' (pos 0) tsc'
            (main ++ out) (pos 0) e e2 e3,
        refl,
        record {
          pending = and-false c.main_mkv_header_pending;
          parms = v'.parms;
          rate = v'.rate;
          clock = clock';
          fine = refl;
        },
        refl,
        r,
      )

  -- What the loops keep, and what a frame adds, by the state before.
  pub step-Next :
      (c : Conversion) (src : List ℕ)
      → HasRoom src
      → length src ≤ 990_000
      → IsNext src
      → Ready c
      → (c' : Conversion) × (out : List ℕ) × (t : ℕ) × (handle_frame sw fps fwrite fflush out_len
            true
            (going c)
            src
          ≡ (going c', true))
        × Ready c'
        × (c'.written ≡ c.written ++ out)
        × Readable out t (media src)
  step-Next c src room small next r =
      let (mc, e, v) = collect-Next c.mc_parms src room next r.parms r.rate in
      let (c', out, t, ns, h, same, r', w, q) = shown c src mc room small r.clock e v in
      (
        c',
        out,
        t,
        h,
        r',
        w
            ∙ ap
                (λ b.
                  c.written
                  ++ ((if b
                        then main_header sw fps (record mc { v_timestamp = ns })
                            mcodec_v_mpeg4_iso_avc
                        else [])
                      ++ out))
                r.pending,
        q,
      )

  pub step-First :
      (c : Conversion) (src : List ℕ)
      → HasRoom src
      → length src ≤ 990_000
      → IsFirst src
      → Waiting c
      → (c' : Conversion) × (out : List ℕ) × (t : ℕ) × (mc : McParms) × (handle_frame sw fps fwrite
            fflush out_len true
            (going c)
            src
          ≡ (going c', true))
        × Ready c'
        × (c'.written ≡ c.written ++ (main_header sw fps mc mcodec_v_mpeg4_iso_avc ++ out))
        × (mc.v_width ≡ width_field src)
        × (mc.v_height ≡ height_field src)
        × Readable out t (media src)
  step-First c src room small first k =
      let (mc, e, v, width, height) = collect-First c.mc_parms src room first in
      let (c', out, t, ns, h, same, r', w, q) = shown c src mc room small k.clock e v in
      let mc' : McParms = record mc { v_timestamp = ns } in
      (
        c',
        out,
        t,
        mc',
        h,
        r',
        w
            ∙ ap
                (λ b.
                  c.written
                  ++ ((if b then main_header sw fps mc' mcodec_v_mpeg4_iso_avc else []) ++ out))
                k.pending,
        width,
        height,
        q,
      )

  pub step-again :
      (c : Conversion) (src : List ℕ)
      → HasRoom src
      → length src ≤ 990_000
      → IsFirst src
      → Ready c
      → (c' : Conversion) × (out : List ℕ) × (t : ℕ) × (handle_frame sw fps fwrite fflush out_len
            true
            (going c)
            src
          ≡ (going c', true))
        × Ready c'
        × (c'.written ≡ c.written ++ out)
        × Readable out t (media src)
  step-again c src room small first r =
      let (mc, e, v, width, height) = collect-First c.mc_parms src room first in
      let (c', out, t, ns, h, same, r', w, q) = shown c src mc room small r.clock e v in
      (
        c',
        out,
        t,
        h,
        r',
        w
            ∙ ap
                (λ b.
                  c.written
                  ++ ((if b
                        then main_header sw fps (record mc { v_timestamp = ns })
                            mcodec_v_mpeg4_iso_avc
                        else [])
                      ++ out))
                r.pending,
        q,
      )

  pub step-early :
      (c : Conversion) (src : List ℕ)
      → HasRoom src
      → IsNext src
      → Waiting c
      → (c' : Conversion) × (handle_frame sw fps fwrite fflush out_len true (going c) src
          ≡ (going c', true))
        × Waiting c'
        × (c'.written ≡ c.written)
  unfolding dt_convert_frame_to_mkv convert_frame_to_mkv is_zero is_negative is_video
  step-early c src room next k =
      let mc : McParms = record c.mc_parms { frame_type = ft_undefined } in
      let (ns, e2) = correct-early c.tsc mc k.clock refl in
      let mc' : McParms = record mc { v_timestamp = ns } in
      let e1 = collect-early c.mc_parms src room next k.parms in
      let some_bytes : (length src == 0) ≡ false = ground arith in
      (
        record c {
          mc_parms = mc';
          main_mkv_header_pending = c.main_mkv_header_pending && true;
          dtconv_ret = pos 2;
          written = c.written ++ [];
        },
        handled sw fps fwrite fflush takes flushes out_len roomy c src mc mc' (pos 0) c.tsc []
            (pos 2) e1 e2 (if_false _ _ _ some_bytes),
        record {
          pending = and-true c.main_mkv_header_pending ∙ k.pending;
          parms = k.parms;
          clock = k.clock;
          fine = refl;
        },
        append-nil c.written,
      )
