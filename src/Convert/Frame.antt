-- ===== src/Convert/Frame.antt =====
-- What is written for one frame of video.
use tani_dvr.BinTools.{byte_at}
use mathlib.Core.Path.{subst}
use tani_dvr.Prelude.Int.{ℤ, pos, minus}
use tani_dvr.FrameInfo.{McParms, collected, collect_dhav_frame_info}
use tani_dvr.FrameInfo.Video.{HasRoom, Shows, media}
use tani_dvr.Mkv.{convert_frame_to_mkv}
use tani_dvr.Mkv.ReadBack.{Readable, convert_frame_to_mkv-Readable}
use tani_dvr.Mkv.Header.{mcodec_v_mpeg4_iso_avc, dt_convert_frame_to_mkv}
use tani_dvr.TsProc.{McTsproc}
use tani_dvr.TsProc.Range.{InRange, process-InRange}
use tani_dvr.Convert.{
  Conversion, going, correct, corrected, collect_frame_info, vcodec_of, is_zero, outfile_write,
  write_frame, convert_frame, handle_collected, handle_frame,
}
use tani_dvr.Prelude.{
  Bool, List, Option, ap, arith, false, if◌then◌else◌, length, length-append, ltb, none, not, refl,
  some, sym, take, take-past, true, window, ℕ, ◌&&◌, ◌++◌, ◌-◌, ◌∙◌, ◌≡◌, ◌≤◌,
}

abbrev pub TscInRange : Option McTsproc → Type 0
TscInRange none = Unit
TscInRange (some t) = InRange t

-- The correction changes only the time.
pub correct-Shows :
    (tsc : Option McTsproc) (mc : McParms) (src : List ℕ)
    → TscInRange tsc
    → Shows mc src
    → (tsc' : Option McTsproc) × (ns : ℕ) × (correct true tsc mc
        ≡ some (tsc', record mc { v_timestamp = ns }))
      × TscInRange tsc'
      × Shows (record mc { v_timestamp = ns }) src
unfolding correct corrected
correct-Shows none mc src h v = (none, mc.v_timestamp, refl, tt, v)
correct-Shows (some t) mc src h v =
    let (t', ret, e, r) = process-InRange mc t v.rate h in
    (
      some t',
      t'.v_timestamp,
      ap (corrected mc) e,
      r,
      record {
        video = v.video;
        parms = v.parms;
        rate = v.rate;
        time = r;
        starts = v.starts;
        size = v.size;
      },
    )

pub convert-Shows :
    (out_len : ℕ) (main : List ℕ) (mc : McParms) (src : List ℕ)
    → 1_000_000 ≤ out_len
    → Shows mc src
    → HasRoom src
    → length src ≤ 990_000
    → length main ≤ 420
    → (out : List ℕ) × (convert_frame_to_mkv main mc src out_len
        ≡ (main ++ out, length (main ++ out), pos 0))
      × Readable out mc.v_timestamp (media src)
convert-Shows out_len main mc src roomy v room small front =
    let (out, e, _, r) =
      convert_frame_to_mkv-Readable main mc src out_len v.video v.parms (omega arith)
        (omega (arith, v.starts, v.size)) (omega (arith, v.size)) v.time (omega (arith, v.size))
        (omega arith) in
    (
      out,
      e ∙ ap (λ n. (main ++ out, n, pos 0)) (sym (length-append main out)),
      subst (λ o. Readable out mc.v_timestamp (window src o (length src - byte_at src 22 - 32)))
          v.starts (subst (λ n. Readable out mc.v_timestamp (window src mc.body_p n)) v.size r),
    )

module _ (sw : List ℕ) (fps : ℕ → Bool → Bool → ℕ) (fwrite : List ℕ → List ℕ → ℕ)
    (fflush : List ℕ → ℤ) (takes : (w xs : List ℕ) → fwrite w xs ≡ length xs)
    (flushes : (w : List ℕ) → fflush w ≡ pos 0) (out_len : ℕ) (roomy : 1_000_000 ≤ out_len) where
  pub outfile_write-all :
      (w xs : List ℕ) → outfile_write sw fps fwrite fflush w xs ≡ (w ++ xs, pos 0)
  unfolding outfile_write
  outfile_write-all w xs =
      let written : w ++ take (fwrite w xs) xs ≡ w ++ xs =
        ap (λ n. w ++ take n xs) (takes w xs)
        ∙ ap (◌++◌ w) (take-past (length xs) xs (omega arith)) in
      let whole : ltb (fwrite w xs) (length xs) ≡ false = ground (arith, takes w xs) in
      λ i. (written i, if whole i then minus 1 else flushes (written i) i)

  -- The frame's way through the handler.
  pub handled :
      (c : Conversion) (src : List ℕ) (mc mc' : McParms) (ret : ℤ) (tsc' : Option McTsproc)
      (bytes : List ℕ) (r : ℤ)
      → collect_dhav_frame_info c.mc_parms src ≡ collected mc ret
      → correct true c.tsc mc ≡ some (tsc', mc')
      → dt_convert_frame_to_mkv sw fps mc' src out_len c.main_mkv_header_pending
          mcodec_v_mpeg4_iso_avc
        ≡ (bytes, length bytes, r)
      → handle_frame sw fps fwrite fflush out_len true (going c) src ≡ (
        going (record c {
          mc_parms = mc';
          tsc = tsc';
          main_mkv_header_pending = c.main_mkv_header_pending && not (is_zero r);
          dtconv_ret = r;
          written = c.written ++ bytes;
        }),
        true,
      )
  unfolding handle_frame handle_collected convert_frame write_frame collect_frame_info vcodec_of
      is_zero
  handled c src mc mc' ret tsc' bytes r e1 e2 e3 =
      let c' : Conversion = record c { mc_parms = mc'; tsc = tsc' } in
      let written : outfile_write sw fps fwrite fflush c.written (take (length bytes) bytes)
          ≡ (c.written ++ bytes, pos 0) =
        ap (outfile_write sw fps fwrite fflush c.written)
          (take-past (length bytes) bytes (omega arith))
        ∙ outfile_write-all c.written bytes in
      ap (handle_collected sw fps fwrite fflush out_len true c src) e1
      ∙ (ap (convert_frame sw fps fwrite fflush out_len true c src) e2
          ∙ (ap (write_frame sw fps fwrite fflush c') e3 ∙ (λ i. (
            going (record c' {
              main_mkv_header_pending = c.main_mkv_header_pending && not (is_zero r);
              dtconv_ret = r;
              written = (written i).0;
            }),
            is_zero (written i).1,
          ))))
