-- ===== src/Convert/Fine.antt =====
-- The handler goes on, frame after frame of video.
use mathlib.Core.Path.{subst}
use tani_dvr.Prelude.Int.{ℤ, pos}
use tani_dvr.FrameInfo.{McParms, mc_init}
use tani_dvr.TsProc.{McTsproc, dt_tsproc_init}
use tani_dvr.TsProc.Range.{InRange}
use tani_dvr.Stream.{is_negative}
use tani_dvr.Convert.{State, going, crashed, convert_failed, Conversion, init_conversion}
use tani_dvr.Convert.Step.{Ready, Waiting, step-First, step-early}
use tani_dvr.Convert.File.{IsVideo, handle, step-Ready}
use tani_dvr.Prelude.{
  Bool, List, ap, arith, false, inl, inr, length, refl, sym, true, ℕ, ◌≡◌, ◌≤◌, ◌⊎◌,
}

-- The handler goes on.
unfoldable pub IsFine : State → Type 0
IsFine (going c) = Waiting c ⊎ Ready c
IsFine crashed = ⊥

pub init-Waiting :
    (mc_block : McParms) (tsc_block : McTsproc) (ntsc do_correct : Bool)
    → InRange tsc_block
    → Waiting (init_conversion mc_block tsc_block ntsc do_correct)
unfolding init_conversion mc_init dt_tsproc_init is_negative
init-Waiting mc_block tsc_block ntsc true range = record {
  pending = refl;
  parms = refl;
  clock = range;
  fine = refl;
}
init-Waiting mc_block tsc_block ntsc false range = record {
  pending = refl;
  parms = refl;
  clock = tt;
  fine = refl;
}

pub not_fatal : (s : State) → IsFine s → convert_failed s ≡ false
unfolding IsFine convert_failed
not_fatal crashed h = absurd h
not_fatal (going c) (inl k) = k.fine
not_fatal (going c) (inr r) = r.fine

module _ (sw : List ℕ) (fps : ℕ → Bool → Bool → ℕ) (fwrite : List ℕ → List ℕ → ℕ)
    (fflush : List ℕ → ℤ) (takes : (w xs : List ℕ) → fwrite w xs ≡ length xs)
    (flushes : (w : List ℕ) → fflush w ≡ pos 0) (out_len : ℕ) (roomy : 1_000_000 ≤ out_len) where
  written-IsFine :
      (u : State × Bool) (c : Conversion)
      → u ≡ (going c, true)
      → Waiting c ⊎ Ready c
      → (u.1 ≡ true) × IsFine u.0
  unfolding IsFine
  written-IsFine u c e h = (ap (λ v. v.1) e, subst (λ v. IsFine v.0) (sym e) h)

  pub sound :
      (s : State) (f : List ℕ)
      → IsFine s
      → IsVideo f
      → ((handle sw fps fwrite fflush takes flushes out_len roomy s f).1 ≡ true)
        × IsFine (handle sw fps fwrite fflush takes flushes out_len roomy s f).0
  unfolding IsFine
  sound crashed f h v = absurd h
  sound (going c) f (inr r) v =
      let (c', out, t, e, r', w, q) =
        step-Ready sw fps fwrite fflush takes flushes out_len roomy c f v r in
      written-IsFine _ c' e (inr r')
  sound (going c) f (inl k) (fit, room, inl next) =
      let (c', e, k', w) =
        step-early sw fps fwrite fflush takes flushes out_len roomy c f room next k in
      written-IsFine _ c' e (inl k')
  sound (going c) f (inl k) (fit, room, inr first) =
      let (c', out, t, mc, e, r', w, wd, ht, q) =
        step-First sw fps fwrite fflush takes flushes out_len roomy c f room (omega (arith, fit.2))
          first k in
      written-IsFine _ c' e (inr r')
