-- ===== src/Programs/Justified.antt =====
-- Why tanidvr ends the way it does: what its two modes require.
use tani_dvr.Prelude.{
  Option, ap, arith, false, if_cases, inl, inr, leb, ltb, none, not, refl, some, sym, true, ℕ, ◌&&◌,
  ◌<◌, ◌==◌, ◌∙◌, ◌≡◌, ◌≤◌, ◌⊎◌,
}
use mathlib.Core.Bool.{false≢true}
use tani_dvr.Prelude.Int.{ℤ, pos, negsuc, pos_part}
use tani_dvr.Devinfo.{Devinfo, di_init}
use tani_dvr.Protocol.{HlpConnection}
use tani_dvr.Session.{open_session}
use tani_dvr.Stream.{is_positive}
use tani_dvr.Recording.{
  Signals, Activity, Recorder, finished, waiting, identify_pipe, stream_media_dvr_to_file,
}
use tani_dvr.Recording
use tani_dvr.Options.{CommandOptions, Parsed, parsed, exits, is_between, dvrcontrol_of}
use tani_dvr.Options.InBounds.{Accepted}
use tani_dvr.Programs.{
  Ran, exited, showed, recording, is_invalid_channel, show_device, record_channel,
}

-- The device has the channel, if it said how many it has.
abbrev pub HasChannel : Devinfo → ℕ → Type 0
HasChannel devinfo channel = (n : ℕ) → devinfo.n_channels ≡ pos n → 0 < n → channel < n

-- The session that is opened with the options.
abbrev pub Opens :
    Option HlpConnection → Devinfo → CommandOptions → HlpConnection → Devinfo → Type 0
Opens opened devinfo o s d =
    open_session (dvrcontrol_of o) opened (di_init devinfo) ≡ (some (s, d), 0)

-- The device said how many channels it has, and the channel is none of them.
abbrev pub LacksChannel : Devinfo → ℕ → Type 0
LacksChannel devinfo channel = (n : ℕ) × (devinfo.n_channels ≡ pos n) × (0 < n) × (n ≤ channel)

-- No session is opened with the options.
abbrev pub NeverOpens : Option HlpConnection → Devinfo → CommandOptions → Type 0
NeverOpens opened devinfo o = (s : HlpConnection) (d : Devinfo) → ¬ (Opens opened devinfo o s d)

-- Why tanidvr ends: `parse` is what became of the options, and `Records` what is required of a
-- recording. An exit without a result is that of the options, or is for want of a session or of the
-- channel to record.
unfoldable pub Justified :
    Option HlpConnection
    → Devinfo
    → (CommandOptions → ℕ ⊎ Recording.Recorded → Type 0)
    → Parsed
    → Ran
    → Type 0
Justified opened devinfo Records parse (exited code) =
    (parse ≡ exits code)
    ⊎ ((o : CommandOptions) × (parse ≡ parsed o)
        × (code ≡ 1)
        × (NeverOpens opened devinfo o
            ⊎ ((s : HlpConnection) × (d : Devinfo) × (o.opt_operation_mode ≡ pos 1)
                × Opens opened devinfo o s d
                × LacksChannel d (dvrcontrol_of o).channel)))
Justified opened devinfo Records parse (showed d code) =
    (o : CommandOptions) × (s : HlpConnection) × (parse ≡ parsed o)
    × Accepted o
    × (o.opt_operation_mode ≡ pos 0)
    × Opens opened devinfo o s d
Justified opened devinfo Records parse (recording r) =
    (o : CommandOptions) × (s : HlpConnection) × (d : Devinfo) × (parse ≡ parsed o)
    × Accepted o
    × (o.opt_operation_mode ≡ pos 1)
    × Opens opened devinfo o s d
    × HasChannel d (dvrcontrol_of o).channel
    × Records o r

valid-HasChannel :
    (d : Devinfo) (channel : ℕ) → is_invalid_channel d channel ≡ false → HasChannel d channel
unfolding is_invalid_channel is_positive
valid-HasChannel d channel e n is_n some_channel =
    let e' : (ltb 0 n && leb n channel) ≡ false =
      sym (ap (λ z. is_positive z && leb (pos_part z) channel) is_n) ∙ e in
    ground (arith, e')

invalid-LacksChannel :
    (n : ℤ) (d : Devinfo) (channel : ℕ)
    → d.n_channels ≡ n
    → is_invalid_channel d channel ≡ true
    → LacksChannel d channel
unfolding is_invalid_channel is_positive
invalid-LacksChannel (pos n) d channel is_n e =
    let e' : (ltb 0 n && leb n channel) ≡ true =
      sym (ap (λ z. is_positive z && leb (pos_part z) channel) is_n) ∙ e in
    (n, is_n, ground (arith, e'), ground (arith, e'))
invalid-LacksChannel (negsuc n) d channel is_n e =
    absurd (false≢true (sym (ap (λ z. is_positive z && leb (pos_part z) channel) is_n) ∙ e))

none-NeverOpens :
    (opened : Option HlpConnection) (devinfo : Devinfo) (o : CommandOptions) (failed : ℕ)
    → open_session (dvrcontrol_of o) opened (di_init devinfo) ≡ (none, failed)
    → NeverOpens opened devinfo o
none-NeverOpens opened devinfo o failed e s d f =
    let same : (none, failed) ≡ (some (s, d), 0) = sym e ∙ f in
    let first : none ≡ some (s, d) = ap (λ u. u.0) same in cc

failed-NeverOpens :
    (opened : Option HlpConnection) (devinfo : Devinfo) (o : CommandOptions)
    (session : Option (HlpConnection × Devinfo)) (failed : ℕ)
    → open_session (dvrcontrol_of o) opened (di_init devinfo) ≡ (session, failed)
    → not (failed == 0) ≡ true
    → NeverOpens opened devinfo o
failed-NeverOpens opened devinfo o session failed e wrong s d f =
    let none_failed : failed ≡ 0 = ap (λ u. u.1) (sym e ∙ f) in ground (arith, wrong)

pub exactly : (n : ℕ) (z : ℤ) → is_between n n z ≡ true → z ≡ pos n
unfolding is_between
exactly n (pos m) e = ap pos (ground (arith, e))
exactly n (negsuc m) e = absurd (false≢true e)

-- A mode that was accepted is 0 or 1.
pub no_other_mode :
    (z : ℤ) → is_between 0 1 z ≡ true → is_between 0 0 z ≡ false → is_between 1 1 z ≡ false → ⊥
unfolding is_between
no_other_mode (pos n) e f g = ground (arith, e, f, g)
no_other_mode (negsuc n) e f g = false≢true e

no_failure : (failed : ℕ) → not (failed == 0) ≡ false → failed ≡ 0
no_failure failed e = ground (arith, e)

module _ (opened : Option HlpConnection) (devinfo : Devinfo)
    (Records : CommandOptions → ℕ ⊎ Recording.Recorded → Type 0) (o : CommandOptions)
    (a : Accepted o) (recorded : ℕ ⊎ Recording.Recorded) (done : Records o recorded) where
  abbrev IsJustified : Ran → Type 0
  IsJustified = Justified opened devinfo Records (parsed o)

  pub show_device-Justified :
      (session : Option (HlpConnection × Devinfo) × ℕ)
      → open_session (dvrcontrol_of o) opened (di_init devinfo) ≡ session
      → o.opt_operation_mode ≡ pos 0
      → IsJustified (show_device session)
  unfolding show_device Justified
  show_device-Justified (none, failed) e mode =
      inr (o, refl, refl, inl (none-NeverOpens opened devinfo o failed e))
  show_device-Justified (some (s, d), failed) e mode =
      if_cases IsJustified (not (failed == 0))
        (λ f.
          inr (o, refl, refl, inl (failed-NeverOpens opened devinfo o (some (s, d)) failed e f)))
        (λ f. (o, s, refl, a, mode, e ∙ ap (λ n. (some (s, d), n)) (no_failure failed f)))

  pub record_channel-Justified :
      (session : Option (HlpConnection × Devinfo) × ℕ)
      → open_session (dvrcontrol_of o) opened (di_init devinfo) ≡ session
      → o.opt_operation_mode ≡ pos 1
      → IsJustified (record_channel session (dvrcontrol_of o).channel recorded)
  unfolding record_channel Justified
  record_channel-Justified (none, failed) e mode =
      inr (o, refl, refl, inl (none-NeverOpens opened devinfo o failed e))
  record_channel-Justified (some (s, d), failed) e mode =
      if_cases IsJustified (not (failed == 0))
        (λ f.
          inr (o, refl, refl, inl (failed-NeverOpens opened devinfo o (some (s, d)) failed e f)))
        (λ f.
          if_cases IsJustified (is_invalid_channel d (dvrcontrol_of o).channel)
            (λ g. inr (
              o,
              refl,
              refl,
              inr (
                s,
                d,
                mode,
                e ∙ ap (λ n. (some (s, d), n)) (no_failure failed f),
                invalid-LacksChannel d.n_channels d (dvrcontrol_of o).channel refl g,
              ),
            ))
            (λ g. (
              o,
              s,
              d,
              refl,
              a,
              mode,
              e ∙ ap (λ n. (some (s, d), n)) (no_failure failed f),
              valid-HasChannel d (dvrcontrol_of o).channel g,
              done,
            )))
