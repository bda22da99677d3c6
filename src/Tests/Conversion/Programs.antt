-- ===== src/Tests/Conversion/Programs.antt =====
-- The theorem on main of tanidvr, for a command line that asks for a recording.
use tani_dvr.Prelude.{
  List, Option, [], arith, drop, flatten, none, refl, replicate, set, some, sym, true, ℕ, ◌-◌, ◌∷◌,
}
use tani_dvr.Prelude.Int.{minus, ℤ, pos}
use tani_dvr.Devinfo.{Devinfo, di_vs_undefined, di_ve_undefined, di_mwp_undefined, di_hd_undefined}
use tani_dvr.Protocol.{HlpConnection}
use tani_dvr.Options.{
  Opt, operation_mode, dvr_target, dvr_user, dvr_password, dvr_channel,
  process_command_line_arguments,
}
use tani_dvr.Programs.{main_tanidvr}
use mathlib.Core.Path.{subst}
use tani_dvr.Stream.{is_negative}
use tani_dvr.Convert.{is_zero, is_unknown, is_dhav}
use tani_dvr.Recording.{poll_pipe_read, is_minus_one}
use tani_dvr.Recording.Heard.{IsDhavIn}
use tani_dvr.Programs.Justified.{Justified}
use tani_dvr.Programs.Recorded.{RecordsTo, main_tanidvr-Justified}
use tani_dvr.Tests.Conversion.{
  i_frame, p_frame, length-zeros, zeros, mc_block, tsc_block, takes_all, flushed, fps_29_97,
}
use tani_dvr.Tests.Conversion.Recording.{both, piped, found, recordable}

abbrev digit : List ℕ → Option ℤ
digit [] = none
digit (c ∷ cs) = some (pos (c - 48))

abbrev options : List Opt
options =
    operation_mode (b'1' ∷ [])
    ∷ dvr_target (b'h' ∷ [])
    ∷ dvr_user (b'u' ∷ [])
    ∷ dvr_password (b'w' ∷ [])
    ∷ dvr_channel (b'0' ∷ [])
    ∷ []

abbrev device : Devinfo
device = record {
  video_sys = di_vs_undefined;
  video_enc = di_ve_undefined;
  mw_preview = di_mwp_undefined;
  n_channels = minus 1;
  dev_type = minus 1;
  dev_subtype = minus 1;
  hd_type = di_hd_undefined;
  dev_sn = [];
  dev_ver = [];
  dev_type_chipset = [];
  lang_sup = [];
  func_list = [];
  oem_info = [];
  netrun_stat = [];
  split_screen = [];
  func_capability = [];
  hd_part_cap = [];
  wi_alarm = [];
  access_url = [];
}

-- The DVR answers the login, and then closes the connection.
abbrev answering : HlpConnection
answering = record {
  conn = record { incoming = set (replicate 32 0) 0 176; outgoing = []; room = 100_000 };
  unique_login_symbol = 0;
}

main_tanidvr-Justified_example :
    Justified
      (some answering)
      device
      (RecordsTo
        (b'v' ∷ [])
        fps_29_97
        takes_all
        flushed
        piped
        1_000_001
        zeros
        mc_block
        tsc_block
        both
        (i_frame ∷ p_frame ∷ p_frame ∷ [])
        (drop 10 p_frame))
      (process_command_line_arguments digit (pos 77) options)
      (main_tanidvr
        (b'v' ∷ [])
        fps_29_97
        takes_all
        flushed
        piped
        (some answering)
        device
        1_000_001
        true
        true
        (some zeros)
        mc_block
        tsc_block
        both
        digit
        (pos 77)
        options)
unfolding flatten poll_pipe_read is_negative is_zero is_minus_one is_unknown is_dhav
main_tanidvr-Justified_example =
    main_tanidvr-Justified (b'v' ∷ []) fps_29_97 takes_all flushed piped (λ w xs. refl) (λ w. refl)
      (some answering) device 1_000_001 zeros mc_block tsc_block both
      (i_frame ∷ p_frame ∷ p_frame ∷ []) (drop 10 p_frame) length-zeros (omega arith) (omega arith)
      (omega arith, (omega arith, tt)) refl recordable (subst IsDhavIn (sym found) refl) digit
      (pos 77) options
