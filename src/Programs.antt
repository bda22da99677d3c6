-- ===== src/Programs.antt =====
-- The two programs: main of src/tanidvr.c, and the options and main of src/dhav2mkv.c.
pub mod Justified
pub mod Recorded
use tani_dvr.Prelude.{
  ==_iff, All, All-append, All-get_or, All-split, Bool, Bool-cases, List, Option, [], add-one, ap,
  append-nil, append_assoc, append_inj, arith, dec_lt, drop, drop-drop, drop-length_append,
  drop-past, false, flatten, get_or, get_or-append, get_or-cons, get_or-past, get_or-set,
  get_or-splice, get_or-splice_in, get_or-splice_out, get_or-tabulate, if_cases, if_false, if_true,
  if◌then◌else◌, inl, inr, leb, leb→le, length, length-append, length-drop, length-replicate,
  length-set, length-splice, length-tabulate, length-take, list_ext, ltb, ltb→le, ltb→lt, lt→ltb,
  map, none, not, refl, replicate, set, some, splice, sub_size, suc, sym, tabulate, tabulate-add,
  tabulate-get_or, tabulate_congr, take, take-append-drop, take-length_append, take-past, true,
  window, window-front, window_cut, window_split, window_total, zero, ℕ, ◌%◌, ◌&&◌, ◌*◌, ◌++◌, ◌+◌,
  ◌-◌, ◌/◌, ◌<◌, ◌==◌, ◌^◌, ◌||◌, ◌↔◌, ◌∙◌, ◌∷◌, ◌≡◌, ◌≢◌, ◌≤◌, ◌⊎◌,
}
use tani_dvr.Prelude.Int.{ℤ, pos, pos_part}
use tani_dvr.FrameInfo.{McParms}
use tani_dvr.TsProc.{McTsproc}
use tani_dvr.Devinfo.{Devinfo, di_init}
use tani_dvr.Protocol.{HlpConnection}
use tani_dvr.Session.{DvrControl, open_session, close_session}
use tani_dvr.Stream.{is_positive, Stopped}
use tani_dvr.Convert.{State, process_dhav_stream}
use tani_dvr.Recording.{Signals, Activity, stream_media_dvr_to_file}
use tani_dvr.Recording
use tani_dvr.Options.{
  Opt, CommandOptions, Parsed, parsed, exits, is_between, value_or, process_command_line_arguments,
  dvrcontrol_of,
}

-- How tanidvr ends: with an exit code alone, behind the device's information, or behind a recording,
-- whose result main ignores for its exit code 0.
pub data Ran : Type 0 where
  exited : ℕ → Ran
  showed : Devinfo → ℕ → Ran
  recording : ℕ ⊎ Recording.Recorded → Ran

-- `n_channels > 0 && channel >= n_channels`.
unfoldable pub is_invalid_channel : Devinfo → ℕ → Bool
is_invalid_channel devinfo channel =
    is_positive devinfo.n_channels && leb (pos_part devinfo.n_channels) channel

-- The result of close_session is only looked at in the first mode.
unfoldable pub show_device : Option (HlpConnection × Devinfo) × ℕ → Ran
show_device (none, failed) = exited 1
show_device (some (s, devinfo), failed) =
    if not (failed == 0)
    then exited 1
    else showed devinfo (if (close_session s).1 == 0 then 0 else 1)

unfoldable pub record_channel :
    Option (HlpConnection × Devinfo) × ℕ → ℕ → ℕ ⊎ Recording.Recorded → Ran
record_channel (none, failed) channel recorded = exited 1
record_channel (some (s, devinfo), failed) channel recorded =
    if not (failed == 0)
    then exited 1
    else if is_invalid_channel devinfo channel
    then exited 1
    else recording recorded

-- `opened` is the connection that hlp_open gives, `devinfo` the variable before di_init; then the
-- arguments of stream_media_dvr_to_file.
module _ (tanidvr_sw_str : List ℕ) (transform_fps_to_mkvfps : ℕ → Bool → Bool → ℕ)
    (fwrite : List ℕ → List ℕ → ℕ) (fflush : List ℕ → ℤ) (flags : ℕ → Signals)
    (opened : Option HlpConnection) (devinfo : Devinfo) (k : ℕ) (forked opens : Bool)
    (block : Option (List ℕ)) (mc_block : McParms) (tsc_block : McTsproc)
    (activities : List Activity) where
  unfoldable pub recorded_with : CommandOptions → ℕ ⊎ Recording.Recorded
  recorded_with o =
      stream_media_dvr_to_file tanidvr_sw_str transform_fps_to_mkvfps fwrite fflush flags k forked
        opens block (is_between 1 1 o.opt_media_container) mc_block tsc_block o.opt_ntsc_exact_60hz
        o.opt_tsproc activities

  unfoldable pub run_mode : Parsed → Ran
  run_mode (exits code) = exited code
  run_mode (parsed o) =
      let dvrctl = dvrcontrol_of o in
      let session = open_session dvrctl opened (di_init devinfo) in
      if is_between 0 0 o.opt_operation_mode
      then show_device session
      else if is_between 1 1 o.opt_operation_mode
      then record_channel session dvrctl.channel (recorded_with o)
      else exited 0

  unfoldable pub main_tanidvr : (List ℕ → Option ℤ) → ℤ → List Opt → Ran
  main_tanidvr sscanf p options = run_mode (process_command_line_arguments sscanf p options)

-- The options of dhav2mkv, as getopt_long returned them, with `optarg`.
pub data ConverterOpt : Type 0 where
  help_wanted channel_given exact_sixty_hertz : ConverterOpt
  missing unknown unlisted : ConverterOpt
  in_file_given out_file_given ts_proc_given : List ℕ → ConverterOpt

-- Its `command_options`, and the local `p`. The static `dvr_channel` stays 0.
pub record ConverterOptions : Type 0 where
  pub in_file : List ℕ
  pub out_file : List ℕ
  pub ntsc_exact_60hz : Bool
  pub tsproc : Bool
  pub number : ℤ

pub data ConverterParsed : Type 0 where
  goes_on : ConverterOptions → ConverterParsed
  ends : ℕ → ConverterParsed

unfoldable pub converter_defaults : ℤ → ConverterOptions
converter_defaults p = record {
  in_file = [];
  out_file = [];
  ntsc_exact_60hz = false;
  tsproc = true;
  number = p;
}

unfoldable pub take_converter_option :
    (List ℕ → Option ℤ) → ConverterOptions → ConverterOpt → ConverterParsed
take_converter_option sscanf o help_wanted = ends 0
take_converter_option sscanf o channel_given = goes_on o
take_converter_option sscanf o exact_sixty_hertz = goes_on (record o { ntsc_exact_60hz = true })
take_converter_option sscanf o missing = ends 1
take_converter_option sscanf o unknown = ends 1
take_converter_option sscanf o unlisted = ends 1
take_converter_option sscanf o (in_file_given optarg) = goes_on (record o { in_file = optarg })
take_converter_option sscanf o (out_file_given optarg) = goes_on (record o { out_file = optarg })
take_converter_option sscanf o (ts_proc_given optarg) =
    let p' = value_or o.number (sscanf optarg) in
    if is_between 0 1 p'
    then goes_on (record o { number = p'; tsproc = is_between 1 1 p' })
    else ends 1

unfoldable pub take_converter_options :
    (List ℕ → Option ℤ) → ConverterOptions → List ConverterOpt → ConverterParsed
take_converter_options sscanf o [] = goes_on o
take_converter_options sscanf o (option ∷ options) = elim (take_converter_option sscanf o option) [
  | goes_on o' ↦ take_converter_options sscanf o' options
  | ends code ↦ ends code
]

-- How dhav2mkv ends; the result of the conversion is ignored for the exit code 0.
pub data ConverterRan : Type 0 where
  ended_early : ℕ → ConverterRan
  converted : ℕ ⊎ Stopped State → ConverterRan

-- Whether a file opens, by its name, and what it gives; the arguments of process_dhav_stream.
module _ (tanidvr_sw_str : List ℕ) (transform_fps_to_mkvfps : ℕ → Bool → Bool → ℕ)
    (fwrite : List ℕ → List ℕ → ℕ) (fflush : List ℕ → ℤ) (k : ℕ)
    (in_opens out_opens : List ℕ → Bool) (block : Option (List ℕ)) (mc_block : McParms)
    (tsc_block : McTsproc) (content : List ℕ → List (List ℕ)) where
  unfoldable pub convert_with : ConverterParsed → ConverterRan
  convert_with (ends code) = ended_early code
  convert_with (goes_on o) = converted (
      process_dhav_stream tanidvr_sw_str transform_fps_to_mkvfps fwrite fflush k
        (in_opens o.in_file) (out_opens o.out_file) block mc_block tsc_block o.ntsc_exact_60hz
        o.tsproc (content o.in_file))

  unfoldable pub main_dhav2mkv : (List ℕ → Option ℤ) → ℤ → List ConverterOpt → ConverterRan
  main_dhav2mkv sscanf p options =
      convert_with (take_converter_options sscanf (converter_defaults p) options)
