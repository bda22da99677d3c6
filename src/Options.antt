-- ===== src/Options.antt =====
-- src/tanidvr.c: process_command_line_arguments, on what getopt_long returned, and the settings that
-- main makes of it. `sscanf` with "%d" is a parameter, `none` where it converts nothing.
pub mod InBounds
use tani_dvr.Prelude.Int.{ℤ, pos, negsuc, pos_part}
use tani_dvr.Protocol.Login.{max_user_passwd_len}
use tani_dvr.Session.{DvrControl}
use tani_dvr.Prelude.{
  ==_iff, All, All-append, All-get_or, All-split, Bool, Bool-cases, List, Option, [], add-one, ap,
  append-nil, append_assoc, append_inj, arith, dec_lt, drop, drop-drop, drop-length_append,
  drop-past, false, flatten, get_or, get_or-append, get_or-cons, get_or-past, get_or-set,
  get_or-splice, get_or-splice_in, get_or-splice_out, get_or-tabulate, if_cases, if_false, if_true,
  if◌then◌else◌, inl, inr, leb, leb→le, length, length-append, length-drop, length-replicate,
  length-set, length-splice, length-tabulate, length-take, list_ext, ltb, ltb→le, ltb→lt, lt→ltb,
  map, none, not, refl, replicate, set, some, splice, sub_size, suc, sym, tabulate, tabulate-add,
  tabulate-get_or, tabulate_congr, take, take-append-drop, take-length_append, take-past, true,
  window, window-front, window_cut, window_split, window_total, zero, ℕ, ◌%◌, ◌&&◌, ◌*◌, ◌++◌, ◌+◌,
  ◌-◌, ◌/◌, ◌<◌, ◌==◌, ◌^◌, ◌||◌, ◌↔◌, ◌∙◌, ◌∷◌, ◌≡◌, ◌≢◌, ◌≤◌, ◌⊎◌,
}

-- What getopt_long returned, with `optarg`.
pub data Opt : Type 0 where
  help sixty_hertz_ntsc missing_parameter unknown_parameter unrecognized : Opt
  net_protocol_dialect operation_mode dvr_target dvr_port dvr_user dvr_password : List ℕ → Opt
  dvr_channel dvr_sub_channel media_container out_file keep_alive timeout ts_proc : List ℕ → Opt

-- `command_options`, the local `p` and the flags; a `defined_…` flag with its string is an `Option`.
pub record CommandOptions : Type 0 where
  pub opt_operation_mode : ℤ
  pub opt_dvr_target : Option (List ℕ)
  pub opt_dvr_port : ℕ
  pub opt_dvr_user : Option (List ℕ)
  pub opt_dvr_password : Option (List ℕ)
  pub opt_dvr_channel : ℤ
  pub opt_dvr_sub_channel : ℤ
  pub opt_media_container : ℤ
  pub opt_out_file : List ℕ
  pub opt_keep_alive : ℕ
  pub opt_timeout : ℕ
  pub opt_net_protocol_dialect : ℕ
  pub opt_ntsc_exact_60hz : Bool
  pub opt_tsproc : Bool
  pub defined_operation_mode : Bool
  pub p : ℤ

-- The program goes on, or it exits with a code.
pub data Parsed : Type 0 where
  parsed : CommandOptions → Parsed
  exits : ℕ → Parsed

-- A static variable starts as 0; `p` starts as anything.
unfoldable pub default_options : ℤ → CommandOptions
default_options p = record {
  opt_operation_mode = pos 0;
  opt_dvr_target = none;
  opt_dvr_port = 37777;
  opt_dvr_user = none;
  opt_dvr_password = none;
  opt_dvr_channel = pos 0;
  opt_dvr_sub_channel = pos 0;
  opt_media_container = pos 1;
  opt_out_file = [];
  opt_keep_alive = 100;
  opt_timeout = 5000;
  opt_net_protocol_dialect = 0;
  opt_ntsc_exact_60hz = false;
  opt_tsproc = true;
  defined_operation_mode = false;
  p = p;
}

-- `low <= z && z <= high`.
unfoldable pub is_between : ℕ → ℕ → ℤ → Bool
is_between low high (pos n) = leb low n && leb n high
is_between low high (negsuc n) = false

unfoldable pub value_or : ℤ → Option ℤ → ℤ
value_or old none = old
value_or old (some z) = z

module _ (sscanf : List ℕ → Option ℤ) where
  -- One round of the loop.
  unfoldable pub take_option : CommandOptions → Opt → Parsed
  take_option o help = exits 0
  take_option o (net_protocol_dialect optarg) =
      let p' = value_or o.p (sscanf optarg) in
      if is_between 1 1 p'
      then parsed (record o { p = p'; opt_net_protocol_dialect = pos_part p' })
      else exits 1
  take_option o (operation_mode optarg) =
      let mode = value_or o.opt_operation_mode (sscanf optarg) in
      if is_between 0 1 mode
      then parsed (record o { opt_operation_mode = mode; defined_operation_mode = true })
      else exits 1
  take_option o (dvr_target optarg) = parsed (record o { opt_dvr_target = some optarg })
  take_option o (dvr_port optarg) =
      let p' = value_or o.p (sscanf optarg) in
      if is_between 1 65535 p'
      then parsed (record o { p = p'; opt_dvr_port = pos_part p' })
      else exits 1
  take_option o (dvr_user optarg) = parsed (record o { opt_dvr_user = some optarg })
  take_option o (dvr_password optarg) = parsed (record o { opt_dvr_password = some optarg })
  take_option o (dvr_channel optarg) =
      let channel = value_or o.opt_dvr_channel (sscanf optarg) in
      if is_between 0 255 channel then parsed (record o { opt_dvr_channel = channel }) else exits 1
  take_option o (dvr_sub_channel optarg) =
      let sub_channel = value_or o.opt_dvr_sub_channel (sscanf optarg) in
      if is_between 0 1 sub_channel
      then parsed (record o { opt_dvr_sub_channel = sub_channel })
      else exits 1
  take_option o (media_container optarg) =
      let container = value_or o.opt_media_container (sscanf optarg) in
      if is_between 0 1 container
      then parsed (record o { opt_media_container = container })
      else exits 1
  take_option o (out_file optarg) = parsed (record o { opt_out_file = optarg })
  take_option o (keep_alive optarg) =
      let p' = value_or o.p (sscanf optarg) in
      if is_between 0 1_000_000 p'
      then parsed (record o { p = p'; opt_keep_alive = pos_part p' })
      else exits 1
  take_option o (timeout optarg) =
      let p' = value_or o.p (sscanf optarg) in
      if is_between 0 1_000_000 p'
      then parsed (record o { p = p'; opt_timeout = pos_part p' })
      else exits 1
  take_option o sixty_hertz_ntsc = parsed (record o { opt_ntsc_exact_60hz = true })
  take_option o (ts_proc optarg) =
      let p' = value_or o.p (sscanf optarg) in
      if is_between 0 1 p'
      then parsed (record o { p = p'; opt_tsproc = is_between 1 1 p' })
      else exits 1
  take_option o missing_parameter = exits 1
  take_option o unknown_parameter = exits 1
  take_option o unrecognized = exits 1

  unfoldable pub take_options : CommandOptions → List Opt → Parsed
  take_options o [] = parsed o
  take_options o (option ∷ options) = elim (take_option o option) [
    | parsed o' ↦ take_options o' options
    | exits code ↦ exits code
  ]

-- Behind the loop. A keep-alive above the timeout is only reported.
unfoldable pub check_credentials : CommandOptions → Option (List ℕ) → Option (List ℕ) → Parsed
check_credentials o none password = exits 1
check_credentials o (some user) none = exits 1
check_credentials o (some user) (some password) =
    if ltb max_user_passwd_len (length user + length password) then exits 1 else parsed o

unfoldable pub check_target : CommandOptions → Option (List ℕ) → Parsed
check_target o none = exits 1
check_target o (some target) = check_credentials o o.opt_dvr_user o.opt_dvr_password

unfoldable pub check_options : Parsed → Parsed
check_options (exits code) = exits code
check_options (parsed o) =
    if not o.defined_operation_mode then exits 1 else check_target o o.opt_dvr_target

unfoldable pub process_command_line_arguments : (List ℕ → Option ℤ) → ℤ → List Opt → Parsed
process_command_line_arguments sscanf p options =
    check_options (take_options sscanf (default_options p) options)

unfoldable pub string_of : Option (List ℕ) → List ℕ
string_of none = []
string_of (some s) = s

-- The settings that main passes on; the times are `unsigned int`.
unfoldable pub dvrcontrol_of : CommandOptions → DvrControl
dvrcontrol_of o = record {
  user = string_of o.opt_dvr_user;
  passwd = string_of o.opt_dvr_password;
  channel = pos_part o.opt_dvr_channel;
  sub_channel = pos_part o.opt_dvr_sub_channel;
  keep_alive_us = o.opt_keep_alive * 1000 % 2 ^ 32;
  timeout_us = o.opt_timeout * 1000 % 2 ^ 32;
  net_protocol_dialect = o.opt_net_protocol_dialect;
}
