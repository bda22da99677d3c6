-- ===== src/Options/InBounds.antt =====
-- Whatever the command line says, the settings that the program goes on with are in bounds.
use tani_dvr.Options.{
  help, sixty_hertz_ntsc, missing_parameter, unknown_parameter, unrecognized, net_protocol_dialect,
  operation_mode, dvr_target, dvr_port, dvr_user, dvr_password, dvr_channel, dvr_sub_channel,
  media_container, out_file, keep_alive, timeout, ts_proc,
}
use tani_dvr.Protocol.Login.{max_user_passwd_len}
use tani_dvr.Options.{
  Opt, CommandOptions, Parsed, parsed, exits, value_or, take_option, take_options,
  check_credentials, check_target, check_options, process_command_line_arguments, string_of,
  dvrcontrol_of,
}
use mathlib.Core.Bool.{false≢true}
use tani_dvr.Prelude.Int.{ℤ, pos, negsuc, pos_part}
use tani_dvr.Options.{CommandOptions, Parsed, parsed, exits, default_options, is_between}
use tani_dvr.Prelude.{
  Bool, List, Option, [], ap, arith, false, if_cases, length, ltb, ltb→le, none, not, refl, some,
  sym, true, ℕ, ◌*◌, ◌+◌, ◌<◌, ◌∙◌, ◌∷◌, ◌≡◌, ◌≤◌,
}

-- During the loop.
pub record InBounds (o : CommandOptions) : Type 0 where
  pub mode : is_between 0 1 o.opt_operation_mode ≡ true
  pub port : (0 < o.opt_dvr_port) × (o.opt_dvr_port ≤ 65535)
  pub channel : is_between 0 255 o.opt_dvr_channel ≡ true
  pub sub_channel : is_between 0 1 o.opt_dvr_sub_channel ≡ true
  pub container : is_between 0 1 o.opt_media_container ≡ true
  pub keep_alive : o.opt_keep_alive ≤ 1_000_000
  pub timeout : o.opt_timeout ≤ 1_000_000
  pub dialect : o.opt_net_protocol_dialect ≤ 1

abbrev IfParsed : (CommandOptions → Type 0) → Parsed → Type 0
IfParsed P (parsed o) = P o
IfParsed P (exits code) = Unit

pos_part-between :
    (low high : ℕ) (z : ℤ) → is_between low high z ≡ true → (low ≤ pos_part z) × (pos_part z ≤ high)
unfolding is_between
pos_part-between low high (pos n) e = ground arith
pos_part-between low high (negsuc n) e = absurd (false≢true e)

default_options-InBounds : (p : ℤ) → InBounds (default_options p)
unfolding default_options is_between
default_options-InBounds p = record {
  mode = refl;
  port = (omega arith, omega arith);
  channel = refl;
  sub_channel = refl;
  container = refl;
  keep_alive = omega arith;
  timeout = omega arith;
  dialect = omega arith;
}

-- The fields with bounds are the same.
same_bounds :
    (o o' : CommandOptions)
    → InBounds o
    → o'.opt_operation_mode ≡ o.opt_operation_mode
    → o'.opt_dvr_port ≡ o.opt_dvr_port
    → o'.opt_dvr_channel ≡ o.opt_dvr_channel
    → o'.opt_dvr_sub_channel ≡ o.opt_dvr_sub_channel
    → o'.opt_media_container ≡ o.opt_media_container
    → o'.opt_keep_alive ≡ o.opt_keep_alive
    → o'.opt_timeout ≡ o.opt_timeout
    → o'.opt_net_protocol_dialect ≡ o.opt_net_protocol_dialect
    → InBounds o'
same_bounds o o' h e1 e2 e3 e4 e5 e6 e7 e8 = record {
  mode = ap (is_between 0 1) e1 ∙ h.mode;
  port = (omega (arith, e2, h.port), omega (arith, e2, h.port));
  channel = ap (is_between 0 255) e3 ∙ h.channel;
  sub_channel = ap (is_between 0 1) e4 ∙ h.sub_channel;
  container = ap (is_between 0 1) e5 ∙ h.container;
  keep_alive = omega (arith, e6, h.keep_alive);
  timeout = omega (arith, e7, h.timeout);
  dialect = omega (arith, e8, h.dialect);
}

take_option-InBounds :
    (sscanf : List ℕ → Option ℤ) (o : CommandOptions) (option : Opt)
    → InBounds o
    → IfParsed InBounds (take_option sscanf o option)
unfolding take_option
take_option-InBounds sscanf o help h = tt
take_option-InBounds sscanf o missing_parameter h = tt
take_option-InBounds sscanf o unknown_parameter h = tt
take_option-InBounds sscanf o unrecognized h = tt
take_option-InBounds sscanf o sixty_hertz_ntsc h =
    same_bounds o _ h refl refl refl refl refl refl refl refl
take_option-InBounds sscanf o (dvr_target optarg) h =
    same_bounds o _ h refl refl refl refl refl refl refl refl
take_option-InBounds sscanf o (dvr_user optarg) h =
    same_bounds o _ h refl refl refl refl refl refl refl refl
take_option-InBounds sscanf o (dvr_password optarg) h =
    same_bounds o _ h refl refl refl refl refl refl refl refl
take_option-InBounds sscanf o (out_file optarg) h =
    same_bounds o _ h refl refl refl refl refl refl refl refl
take_option-InBounds sscanf o (net_protocol_dialect optarg) h =
    if_cases (IfParsed InBounds) (is_between 1 1 (value_or o.p (sscanf optarg)))
      (λ e. record {
        mode = h.mode;
        port = h.port;
        channel = h.channel;
        sub_channel = h.sub_channel;
        container = h.container;
        keep_alive = h.keep_alive;
        timeout = h.timeout;
        dialect = (pos_part-between 1 1 (value_or o.p (sscanf optarg)) e).1;
      })
      (λ e. tt)
take_option-InBounds sscanf o (operation_mode optarg) h =
    if_cases (IfParsed InBounds) (is_between 0 1 (value_or o.opt_operation_mode (sscanf optarg)))
      (λ e. record {
        mode = e;
        port = h.port;
        channel = h.channel;
        sub_channel = h.sub_channel;
        container = h.container;
        keep_alive = h.keep_alive;
        timeout = h.timeout;
        dialect = h.dialect;
      })
      (λ e. tt)
take_option-InBounds sscanf o (dvr_port optarg) h =
    if_cases (IfParsed InBounds) (is_between 1 65535 (value_or o.p (sscanf optarg)))
      (λ e. record {
        mode = h.mode;
        port = pos_part-between 1 65535 (value_or o.p (sscanf optarg)) e;
        channel = h.channel;
        sub_channel = h.sub_channel;
        container = h.container;
        keep_alive = h.keep_alive;
        timeout = h.timeout;
        dialect = h.dialect;
      })
      (λ e. tt)
take_option-InBounds sscanf o (dvr_channel optarg) h =
    if_cases (IfParsed InBounds) (is_between 0 255 (value_or o.opt_dvr_channel (sscanf optarg)))
      (λ e. record {
        mode = h.mode;
        port = h.port;
        channel = e;
        sub_channel = h.sub_channel;
        container = h.container;
        keep_alive = h.keep_alive;
        timeout = h.timeout;
        dialect = h.dialect;
      })
      (λ e. tt)
take_option-InBounds sscanf o (dvr_sub_channel optarg) h =
    if_cases (IfParsed InBounds) (is_between 0 1 (value_or o.opt_dvr_sub_channel (sscanf optarg)))
      (λ e. record {
        mode = h.mode;
        port = h.port;
        channel = h.channel;
        sub_channel = e;
        container = h.container;
        keep_alive = h.keep_alive;
        timeout = h.timeout;
        dialect = h.dialect;
      })
      (λ e. tt)
take_option-InBounds sscanf o (media_container optarg) h =
    if_cases (IfParsed InBounds) (is_between 0 1 (value_or o.opt_media_container (sscanf optarg)))
      (λ e. record {
        mode = h.mode;
        port = h.port;
        channel = h.channel;
        sub_channel = h.sub_channel;
        container = e;
        keep_alive = h.keep_alive;
        timeout = h.timeout;
        dialect = h.dialect;
      })
      (λ e. tt)
take_option-InBounds sscanf o (keep_alive optarg) h =
    if_cases (IfParsed InBounds) (is_between 0 1_000_000 (value_or o.p (sscanf optarg)))
      (λ e. record {
        mode = h.mode;
        port = h.port;
        channel = h.channel;
        sub_channel = h.sub_channel;
        container = h.container;
        keep_alive = (pos_part-between 0 1_000_000 (value_or o.p (sscanf optarg)) e).1;
        timeout = h.timeout;
        dialect = h.dialect;
      })
      (λ e. tt)
take_option-InBounds sscanf o (timeout optarg) h =
    if_cases (IfParsed InBounds) (is_between 0 1_000_000 (value_or o.p (sscanf optarg)))
      (λ e. record {
        mode = h.mode;
        port = h.port;
        channel = h.channel;
        sub_channel = h.sub_channel;
        container = h.container;
        keep_alive = h.keep_alive;
        timeout = (pos_part-between 0 1_000_000 (value_or o.p (sscanf optarg)) e).1;
        dialect = h.dialect;
      })
      (λ e. tt)
take_option-InBounds sscanf o (ts_proc optarg) h =
    if_cases (IfParsed InBounds) (is_between 0 1 (value_or o.p (sscanf optarg)))
      (λ e. same_bounds o _ h refl refl refl refl refl refl refl refl) (λ e. tt)

flag_set : (b : Bool) → not b ≡ false → b ≡ true
flag_set true e = refl
flag_set false e = absurd (false≢true (sym e))

go_on-InBounds :
    (r : Parsed) (again : CommandOptions → Parsed)
    → IfParsed InBounds r
    → ((o : CommandOptions) → InBounds o → IfParsed InBounds (again o))
    → IfParsed InBounds (elim r [ parsed o' ↦ again o' | exits code ↦ exits code ])
go_on-InBounds (parsed o') again h f = f o' h
go_on-InBounds (exits code) again h f = tt

take_options-InBounds :
    (sscanf : List ℕ → Option ℤ) (options : List Opt) (o : CommandOptions)
    → InBounds o
    → IfParsed InBounds (take_options sscanf o options)
unfolding take_options
take_options-InBounds sscanf [] o h = h
take_options-InBounds sscanf (option ∷ options) o h =
    go_on-InBounds (take_option sscanf o option) (λ o'. take_options sscanf o' options)
      (take_option-InBounds sscanf o option h) (take_options-InBounds sscanf options)

-- What main passes on.
pub record Accepted (o : CommandOptions) : Type 0 where
  pub bounds : InBounds o
  pub mode_given : o.defined_operation_mode ≡ true
  pub credentials :
      length (dvrcontrol_of o).user + length (dvrcontrol_of o).passwd ≤ max_user_passwd_len
  pub channel_byte : (dvrcontrol_of o).channel < 256
  pub keep_alive_us : (dvrcontrol_of o).keep_alive_us ≡ o.opt_keep_alive * 1000
  pub timeout_us : (dvrcontrol_of o).timeout_us ≡ o.opt_timeout * 1000

unfoldable pub AcceptedIfParsed : Parsed → Type 0
AcceptedIfParsed (parsed o) = Accepted o
AcceptedIfParsed (exits code) = Unit

check_credentials-Accepted :
    (o : CommandOptions) (user password : Option (List ℕ))
    → InBounds o
    → o.defined_operation_mode ≡ true
    → o.opt_dvr_user ≡ user
    → o.opt_dvr_password ≡ password
    → AcceptedIfParsed (check_credentials o user password)
unfolding check_credentials AcceptedIfParsed dvrcontrol_of string_of
check_credentials-Accepted o none password h m e f = tt
check_credentials-Accepted o (some user) none h m e f = tt
check_credentials-Accepted o (some user) (some password) h m e f =
    if_cases AcceptedIfParsed (ltb max_user_passwd_len (length user + length password)) (λ g. tt)
      (λ g. record {
        bounds = h;
        mode_given = m;
        credentials = omega (
          arith,
          ap (λ x. length (string_of x)) e,
          ap (λ x. length (string_of x)) f,
          ltb→le max_user_passwd_len (length user + length password) g,
        );
        channel_byte = omega (arith, (pos_part-between 0 255 o.opt_dvr_channel h.channel).1);
        keep_alive_us = omega (arith, h.keep_alive);
        timeout_us = omega (arith, h.timeout);
      })

-- Whatever options getopt_long returns and whatever sscanf makes of their arguments, if the program
-- goes on: the port is from 1 to 65535, the channel from 0 to 255, sub-channel, container, mode and
-- dialect are 0 or 1, keep-alive and timeout are at most 1,000,000 ms and their products by 1000 do
-- not wrap, a mode was given, and user and password have together at most as many characters as
-- hlp_login takes.
pub process_command_line_arguments-Accepted :
    (sscanf : List ℕ → Option ℤ) (p : ℤ) (options : List Opt)
    → AcceptedIfParsed (process_command_line_arguments sscanf p options)
unfolding process_command_line_arguments check_options check_target AcceptedIfParsed
process_command_line_arguments-Accepted sscanf p options =
    checked (take_options sscanf (default_options p) options)
      (take_options-InBounds sscanf options (default_options p) (default_options-InBounds p))
  where
    target :
        (o : CommandOptions) (t : Option (List ℕ))
        → InBounds o
        → o.defined_operation_mode ≡ true
        → AcceptedIfParsed (check_target o t)
    target o none h m = tt
    target o (some t) h m =
        check_credentials-Accepted o o.opt_dvr_user o.opt_dvr_password h m refl refl

    checked : (r : Parsed) → IfParsed InBounds r → AcceptedIfParsed (check_options r)
    checked (exits code) h = tt
    checked (parsed o) h =
        if_cases AcceptedIfParsed (not o.defined_operation_mode) (λ e. tt)
          (λ e. target o o.opt_dvr_target h (flag_set o.defined_operation_mode e))
