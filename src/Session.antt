-- ===== src/Session.antt =====
-- src/dvrcontrol.c: the session with the DVR, open_session and close_session, and
-- stream_media_dvr_to_pipe, which passes its media on.
pub mod Prefix
pub mod Order
pub mod Relay
use tani_dvr.Prelude.Int.{ℤ, pos, negsuc}
use tani_dvr.Link.{Conn}
use tani_dvr.Devinfo.{Devinfo, di_init}
use tani_dvr.Protocol.{
  HlpConnection, hlp_logout, hlp_connection_relationship, hlp_send_extension_string,
  hlp_get_work_alarm_status, hlp_keep_alive, hlp_get_media_capability, hlp_get_config_parameter,
}
use tani_dvr.Protocol.Login.{hlp_login}
use tani_dvr.Protocol.SystemInfo.{
  hlp_get_system_information, hlp_get_system_information_multiple, hlp_set_alarm,
}
use tani_dvr.Protocol.Media.{
  hlp_media_data_request, hlp_collect_media_data, hlp_discard_incoming_data, crlf,
}
use tani_dvr.Prelude.{
  ==_iff, All, All-append, All-get_or, All-split, Bool, Bool-cases, List, Option, [], add-one, ap,
  append-nil, append_assoc, append_inj, arith, dec_lt, drop, drop-drop, drop-length_append,
  drop-past, false, flatten, get_or, get_or-append, get_or-cons, get_or-past, get_or-set,
  get_or-splice, get_or-splice_in, get_or-splice_out, get_or-tabulate, if_cases, if_false, if_true,
  if◌then◌else◌, inl, inr, leb, leb→le, length, length-append, length-drop, length-replicate,
  length-set, length-splice, length-tabulate, length-take, list_ext, ltb, ltb→le, ltb→lt, lt→ltb,
  map, none, not, refl, replicate, set, some, splice, sub_size, suc, sym, tabulate, tabulate-add,
  tabulate-get_or, tabulate_congr, take, take-append-drop, take-length_append, take-past, true,
  window, window-front, window_cut, window_split, window_total, zero, ℕ, ◌%◌, ◌&&◌, ◌*◌, ◌++◌, ◌+◌,
  ◌-◌, ◌/◌, ◌<◌, ◌==◌, ◌^◌, ◌||◌, ◌↔◌, ◌∙◌, ◌∷◌, ◌≡◌, ◌≢◌, ◌≤◌, ◌⊎◌,
}

abbrev pub stream_buffer_len : ℕ
stream_buffer_len = 1_000_000

-- What is used of `dvrcontrol_t`.
pub record DvrControl : Type 0 where
  pub user : List ℕ
  pub passwd : List ℕ
  pub channel : ℕ
  pub sub_channel : ℕ
  pub keep_alive_us : ℕ
  pub timeout_us : ℕ
  pub net_protocol_dialect : ℕ

-- The requests of the chatter, whose return codes are ignored.
pub data Query : Type 0 where
  work_alarm_status extension_string : Query
  sysinfo : ℕ → ℕ → Query
  mediacap confparm setalarm : ℕ → Query

abbrev pub transaction : List ℕ
transaction =
    b'T' ∷ b'r' ∷ b'a' ∷ b'n' ∷ b's' ∷ b'a' ∷ b'c' ∷ b't' ∷ b'i' ∷ b'o' ∷ b'n' ∷ b'I' ∷ b'D' ∷ b':'
    ∷ b'1' ∷ []

abbrev pub method : List ℕ
method =
    b'M' ∷ b'e' ∷ b't' ∷ b'h' ∷ b'o' ∷ b'd' ∷ b':' ∷ b'G' ∷ b'e' ∷ b't' ∷ b'P' ∷ b'a' ∷ b'r' ∷ b'a'
    ∷ b'm' ∷ b'e' ∷ b't' ∷ b'e' ∷ b'r' ∷ b'N' ∷ b'a' ∷ b'm' ∷ b'e' ∷ b's' ∷ []

abbrev pub parameter_name : List ℕ
parameter_name =
    b'P' ∷ b'a' ∷ b'r' ∷ b'a' ∷ b'm' ∷ b'e' ∷ b't' ∷ b'e' ∷ b'r' ∷ b'N' ∷ b'a' ∷ b'm' ∷ b'e' ∷ b':'
    ∷ b'D' ∷ b'a' ∷ b'h' ∷ b'u' ∷ b'a' ∷ b'.' ∷ b'D' ∷ b'e' ∷ b'v' ∷ b'i' ∷ b'c' ∷ b'e' ∷ b'.'
    ∷ b'V' ∷ b'i' ∷ b'd' ∷ b'e' ∷ b'o' ∷ b'O' ∷ b'u' ∷ b't' ∷ b'.' ∷ b'G' ∷ b'e' ∷ b'n' ∷ b'e'
    ∷ b'r' ∷ b'a' ∷ b'l' ∷ []

unfoldable pub ask : Conn × Devinfo → Query → Conn × Devinfo
ask (c, d) work_alarm_status = ((hlp_get_work_alarm_status c).0, d)
ask (c, d) extension_string = (
  (hlp_send_extension_string c
      (transaction ++ crlf ++ method ++ crlf ++ parameter_name ++ crlf ++ crlf)).0,
  d,
)
ask (c, d) (sysinfo infotype bitstream) =
    let (c', d', i) = hlp_get_system_information c d infotype bitstream in (c', d')
ask (c, d) (mediacap infotype) = ((hlp_get_media_capability c infotype).0, d)
ask (c, d) (confparm infotype) = ((hlp_get_config_parameter c infotype).0, d)
ask (c, d) (setalarm alarm_type) = ((hlp_set_alarm c alarm_type).0, d)

unfoldable pub chat : Conn × Devinfo → List Query → Conn × Devinfo
chat s [] = s
chat s (q ∷ qs) = chat (ask s q) qs

-- `for (j = first; …)`, `n` times.
unfoldable pub sysinfo_from : ℕ → ℕ → List Query
sysinfo_from first zero = []
sysinfo_from first (suc n) = sysinfo first 0 ∷ sysinfo_from (first + 1) n

abbrev pub alarms : List ℕ
alarms =
    1 ∷ 2 ∷ 3 ∷ 4 ∷ 5 ∷ 6 ∷ 7 ∷ 8 ∷ 9 ∷ 10 ∷ 11 ∷ 12 ∷ 13 ∷ 14 ∷ 15 ∷ 16 ∷ 18 ∷ 19 ∷ 20 ∷ 156 ∷ 161
    ∷ 162 ∷ []

-- What the client of the maker sends.
abbrev pub oem_chatter : List Query
oem_chatter =
    (work_alarm_status
      ∷ sysinfo 1 0
      ∷ sysinfo 7 0
      ∷ sysinfo 2 0
      ∷ mediacap 0
      ∷ mediacap 1
      ∷ confparm 16
      ∷ sysinfo 32 0
      ∷ sysinfo 4 255
      ∷ extension_string
      ∷ sysinfo 10 0
      ∷ sysinfo 2 0
      ∷ [])
    ++ map setalarm alarms
    ++ sysinfo_from 0 40
    ++ work_alarm_status ∷ []

-- `opened` is the connection that hlp_open made, `none` for a failure.
unfoldable pub open_session :
    DvrControl → Option HlpConnection → Devinfo → Option (HlpConnection × Devinfo) × ℕ
open_session dvrctl none devinfo = (none, 1)
open_session dvrctl (some opened) devinfo =
    let (s, d, i) = hlp_login opened (some devinfo) dvrctl.user dvrctl.passwd in
    let d' : Devinfo = elim d [ none ↦ devinfo | some x ↦ x ] in
    let (c, d0, j) = hlp_get_system_information_multiple s.conn d' 0 256 in
    let (c1, d1) = chat (s.conn, d') oem_chatter in
    if not (i == 0)
    then (some (s, d'), 1)
    else if dvrctl.net_protocol_dialect == 0
    then (some (record s { conn = c }, d0), 0)
    else (some (record s { conn = c1 }, d1), 0)

-- `hlp_logout` always returns 0.
unfoldable pub close_session : HlpConnection → HlpConnection × ℕ
close_session s = (hlp_logout s, 0)

-- Data that hlp_check_incoming_data saw: how many bytes `write` then takes (`none` for -1), and
-- whether the time for a keep-alive has come.
pub record Seen : Type 0 where
  pub wrote : Option ℕ
  pub ka_over : Bool

-- One round: whether the wait saw data, what the checks of the two connections saw, and the timers.
pub record Round : Type 0 where
  pub waited : Bool
  pub seen : List Seen
  pub control_checks : List Bool
  pub ka_over : Bool
  pub to_over : Bool

-- The two connections, and what went into the pipe.
pub record Streaming : Type 0 where
  pub conn_control : Conn
  pub conn_stream : Conn
  pub piped : List ℕ

unfoldable pub write_pipe : Streaming → List ℕ → Option ℕ → Streaming
write_pipe s sbuf none = s
write_pipe s sbuf (some n) = record s { piped = s.piped ++ take n sbuf }

unfoldable pub is_none : Option ℕ → Bool
is_none none = true
is_none (some n) = false

-- A frame has been asked for; `again` is the rest of the loop.
unfoldable pub pass_frame :
    Bool → Streaming → Seen → Conn × List ℕ × ℕ → (Streaming → Streaming × ℕ) → Streaming × ℕ
pass_frame keeps_alive s e (c, sbuf, failed) again =
    let s' = record s { conn_stream = c } in
    let s'' = write_pipe s' sbuf e.wrote in
    if not (failed == 0)
    then (s', 6)
    else if is_none e.wrote
    then (s', 105)
    else if keeps_alive && e.ka_over
    then (s'', 0)
    else again s''

-- The inner loop, with `loopret`.
unfoldable pub collect_media : Bool → Streaming → List Seen → Streaming × ℕ
collect_media keeps_alive s [] = (s, 0)
collect_media keeps_alive s (e ∷ es) =
    pass_frame keeps_alive s e (hlp_collect_media_data s.conn_stream (some stream_buffer_len))
      (λ s'. collect_media keeps_alive s' es)

-- The first half of a round, when the wait saw data.
unfoldable pub media_round : Bool → Streaming → Round → Streaming × ℕ
media_round keeps_alive s w =
    let (s', loopret) = collect_media keeps_alive s w.seen in
    let (c, discarded) = hlp_discard_incoming_data w.control_checks s'.conn_control (pos 0) in
    let s'' = record s' { conn_control = c } in
    if not w.waited
    then (s, 0)
    else if not (loopret == 0)
    then (s', loopret)
    else elim discarded [ pos n ↦ (s'', 0) | negsuc n ↦ (s'', 7) ]

-- Keep-alive and timeout.
unfoldable pub timers : DvrControl → Streaming → Round → Streaming × ℕ
timers dvrctl s w =
    let (c, failed) = hlp_keep_alive s.conn_control in
    let s' = record s { conn_control = c } in
    let timeout = not (dvrctl.timeout_us == 0) && w.to_over in
    if not (dvrctl.keep_alive_us == 0) && w.ka_over
    then if not (failed == 0) then (s', 8) else if timeout then (s', 9) else (s', 0)
    else if timeout
    then (s, 9)
    else (s, 0)

-- The loop over the rounds so far. The source leaves it only with a `loopret` other than 0: here 0
-- marks that the rounds are over and the loop still runs.
unfoldable pub stream_loop : DvrControl → Streaming → List Round → Streaming × ℕ
stream_loop dvrctl s [] = (s, 0)
stream_loop dvrctl s (w ∷ ws) =
    let (s1, loopret) = media_round (not (dvrctl.keep_alive_us == 0)) s w in
    let (s2, loopret') = timers dvrctl s1 w in
    let again = stream_loop dvrctl s2 ws in
    if not (loopret == 0)
    then (s1, loopret)
    else if not (loopret' == 0)
    then (s2, loopret')
    else again

-- Behind the two connections. `wrote` is the answer to the first `write`.
unfoldable pub stream_frames :
    DvrControl → HlpConnection → HlpConnection → Option ℕ → List Round → Streaming × ℕ
stream_frames dvrctl control conn_stream wrote rounds =
    let (tied, failed) = hlp_connection_relationship control conn_stream 1 dvrctl.channel in
    let (c, d, sbuf, failed') =
      hlp_media_data_request control.conn tied.conn dvrctl.channel dvrctl.sub_channel
        (some stream_buffer_len) in
    let s : Streaming = record { conn_control = c; conn_stream = d; piped = [] } in
    let loop = stream_loop dvrctl (write_pipe s sbuf wrote) rounds in
    if not (failed == 0)
    then (record s { conn_control = control.conn; conn_stream = tied.conn }, 2)
    else if not (failed' == 0)
    then (s, 3)
    else if is_none wrote
    then (s, 105)
    else loop

-- `opened` and `opened'` are what hlp_open gives for the control and the stream connection; without
-- both nothing is piped.
unfoldable pub stream_media_dvr_to_pipe :
    DvrControl
    → Option HlpConnection
    → Option HlpConnection
    → Devinfo
    → Option ℕ
    → List Round
    → Option Streaming × ℕ
stream_media_dvr_to_pipe dvrctl opened opened' block wrote rounds =
    let (session, failed) = open_session dvrctl opened (di_init block) in
    if not (failed == 0) then (none, 4) else elim session [
      | none ↦ (none, 4)
      | some (control, devinfo) ↦ elim opened' [
        | none ↦ (none, 1)
        | some conn_stream ↦
            let (s, ret) = stream_frames dvrctl control conn_stream wrote rounds in (some s, ret)
      ]
    ]
