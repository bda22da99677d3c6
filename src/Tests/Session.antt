-- ===== src/Tests/Session.antt =====
-- The theorems on the protocol and on what frames say, at concrete inputs.
use tani_dvr.Prelude.Int.{pos, minus}
use tani_dvr.BinTools.{lm2nv_u32}
use tani_dvr.Link.{Conn, llp_get_header, llp_send_header}
use tani_dvr.Link.Messages.{
  Message, IsMessage, encode, header_of, then_comes, sent, wire, llp_get_header-llp_send_header,
  discard_lem,
}
use tani_dvr.Link.{discard, init_header}
use tani_dvr.Protocol.{
  HlpConnection, hlp_get_header, hlp_get_header_and_extdata, request_and_discard,
}
use tani_dvr.Protocol.Replies.{stream, hlp_get_header-stream, request_and_discard-stream}
use tani_dvr.Protocol.Nop.{
  nop_header, hlp_get_header_and_extdata-reply, hlp_get_header_and_extdata-silent,
}
use tani_dvr.Protocol.Login.{hlp_login, login_header, login_extdata}
use tani_dvr.Protocol.Login.Reply.{hlp_login-stream, Decided, Tells}
use tani_dvr.Protocol.SystemInfo.{hlp_get_system_information_multiple}
use tani_dvr.Protocol.SystemInfo.Answers.{
  nop_query, learn_all, queries, hlp_get_system_information_multiple-stream,
}
use tani_dvr.Protocol.Media.{media_request, hlp_media_data_request, hlp_collect_media_data}
use tani_dvr.Protocol.Media.Frame.{hlp_media_data_request-stream, hlp_collect_media_data-stream}
use tani_dvr.Protocol.Channels.{format_names}
use tani_dvr.Protocol.Channels.Lines.{to_lines, format_names-lines}
use tani_dvr.Devinfo.{
  Devinfo, di_vs_undefined, di_ve_undefined, di_mwp_undefined, di_hd_undefined, extract_string,
}
use tani_dvr.Devinfo.Text.{IsText, extract_string-IsText}
use tani_dvr.FrameInfo.{McParms, ft_undefined, stamp}
use tani_dvr.FrameInfo.Clock.{stamp_all, total, stamp_all-clock}
use tani_dvr.Prelude.{
  All, List, [], arith, drop, false, length, none, refl, replicate, set, some, true, ℕ, ◌%◌, ◌*◌,
  ◌++◌, ◌<◌, ◌^◌, ◌∷◌, ◌≡◌,
}

-- A message with that command and two bytes behind its header.
abbrev message : ℕ → Message
message command = record { head = set (set (replicate 32 0) 0 command) 4 2; ext = 65 ∷ 66 ∷ [] }

message-IsMessage : (command : ℕ) → IsMessage (message command)
unfolding lm2nv_u32
message-IsMessage command = record { size = refl; shown = refl; small = omega arith }

-- The DVR sends a message of another kind, then one with that command, then another byte.
abbrev incoming : ℕ → List ℕ
incoming command = stream (message 1 ∷ []) (message command) (9 ∷ [])

abbrev conn : ℕ → Conn
conn command = record { incoming = incoming command; outgoing = []; room = 1000 }

discard_lem_example : discard 70000 (conn 7) 40 ≡ (then_comes (conn 7) (drop 40 (incoming 7)), 0)
discard_lem_example = discard_lem 70000 (conn 7) 40 (omega arith)

llp_get_header-llp_send_header_example :
    ((llp_send_header (conn 7) init_header).0.outgoing ≡ [] ++ wire init_header)
    × (llp_get_header (then_comes (conn 7) ((wire init_header ++ 5 ∷ []) ++ 6 ∷ []))
        ≡ (then_comes (conn 7) (5 ∷ 6 ∷ []), record { raw = wire init_header; extlen = 0 }, 0))
llp_get_header-llp_send_header_example =
    llp_get_header-llp_send_header (conn 7)
      (then_comes (conn 7) ((wire init_header ++ 5 ∷ []) ++ 6 ∷ [])) init_header (5 ∷ []) (6 ∷ [])
      refl (omega arith) (omega arith) refl

hlp_get_header-stream_example :
    hlp_get_header (conn 7) 7 ≡ (then_comes (conn 7) (65 ∷ 66 ∷ 9 ∷ []), header_of (message 7), 0)
hlp_get_header-stream_example =
    hlp_get_header-stream (message 1 ∷ []) (conn 7) (message 7) (9 ∷ [])
      ((message-IsMessage 1, refl), tt) (message-IsMessage 7) refl

request_and_discard-stream_example :
    request_and_discard (conn 7) init_header 7
    ≡ (then_comes (sent (conn 7) (wire init_header)) (9 ∷ []), 0)
request_and_discard-stream_example =
    request_and_discard-stream (message 1 ∷ []) (conn 7) init_header (message 7) (9 ∷ [])
      ((message-IsMessage 1, refl), tt) (message-IsMessage 7) refl (omega arith)

hlp_get_header_and_extdata-reply_example :
    hlp_get_header_and_extdata
      (then_comes (conn 7) (encode (message 11) ++ (encode (message 177) ++ 9 ∷ [])))
      11
      true
      none
    ≡ (then_comes (sent (conn 7) (wire nop_header)) (9 ∷ []), header_of (message 11), [], pos 0)
hlp_get_header_and_extdata-reply_example =
    hlp_get_header_and_extdata-reply
      (then_comes (conn 7) (encode (message 11) ++ (encode (message 177) ++ 9 ∷ []))) (message 11)
      (message 177) (9 ∷ []) (omega arith) (message-IsMessage 11) (message-IsMessage 177) refl

hlp_get_header_and_extdata-silent_example :
    hlp_get_header_and_extdata (then_comes (conn 7) (encode (message 177) ++ 9 ∷ [])) 11 true none
    ≡ (then_comes (sent (conn 7) (wire nop_header)) (9 ∷ []), header_of (message 177), [], minus 1)
hlp_get_header_and_extdata-silent_example =
    hlp_get_header_and_extdata-silent (then_comes (conn 7) (encode (message 177) ++ 9 ∷ []))
      (message 177) (9 ∷ []) 11 (omega arith) (message-IsMessage 177) refl (λ e. omega (arith, e))
      refl

abbrev unknown_device : Devinfo
unknown_device = record {
  video_sys = di_vs_undefined;
  video_enc = di_ve_undefined;
  mw_preview = di_mwp_undefined;
  n_channels = minus 1;
  dev_type = minus 1;
  dev_subtype = minus 1;
  hd_type = di_hd_undefined;
  dev_sn = [];
  dev_ver = [];
  dev_type_chipset = [];
  lang_sup = [];
  func_list = [];
  oem_info = [];
  netrun_stat = [];
  split_screen = [];
  func_capability = [];
  hd_part_cap = [];
  wi_alarm = [];
  access_url = [];
}

abbrev session : HlpConnection
session = record { conn = conn 176; unique_login_symbol = 0 }

abbrev admin : List ℕ
admin = b'a' ∷ b'd' ∷ b'm' ∷ b'i' ∷ b'n' ∷ []

abbrev after_login : Conn
after_login =
    then_comes
      (sent (sent (conn 176) (wire (login_header admin admin))) (login_extdata admin admin))
      (9 ∷ [])

hlp_login-stream_example :
    (s' : HlpConnection) × (d' : Devinfo) × (ret : ℕ) × (hlp_login session
        (some unknown_device)
        admin
        admin
      ≡ (s', some d', ret))
    × (s'.conn ≡ after_login)
    × Decided (message 176).head session s' ret
    × Tells (message 176).head unknown_device d'
unfolding login_extdata
hlp_login-stream_example =
    hlp_login-stream session unknown_device admin admin (message 1 ∷ []) (message 176) (9 ∷ [])
      (omega arith) ((message-IsMessage 1, refl), tt) (message-IsMessage 176) refl refl
      (omega arith)

hlp_get_system_information_multiple-stream_example :
    hlp_get_system_information_multiple (conn 177) unknown_device 7 3 ≡ (
      then_comes (sent (conn 177) (queries 7 3 ++ wire nop_query)) (9 ∷ []),
      learn_all (message 1 ∷ []) unknown_device,
      0,
    )
hlp_get_system_information_multiple-stream_example =
    hlp_get_system_information_multiple-stream (conn 177) unknown_device 7 3 (message 1 ∷ [])
      (message 177) (9 ∷ []) (omega arith) (((message-IsMessage 1, omega arith), refl), tt)
      (message-IsMessage 177, omega arith) refl refl

hlp_collect_media_data-stream_example :
    hlp_collect_media_data (conn 188) (some 100) ≡ (then_comes (conn 188) (9 ∷ []), 65 ∷ 66 ∷ [], 0)
hlp_collect_media_data-stream_example =
    hlp_collect_media_data-stream (conn 188) 100 (message 1 ∷ []) (message 188) (9 ∷ [])
      ((message-IsMessage 1, refl), tt) (message-IsMessage 188) refl refl

-- "A&&B" in a block of eight bytes.
abbrev two_names : List ℕ
two_names = b'A' ∷ b'&' ∷ b'&' ∷ b'B' ∷ []

format_names-lines_example :
    (rest : List ℕ) × (format_names (two_names ++ 0 ∷ 1 ∷ 2 ∷ 3 ∷ [])
      ≡ some (to_lines false two_names ++ 10 ∷ 0 ∷ rest))
unfolding to_lines
format_names-lines_example =
    format_names-lines two_names (1 ∷ 2 ∷ 3 ∷ []) (refl, (refl, (refl, (refl, tt)))) (omega arith)

extract_string-IsText_example :
    All IsText (extract_string (65 ∷ 200 ∷ 9 ∷ 1 ∷ []) 4)
    × (length (extract_string (65 ∷ 200 ∷ 9 ∷ 1 ∷ []) 4) < 4)
    × (4 < 4 → length (extract_string (65 ∷ 200 ∷ 9 ∷ 1 ∷ []) 4) ≡ 4)
extract_string-IsText_example = extract_string-IsText (65 ∷ 200 ∷ 9 ∷ 1 ∷ []) 4 (omega arith)

abbrev fresh_parms : McParms
fresh_parms = record {
  v_first_frame = true;
  ntsc_exact_60hz = false;
  frame_type = ft_undefined;
  has_v_parms = false;
  v_width = 0;
  v_height = 0;
  v_aspect_x = 0;
  v_aspect_y = 0;
  dhav_epoch = 0;
  v_timestamp = 0;
  v_dhav_ts = 0;
  ntsc_timings = false;
  dhav_fps = 0;
  v_dhav_ts_prev = 0;
  body_p = 0;
  body_len = 0;
}

-- The third frame's 16 bits have wrapped.
stamp_all-clock_example :
    (stamp_all (stamp (65000 % 2 ^ 16) fresh_parms) 65000 (40 ∷ 600 ∷ [])).v_timestamp % 2 ^ 64
    ≡ total (40 ∷ 600 ∷ []) * 1000000 % 2 ^ 64
stamp_all-clock_example =
    stamp_all-clock fresh_parms 65000 (40 ∷ 600 ∷ []) refl (omega arith, (omega arith, tt))

hlp_media_data_request-stream_example :
    hlp_media_data_request (conn 7) (conn 188) 3 1 (some 100) ≡ (
      sent (conn 7) (wire (media_request 3 1).0 ++ (media_request 3 1).1),
      then_comes (conn 188) (9 ∷ []),
      65 ∷ 66 ∷ [],
      0,
    )
hlp_media_data_request-stream_example =
    hlp_media_data_request-stream (conn 7) (conn 188) 3 1 100 (message 1 ∷ []) (message 188)
      (9 ∷ []) (omega arith) (omega arith) (omega arith) ((message-IsMessage 1, refl), tt)
      (message-IsMessage 188) refl refl
