-- ===== src/Protocol/Media.antt =====
-- hlp_media_data_request, hlp_collect_media_data and hlp_discard_incoming_data.
pub mod Frame
use tani_dvr.Prelude.Int.{ℤ, pos, negsuc, minus}
use tani_dvr.Link.{
  Conn, LlHeader, init_header, llp_get_header, llp_get_extdata_sbuff, llp_get_discard_extdata,
  llp_send_header, llp_send_extdata,
}
use tani_dvr.Protocol.{remote_retcode_offset, hlp_get_header}
use tani_dvr.Prelude.{
  Bool, List, Option, [], false, get_or, if◌then◌else◌, length, ltb, none, not, replicate, set,
  some, suc, take, true, zero, ℕ, ◌%◌, ◌++◌, ◌+◌, ◌/◌, ◌==◌, ◌∷◌,
}

-- The extended data of a frame, with the three return codes for a failure. `dest` is `none` for
-- NULL, else `max_len`; the list is what was put there, and `*dest_data_len` its length.
unfoldable pub get_frame : Conn → LlHeader → Option ℕ → ℕ → ℕ → ℕ → Conn × List ℕ × ℕ
get_frame c h none discard_failed too_large_failed read_failed =
    let (c', failed) = llp_get_discard_extdata c h in
    (c', [], if failed == 0 then 0 else discard_failed)
get_frame c h (some max_len) discard_failed too_large_failed read_failed =
    let (c', failed) = llp_get_discard_extdata c h in
    let (c'', buf, n) = llp_get_extdata_sbuff c h h.extlen in
    if ltb max_len h.extlen
    then (c', [], if failed == 0 then 10 else too_large_failed)
    else elim n [ pos n ↦ (c'', buf, 0) | negsuc n ↦ (c'', buf, read_failed) ]

-- The reply with its frame, and the status in its byte 16.
unfoldable pub receive_frame : Conn → Option ℕ → ℕ → ℕ → ℕ → Conn × List ℕ × ℕ
receive_frame c dest discard_failed too_large_failed read_failed =
    let (c', h, retcode) = hlp_get_header c 188 in
    let (c'', buf, failed) = get_frame c' h dest discard_failed too_large_failed read_failed in
    if not (retcode == 0)
    then (c', [], 2)
    else if not (failed == 0)
    then (c'', buf, failed)
    else if not (get_or h.raw 16 0 == 0)
    then (c'', buf, get_or h.raw 16 0 + remote_retcode_offset)
    else (c'', buf, 0)

unfoldable pub hlp_collect_media_data : Conn → Option ℕ → Conn × List ℕ × ℕ
hlp_collect_media_data c dest = receive_frame c dest 12 13 11

-- `%d` of printf for a number that is not negative; each division takes one digit away, so a number
-- has no more digits than itself and one.
unfoldable pub decimal_digits : ℕ → ℕ → List ℕ
decimal_digits zero n = []
decimal_digits (suc k) n =
    let front = decimal_digits k (n / 10) in
    if ltb n 10 then (48 + n) ∷ [] else front ++ (48 + n % 10) ∷ []

abbrev pub decimal : ℕ → List ℕ
decimal n = decimal_digits (n + 1) n

abbrev pub crlf : List ℕ
crlf = 13 ∷ 10 ∷ []

abbrev channel_name : List ℕ
channel_name =
    b'C' ∷ b'h' ∷ b'a' ∷ b'n' ∷ b'n' ∷ b'e' ∷ b'l' ∷ b'N' ∷ b'a' ∷ b'm' ∷ b'e' ∷ b':' ∷ []

abbrev stream_name : List ℕ
stream_name = b'S' ∷ b't' ∷ b'r' ∷ b'e' ∷ b'a' ∷ b'm' ∷ b':' ∷ []

abbrev operate : List ℕ
operate = b'O' ∷ b'p' ∷ b'e' ∷ b'r' ∷ b'a' ∷ b't' ∷ b'e' ∷ b':' ∷ b'1' ∷ []

abbrev protocol : List ℕ
protocol = b'P' ∷ b'r' ∷ b'o' ∷ b't' ∷ b'o' ∷ b'c' ∷ b'o' ∷ b'l' ∷ b':' ∷ b't' ∷ b'c' ∷ b'p' ∷ []

-- `snprintf (extdata_out, 63, …)`.
unfoldable pub extended_request : ℕ → ℕ → List ℕ
extended_request channel sub_channel = take 62 (
    channel_name
    ++ decimal channel
    ++ crlf
    ++ stream_name
    ++ decimal sub_channel
    ++ crlf
    ++ operate
    ++ crlf
    ++ protocol
    ++ crlf
    ++ crlf)

-- The header and its extended data, in the old or in the extended protocol.
unfoldable pub media_request : ℕ → ℕ → LlHeader × List ℕ
media_request channel sub_channel =
    let raw = set init_header.raw 0 17 in
    let old = take 16 (set (replicate 64 0) channel (sub_channel % 256)) in
    let extended = extended_request channel sub_channel in
    if ltb channel 16
    then (record { raw = set (set raw (8 + channel) 1) 24 0; extlen = 16 }, old)
    else (record { raw = set (set raw 24 0) 26 8; extlen = length extended }, extended)

-- The control connection and the one for the data, a different object.
unfoldable pub hlp_media_data_request : Conn → Conn → ℕ → ℕ → Option ℕ → Conn × Conn × List ℕ × ℕ
hlp_media_data_request ctrl data_conn channel sub_channel dest =
    let (h, extdata_out) = media_request channel sub_channel in
    let (c1, failed) = llp_send_header ctrl h in
    let (c2, failed') = llp_send_extdata c1 extdata_out in
    let (d, buf, ret) = receive_frame data_conn dest 3 5 4 in
    if not (failed == 0)
    then (c1, data_conn, [], 4)
    else if not (failed' == 0)
    then (c2, data_conn, [], 3)
    else (c2, d, buf, ret)

-- `checks` are the answers of `poll` in llp_check_incoming_data, `true` for one that is not 0; what
-- has no answer yet still waits.
unfoldable pub hlp_discard_incoming_data : List Bool → Conn → ℤ → Conn × ℤ
hlp_discard_incoming_data [] c i = (c, i)
hlp_discard_incoming_data (false ∷ checks) c i = (c, i)
hlp_discard_incoming_data (true ∷ checks) c i =
    let (c', h, failed) = llp_get_header c in
    let (c'', failed') = llp_get_discard_extdata c' h in
    let again = hlp_discard_incoming_data checks c'' (pos 1) in
    if not (failed == 0)
    then (c', minus 1)
    else if not (failed' == 0)
    then (c'', minus 1)
    else again
