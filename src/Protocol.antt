-- ===== src/Protocol.antt =====
-- src/hlprotocol.h and src/hlprotocol.c: requests to the DVR and their replies. A reply with another
-- command than the one waited for is thrown away.
pub mod Replies
pub mod Nop
pub mod Login
pub mod SystemInfo
pub mod Media
pub mod Channels
use tani_dvr.Prelude.Int.{negsuc, ℤ, pos, minus}
use tani_dvr.BinTools.{nv2lm_u32}
use tani_dvr.Link.{
  Conn, LlHeader, llp_hd_cmd, llp_hd_nop_reply, init_header, with_raw, llp_get_header,
  llp_get_extdata_sbuff, llp_get_discard_extdata, llp_send_header, llp_send_nop, llp_send_extdata,
}
use tani_dvr.Prelude.{
  ==_iff, All, All-append, All-get_or, All-split, Bool, Bool-cases, List, Option, [], add-one, ap,
  append-nil, append_assoc, append_inj, arith, dec_lt, drop, drop-drop, drop-length_append,
  drop-past, false, flatten, get_or, get_or-append, get_or-cons, get_or-past, get_or-set,
  get_or-splice, get_or-splice_in, get_or-splice_out, get_or-tabulate, if◌then◌else◌, inl, inr, leb,
  leb→le, length, length-append, length-drop, length-replicate, length-set, length-splice,
  length-tabulate, length-take, list_ext, ltb, ltb→le, ltb→lt, lt→ltb, map, none, not, refl,
  replicate, set, some, splice, sub_size, suc, sym, tabulate, tabulate-add, tabulate-get_or,
  tabulate_congr, take, take-append-drop, take-length_append, true, window, window-front,
  window_cut, window_split, window_total, zero, ℕ, ◌%◌, ◌&&◌, ◌*◌, ◌++◌, ◌+◌, ◌-◌, ◌/◌, ◌<◌, ◌==◌,
  ◌^◌, ◌||◌, ◌↔◌, ◌∙◌, ◌∷◌, ◌≡◌, ◌≢◌, ◌≤◌, ◌⊎◌,
}

pub record HlpConnection : Type 0 where
  pub conn : Conn
  pub unique_login_symbol : ℕ

abbrev pub remote_retcode_offset : ℕ
remote_retcode_offset = 256

-- The loop of hlp_get_header. Each round reads 32 bytes or fails, so as many rounds as there are
-- bytes are enough: without a round left the read fails.
unfoldable pub get_header_loop : ℕ → Conn → ℕ → Conn × LlHeader × ℕ
get_header_loop zero c expected_cmd = llp_get_header c
get_header_loop (suc k) c expected_cmd =
    let (c', h, retcode) = llp_get_header c in
    let again = get_header_loop k (llp_get_discard_extdata c' h).0 expected_cmd in
    if not (retcode == 0)
    then (c', h, retcode)
    else if not (llp_hd_cmd h == expected_cmd)
    then again
    else (c', h, 0)

unfoldable pub hlp_get_header : Conn → ℕ → Conn × LlHeader × ℕ
hlp_get_header c expected_cmd = get_header_loop (length c.incoming) c expected_cmd

-- The reply to the NOP behind the reply that was waited for.
unfoldable pub skip_nop_reply : Bool → Conn → LlHeader → List ℕ → Conn × LlHeader × List ℕ × ℤ
skip_nop_reply false c h buf = (c, h, buf, pos 0)
skip_nop_reply true c h buf =
    let (c', nop, retcode) = llp_get_header c in
    let (c'', retcode') = llp_get_discard_extdata c' nop in
    if not (retcode == 0)
    then (c', h, buf, pos 4)
    else if not (retcode' == 0)
    then (c'', h, buf, pos 5)
    else (c'', h, buf, pos 0)

-- The extended data, into `buf` with its length or thrown away.
unfoldable pub take_extdata : Bool → Conn → LlHeader → Option ℕ → Conn × LlHeader × List ℕ × ℤ
take_extdata issue_nop c h none = skip_nop_reply issue_nop (llp_get_discard_extdata c h).0 h []
take_extdata issue_nop c h (some buflen) =
    let (c', buf, extdata_retlen) = llp_get_extdata_sbuff c h buflen in
    elim extdata_retlen [
      | pos n ↦ skip_nop_reply issue_nop c' h buf
      | negsuc n ↦ (c', h, buf, pos 3)
    ]

unfoldable pub unexpected : Bool → Conn → LlHeader → Conn × LlHeader × List ℕ × ℤ
unexpected issue_nop c h =
    let (c', retcode) = llp_get_discard_extdata c h in
    if not (retcode == 0)
    then (c', h, [], pos 2)
    else if issue_nop && (llp_hd_cmd h == llp_hd_nop_reply)
    then (c', h, [], minus 1)
    else (c', h, [], pos 1)

-- `buf` is `none` for NULL, else its length; the list is what was put in it, and `*extdata_len` is
-- the length of that.
unfoldable pub hlp_get_header_and_extdata :
    Conn → ℕ → Bool → Option ℕ → Conn × LlHeader × List ℕ × ℤ
hlp_get_header_and_extdata c expected_cmd issue_nop buf =
    let c' = if issue_nop then (llp_send_nop c).0 else c in
    let (c'', h, retcode) = llp_get_header c' in
    if not (retcode == 0)
    then (c'', h, [], pos 1)
    else if not (llp_hd_cmd h == expected_cmd)
    then unexpected issue_nop c'' h
    else take_extdata issue_nop c'' h buf

-- What most requests do: send a header, wait for a reply.
unfoldable pub request : Conn → LlHeader → ℕ → Conn × LlHeader × ℕ
request c h reply_cmd =
    let (c', failed) = llp_send_header c h in
    let (c'', h', retcode) = hlp_get_header c' reply_cmd in
    if not (failed == 0)
    then (c', init_header, 4)
    else if not (retcode == 0)
    then (c'', h', 2)
    else (c'', h', 0)

-- And then throw its extended data away.
unfoldable pub request_and_discard : Conn → LlHeader → ℕ → Conn × ℕ
request_and_discard c h reply_cmd =
    let (c', h', retcode) = request c h reply_cmd in
    let (c'', retcode') = llp_get_discard_extdata c' h' in
    if not (retcode == 0) then (c', retcode) else if not (retcode' == 0) then (c'', 3) else (c'', 0)

-- `hlp_logout`; the connection gets its reply, or that of the NOP.
unfoldable pub hlp_logout : HlpConnection → HlpConnection
hlp_logout s =
    let h = record init_header {
      raw = splice (set init_header.raw 0 10) 8 (nv2lm_u32 s.unique_login_symbol);
    } in
    let (c, _) = llp_send_header s.conn h in
    record s { conn = (hlp_get_header_and_extdata c 11 true none).0 }

-- `hlp_connection_relationship`, which asks on the new connection and waits for no reply.
unfoldable pub hlp_connection_relationship :
    HlpConnection → HlpConnection → ℕ → ℕ → HlpConnection × ℕ
hlp_connection_relationship orig new reqtype reqchnumber =
    let symbol = splice (set init_header.raw 0 241) 8 (nv2lm_u32 orig.unique_login_symbol) in
    let h = record init_header {
      raw = set (set (set symbol 12 reqtype) 13 ((reqchnumber + 1) % 256)) 17 0;
    } in
    let (c, failed) = llp_send_header new.conn h in
    (record new { conn = c }, if failed == 0 then 0 else 4)

-- `hlp_send_extension_string`.
unfoldable pub hlp_send_extension_string : Conn → List ℕ → Conn × ℕ
hlp_send_extension_string c extstr =
    let (c1, failed) =
      llp_send_header c (record (with_raw init_header 0 244) { extlen = length extstr }) in
    let (c2, _) = llp_send_extdata c1 extstr in
    let (c3, h, retcode) = hlp_get_header c2 244 in
    let (c4, retcode') = llp_get_discard_extdata c3 h in
    if not (failed == 0)
    then (c1, 4)
    else if not (retcode == 0)
    then (c3, 2)
    else if not (retcode' == 0)
    then (c4, 3)
    else (c4, 0)

-- `hlp_get_work_alarm_status`, and `hlp_keep_alive`, which calls it.
unfoldable pub hlp_get_work_alarm_status : Conn → Conn × ℕ
hlp_get_work_alarm_status c = request_and_discard c (with_raw init_header 0 161) 177

unfoldable pub hlp_keep_alive : Conn → Conn × ℕ
hlp_keep_alive c = hlp_get_work_alarm_status c

unfoldable pub hlp_get_media_capability : Conn → ℕ → Conn × ℕ
hlp_get_media_capability c infotype =
    request_and_discard c (with_raw (with_raw init_header 0 131) 9 infotype) 131

unfoldable pub hlp_get_config_parameter : Conn → ℕ → Conn × ℕ
hlp_get_config_parameter c infotype =
    let word = b'c' ∷ b'o' ∷ b'n' ∷ b'f' ∷ b'i' ∷ b'g' ∷ [] in
    let raw = set (splice (set init_header.raw 0 163) 8 word) 16 infotype in
    request_and_discard c (record init_header { raw = raw }) 179
