-- ===== src/Protocol/SystemInfo.antt =====
-- hlp_get_system_information, hlp_get_system_information_multiple and hlp_set_alarm.
pub mod Answers
use tani_dvr.Prelude.Int.{pos, negsuc}
use tani_dvr.Link.{
  Conn, LlHeader, llp_hd_cmd, llp_hd_nop_reply, init_header, with_raw, llp_get_header,
  llp_get_extdata_sbuff, llp_get_discard_extdata, llp_send_header, llp_send_nop,
}
use tani_dvr.Devinfo.{Devinfo, update_devinfo}
use tani_dvr.Protocol.{hlp_get_header, request}
use tani_dvr.Prelude.{
  Bool, false, get_or, if◌then◌else◌, length, not, suc, true, zero, ℕ, ◌%◌, ◌+◌, ◌==◌,
}

abbrev pub sysinfo_ed_len : ℕ
sysinfo_ed_len = 1024

-- The header of a query.
abbrev pub sysinfo_header : ℕ → ℕ → LlHeader
sysinfo_header infotype bitstream =
    with_raw (with_raw (with_raw init_header 0 164) 8 infotype) 12 bitstream

unfoldable pub hlp_get_system_information : Conn → Devinfo → ℕ → ℕ → Conn × Devinfo × ℕ
hlp_get_system_information c d infotype bitstream =
    let (c', h, retcode) = request c (sysinfo_header infotype bitstream) 180 in
    let (c'', extdata, extdata_len) = llp_get_extdata_sbuff c' h sysinfo_ed_len in
    if not (retcode == 0) then (c', d, retcode) else elim extdata_len [
      | pos n ↦ (c'', update_devinfo extdata h d, 0)
      | negsuc n ↦ ((llp_get_discard_extdata c'' h).0, d, 3)
    ]

-- The requests, from `infotype` on, `n` of them; with `true` if all were sent.
unfoldable pub send_queries : Conn → ℕ → ℕ → Conn × Bool
send_queries c infotype zero = (c, true)
send_queries c infotype (suc n) =
    let (c', failed) = llp_send_header c (sysinfo_header (infotype % 256) 0) in
    let rest = send_queries c' (infotype + 1) n in if failed == 0 then rest else (c', false)

-- The loop over the replies, up to that of the NOP. Each round reads 32 bytes or ends, so as many
-- rounds as there are bytes are enough: without one left the read fails.
unfoldable pub collect_replies : ℕ → Conn → Devinfo → Conn × Devinfo × ℕ
collect_replies zero c d = ((llp_get_header c).0, d, 2)
collect_replies (suc k) c d =
    let (c', h, failed) = llp_get_header c in
    let (c'', extdata, extdata_len) = llp_get_extdata_sbuff c' h sysinfo_ed_len in
    let again = collect_replies k c'' (update_devinfo extdata h d) in
    if not (failed == 0) then (c', d, 2) else elim extdata_len [
      | pos n ↦ if llp_hd_cmd h == llp_hd_nop_reply then (c'', d, 0) else again
      | negsuc n ↦ ((llp_get_discard_extdata c'' h).0, d, 3)
    ]

unfoldable pub hlp_get_system_information_multiple : Conn → Devinfo → ℕ → ℕ → Conn × Devinfo × ℕ
hlp_get_system_information_multiple c d first_infotype total_infotype =
    let (c', all_sent) = send_queries c first_infotype total_infotype in
    let (c'', failed) = llp_send_nop c' in
    if not all_sent
    then (c', d, 4)
    else if not (failed == 0)
    then (c'', d, 5)
    else collect_replies (length c''.incoming) c'' d

-- The loop of hlp_set_alarm. It tests the operation type of the request, which is 2, not of the
-- reply.
unfoldable pub wait_alarm : ℕ → Conn → LlHeader → ℕ → Conn × LlHeader × ℕ
wait_alarm zero c out alarm_type = let (c', h, retcode) = hlp_get_header c 105 in (c', h, 2)
wait_alarm (suc k) c out alarm_type =
    let (c', h, retcode) = hlp_get_header c 105 in
    let (c'', failed) = llp_get_discard_extdata c' h in
    let again = wait_alarm k c'' out alarm_type in
    if not (retcode == 0)
    then (c', h, 2)
    else if not (get_or out.raw 8 0 == 2)
    then again
    else if not (get_or h.raw 12 0 == alarm_type)
    then if not (failed == 0) then (c'', h, 5) else again
    else (c', h, 0)

unfoldable pub hlp_set_alarm : Conn → ℕ → Conn × ℕ
hlp_set_alarm c alarm_type =
    let out = with_raw (with_raw (with_raw init_header 0 104) 8 2) 12 alarm_type in
    let (c1, failed) = llp_send_header c out in
    let (c2, h, retcode) = wait_alarm (length c1.incoming) c1 out alarm_type in
    let (c3, retcode') = llp_get_discard_extdata c2 h in
    if not (failed == 0)
    then (c1, 4)
    else if not (retcode == 0)
    then (c2, retcode)
    else if not (retcode' == 0)
    then (c3, 3)
    else (c3, 0)
