-- ===== src/Protocol/Nop.antt =====
-- The NOP behind a request tells whether the DVR replied to it.
use tani_dvr.Prelude.Int.{ℤ, pos, minus}
use tani_dvr.Link.{
  Conn, LlHeader, llp_header_size, llp_hd_cmd, llp_hd_nop_req, llp_hd_nop_reply, init_header,
  with_raw, llp_get_header, llp_send_nop,
}
use tani_dvr.Link.Messages.{
  Message, IsMessage, encode, cmd, header_of, then_comes, sent, wire, llp_send_header-sent,
  llp_get_header-Message, discard-Message,
}
use tani_dvr.Protocol.{skip_nop_reply, take_extdata, unexpected, hlp_get_header_and_extdata}
use tani_dvr.Prelude.{
  List, [], ap, append_assoc, arith, false, if◌then◌else◌, length, none, not, refl, true, ℕ, ◌++◌,
  ◌==◌, ◌∙◌, ◌≡◌, ◌≢◌, ◌≤◌,
}

abbrev pub nop_header : LlHeader
nop_header = with_raw init_header 0 llp_hd_nop_req

nop_sent : (c : Conn) → llp_header_size ≤ c.room → llp_send_nop c ≡ (sent c (wire nop_header), 0)
unfolding llp_send_nop
nop_sent c h =
    let size : length nop_header.raw ≡ llp_header_size = refl in
    llp_send_header-sent c nop_header (omega arith)

-- What follows the header, on a connection and a header.
abbrev judged : ℕ → Conn × LlHeader × ℕ → Conn × LlHeader × List ℕ × ℤ
judged expected (c, h, retcode) =
    if not (retcode == 0)
    then (c, h, [], pos 1)
    else if not (llp_hd_cmd h == expected)
    then unexpected true c h
    else take_extdata true c h none

-- Called with a buffer of NULL, which has the extended data discarded, and a NOP to send behind the
-- request, with room to send and a DVR that answers both: hlp_get_header_and_extdata returns 0 and
-- the reply's header, and has consumed both answers, the extended data included.
pub hlp_get_header_and_extdata-reply :
    (c : Conn) (m n : Message) (rest : List ℕ)
    → llp_header_size ≤ c.room
    → IsMessage m
    → IsMessage n
    → c.incoming ≡ encode m ++ (encode n ++ rest)
    → hlp_get_header_and_extdata c (cmd m) true none
      ≡ (then_comes (sent c (wire nop_header)) rest, header_of m, [], pos 0)
unfolding hlp_get_header_and_extdata take_extdata skip_nop_reply
hlp_get_header_and_extdata-reply c m n rest room v w i =
    let c' = sent c (wire nop_header) in
    let later = encode n ++ rest in
    let got =
      llp_get_header-Message c' m (m.ext ++ later) v (i ∙ append_assoc m.head m.ext later) in
    let same : (cmd m == cmd m) ≡ true = ground arith in
    let got' =
      llp_get_header-Message (then_comes c' later) n (n.ext ++ rest) w
        (append_assoc n.head n.ext rest) in
    ap (λ s. judged (cmd m) (llp_get_header s.0)) (nop_sent c room)
    ∙ ap (judged (cmd m)) got
    ∙ rw (same, discard-Message c' m later) (rw got' (rw (discard-Message c' n rest) refl))

-- Called with a buffer of NULL and a NOP to send behind the request, with room to send and a DVR
-- that answers only the NOP: hlp_get_header_and_extdata returns -1 and has consumed that answer.
pub hlp_get_header_and_extdata-silent :
    (c : Conn) (n : Message) (rest : List ℕ) (expected : ℕ)
    → llp_header_size ≤ c.room
    → IsMessage n
    → cmd n ≡ llp_hd_nop_reply
    → expected ≢ llp_hd_nop_reply
    → c.incoming ≡ encode n ++ rest
    → hlp_get_header_and_extdata c expected true none
      ≡ (then_comes (sent c (wire nop_header)) rest, header_of n, [], minus 1)
unfolding hlp_get_header_and_extdata unexpected
hlp_get_header_and_extdata-silent c n rest expected room w e other i =
    let c' = sent c (wire nop_header) in
    let got = llp_get_header-Message c' n (n.ext ++ rest) w (i ∙ append_assoc n.head n.ext rest) in
    let differs : (cmd n == expected) ≡ false = ground (arith, other) in
    let is_nop : (cmd n == llp_hd_nop_reply) ≡ true = ground arith in
    ap (λ s. judged expected (llp_get_header s.0)) (nop_sent c room)
    ∙ ap (judged expected) got
    ∙ rw (differs, discard-Message c' n rest) (rw is_nop refl)
